-- ===== src/Effective/DeepMerge/Abandoned.antt =====
-- What DEEP_MERGE leaves out after a conflict inside a nested object.
use oh_my_code_agent.Prelude.{String, false, Option, some, ◌≡◌, refl, sym, ◌∙◌}
use oh_my_code_agent.Effective.Types.{Value, object, Fields, field}
use oh_my_code_agent.Effective.DeepMerge.{get, put, under, deep_merge_loop, deep_merge_into, Merged}

module _ (canonical_digest : Value → Option String) where
  abbrev abandoned : Fields → Fields → Fields → String → String → Merged
  abandoned dst es vs k path =
      let child = deep_merge_into canonical_digest es vs (under path k) in
      record { fields = put dst k (object child.fields); path = child.path; ok = false }

  stops :
      (dst es vs rest : Fields) (k path : String)
      → get dst k ≡ some (object es)
      → (deep_merge_into canonical_digest es vs (under path k)).ok ≡ false
      → deep_merge_into canonical_digest dst (field k (object vs) rest) path
        ≡ abandoned dst es vs k path
  unfolding deep_merge_into deep_merge_loop
  stops dst es vs rest k path q n = rw (deep_merge_loop, q, n) refl

  -- Once a leaf differs inside the object under a key, the result is the same whatever fields the
  -- source has after that key: they are not merged, also where the scope order decides the leaf.
  pub nested_conflict_drops_rest :
      (dst es vs rest other : Fields) (k path : String)
      → get dst k ≡ some (object es)
      → (deep_merge_into canonical_digest es vs (under path k)).ok ≡ false
      → deep_merge_into canonical_digest dst (field k (object vs) rest) path
        ≡ deep_merge_into canonical_digest dst (field k (object vs) other) path
  nested_conflict_drops_rest dst es vs rest other k path q n =
      stops dst es vs rest k path q n ∙ sym (stops dst es vs other k path q n)
