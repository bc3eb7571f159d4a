-- ===== src/Hub/Pool/Slots/Progress.antt =====
-- A caller of internal/hub/pool.go that waits for a slot is not locked out.
use oh_my_code_agent.Prelude.{
  ℕ, ◌+◌, ◌≤◌, ◌<◌, ◌≡◌, ◌≢◌, ◌⊎◌, inl, inr, refl, sym, ◌∙◌, subst, arith,
}
use native.Mathlib.Decide.{dec_lt}
use oh_my_code_agent.Hub.Pool.Callers.{replace, total-positive}
use oh_my_code_agent.Hub.Pool.Slots.{
  SlotKind, max_slots, WorkerPool, lane, with_lane, waiting, sent, counted, returning, holding,
  Caller, call, Move, send, count_active, count_total, dequeue, receive, System, Reach,
}
use oh_my_code_agent.Hub.Pool.Slots.Capacity.{owns, of_kind, Inv, Reach-Inv}

-- Steps of the first `n` callers, none of them by caller `i`.
pub data Others (n i : ℕ) : System → System → Type 0 where
  rest : {s : System} → Others n i s s
  then_turn :
      {s u : System} {p : WorkerPool} {c : Caller} (j : ℕ)
      → j ≢ i
      → j < n
      → Move s.pool (s.callers j) p c
      → Others n i (record { pool = p; callers = replace s.callers j c }) u
      → Others n i s u

owner-stage :
    (k : SlotKind) (c : Caller)
    → 1 ≤ of_kind owns k c
    → (c ≡ call k sent) ⊎ ((c ≡ call k counted) ⊎ ((c ≡ call k returning) ⊎ (c ≡ call k holding)))
owner-stage k c h = ground (arith, k, c)

module _ (n i j : ℕ) (apart : j ≢ i) (lt : j < n) (k : SlotKind) where
  -- Other callers' steps after which a slot is free and caller `i` is where it was.
  abbrev Freed : System → Type 0
  Freed s =
      (t : System) × Others n i s t
      × ((lane k t.pool).sem < max_slots k)
      × (t.callers i ≡ s.callers i)

  before :
      {s : System} {p : WorkerPool} {c d : Caller}
      → s.callers j ≡ c
      → Move s.pool c p d
      → Freed (record { pool = p; callers = replace s.callers j d })
      → Freed s
  before {s} {p} {c} {d} e m (t, o, free, same) = (
    t,
    then_turn j apart lt (subst (λ x. Move s.pool x p d) (sym e) m) o,
    free,
    ground (arith, same, apart),
  )

  free_holding :
      (s : System)
      → s.callers j ≡ call k holding
      → 0 < (lane k s.pool).sem
      → (lane k s.pool).sem ≤ max_slots k
      → Freed s
  free_holding s e some_taken fits =
      before e (receive k some_taken) (_, rest, ground (arith, k), refl)

  free_returning :
      (s : System)
      → s.callers j ≡ call k returning
      → 0 < (lane k s.pool).sem
      → (lane k s.pool).sem ≤ max_slots k
      → Freed s
  free_returning s e some_taken fits =
      before e (dequeue k) (free_holding _ (ground arith) (ground (arith, k)) (ground (arith, k)))

  free_counted :
      (s : System)
      → s.callers j ≡ call k counted
      → 0 < (lane k s.pool).sem
      → (lane k s.pool).sem ≤ max_slots k
      → Freed s
  free_counted s e some_taken fits =
      before e (count_total k)
        (free_returning _ (ground arith) (ground (arith, k)) (ground (arith, k)))

  free_owner :
      (s : System)
      → 1 ≤ of_kind owns k (s.callers j)
      → 0 < (lane k s.pool).sem
      → (lane k s.pool).sem ≤ max_slots k
      → Freed s
  free_owner s own some_taken fits = elim (owner-stage k (s.callers j) own) [
    | inl e ↦
        before e (count_active k)
          (free_counted _ (ground arith) (ground (arith, k)) (ground (arith, k)))
    | inr (inl e) ↦ free_counted s e some_taken fits
    | inr (inr (inl e)) ↦ free_returning s e some_taken fits
    | inr (inr (inr e)) ↦ free_holding s e some_taken fits
  ]

-- the pool after `send`
abbrev pub after_send : SlotKind → WorkerPool → WorkerPool
after_send k p = with_lane k p (record (lane k p) { sem = (lane k p).sem + 1 })

-- A caller that waits for a slot can get one without its context's ending: in every reachable state
-- some steps of the other callers, perhaps none, lead to one in which it still waits and the pool has
-- a free slot, so that its send goes through.
pub waiting-served :
    {n : ℕ} {s : System}
    → Reach n s
    → (k : SlotKind) (i : ℕ) → s.callers i ≡ call k waiting
    → (t : System) × Others n i s t
      × (t.callers i ≡ call k waiting)
      × Move t.pool (t.callers i) (after_send k t.pool) (call k sent)
waiting-served {n} {s} r k i e = elim (dec_lt (lane k s.pool).sem (max_slots k)) [
  | yes free ↦ served s rest free refl
  | no full ↦
      let some_taken : 0 < (lane k s.pool).sem = ground (arith, k, full) in
      let (j, lt, own) =
        total-positive (of_kind owns k) n s.callers (omega (arith, inv.sem_owned, some_taken)) in
      let (t, o, free, same) =
        free_owner n i j (owner_apart j own) lt k s own some_taken inv.sem_bounded in
      served t o free same
]
  where
    inv : Inv n k s
    inv = Reach-Inv r k

    owner_apart : (j : ℕ) → 1 ≤ of_kind owns k (s.callers j) → j ≢ i
    owner_apart j own = ground (arith, e, k)

    served :
        (t : System)
        → Others n i s t
        → (lane k t.pool).sem < max_slots k
        → t.callers i ≡ s.callers i
        → (t : System) × Others n i s t
          × (t.callers i ≡ call k waiting)
          × Move t.pool (t.callers i) (after_send k t.pool) (call k sent)
    served t o free same = (
      t,
      o,
      same ∙ e,
      subst (λ x. Move t.pool x (after_send k t.pool) (call k sent)) (sym (same ∙ e)) (send k free),
    )
