-- ===== src/Hub/Pool/Workers/Killed.antt =====
-- What the registry of internal/hub/pool.go holds after its operations.
use oh_my_code_agent.Prelude.{
  ℕ, String, false, Option, none, some, List, [], ◌∷◌, ◌≡◌, ◌≢◌, refl, arith, str_eq, str_eq_iff,
  str_eq_refl, string_eq, lookup,
}
use oh_my_code_agent.Hub.Pool.Workers.{
  ActiveWorker, Registry, delete, unregister_worker, filled_in, register_worker, touched,
  get_worker, touch_worker, not_found, call_cancel, kill_worker,
}

lookup-delete : (id : String) (ws : List (String × ActiveWorker)) → lookup (delete id ws) id ≡ none
unfolding delete lookup
lookup-delete id [] = refl
lookup-delete id ((key, w) ∷ ws) = ground (arith, lookup-delete id ws)

lookup-delete_other :
    (id other : String) (ws : List (String × ActiveWorker))
    → id ≢ other
    → lookup (delete id ws) other ≡ lookup ws other
unfolding delete lookup
lookup-delete_other id other [] h = refl
lookup-delete_other id other ((key, w) ∷ ws) h =
    ground (arith, lookup-delete_other id other ws h, str_eq_iff key id, str_eq_iff key other)

lookup_other :
    (id other : String) (w : ActiveWorker) (ws : List (String × ActiveWorker))
    → id ≢ other
    → lookup ((id, w) ∷ delete id ws) other ≡ lookup ws other
unfolding lookup
lookup_other id other w ws h =
    ground (arith, lookup-delete_other id other ws h, str_eq_iff id other)

lookup_here :
    (id : String) (w : ActiveWorker) (ws : List (String × ActiveWorker))
    → lookup ((id, w) ∷ ws) id ≡ some w
unfolding lookup
lookup_here id w ws = ground (arith, str_eq_refl id)

kill_worker-some :
    (id : String) (r : Registry) (w : ActiveWorker)
    → get_worker id r ≡ some w
    → kill_worker id r
      ≡ (unregister_worker id (record r { cancelled = call_cancel w.cancel r.cancelled }), none)
unfolding kill_worker
kill_worker-some id r w e = rw (e, kill_worker) refl

kill_worker-none :
    (id : String) (r : Registry) → get_worker id r ≡ none → kill_worker id r ≡ (r, some not_found)
unfolding kill_worker
kill_worker-none id r e = rw (e, kill_worker) refl

touch_worker-some :
    (now : ℕ) (id phase : String) (lease : ℕ) (r : Registry) (w : ActiveWorker)
    → get_worker id r ≡ some w
    → get_worker id (touch_worker now id phase lease r) ≡ some (touched now phase lease w)
unfolding touch_worker
touch_worker-some now id phase lease r w e =
    rw (e, touch_worker)
      (unfold get_worker in
        (lookup_here id (touched now phase lease w) (delete id r.active_workers)))

-- A kill of a worker that is registered calls its cancellation function once, if it has one, and takes
-- it, and no other worker, out of the registry, so that a second kill fails; a kill of any other id
-- fails and changes nothing.
pub kill_worker-outcome :
    (id other : String) (r : Registry)
    → id ≢ other
    → ((w : ActiveWorker)
        → get_worker id r ≡ some w
        → ((kill_worker id r).1 ≡ none)
          × ((kill_worker id r).0.cancelled ≡ call_cancel w.cancel r.cancelled)
          × (get_worker other (kill_worker id r).0 ≡ get_worker other r)
          × (kill_worker id (kill_worker id r).0 ≡ ((kill_worker id r).0, some not_found)))
      × (get_worker id r ≡ none → kill_worker id r ≡ (r, some not_found))
unfolding unregister_worker get_worker
kill_worker-outcome id other r h = (
  λ w e. rw (kill_worker-some id r w e) (
    refl,
    refl,
    lookup-delete_other id other r.active_workers h,
    kill_worker-none id
        (record {
          active_workers = delete id r.active_workers;
          cancelled = call_cancel w.cancel r.cancelled;
        })
        (lookup-delete id r.active_workers),
  ),
  kill_worker-none id r,
)

-- After a worker is registered at a time under an id that is not empty, its id finds it with the
-- cancellation function it came with, with a time, a heartbeat and a phase filled in where it had none,
-- and every other id finds what it found; a touch then sets the heartbeat, and the phase and the lease
-- where it gives one; and an unregistered id finds nothing.
pub register_worker-found :
    (now later : ℕ) (w : ActiveWorker) (cancel : Option ℕ) (phase other : String) (lease : ℕ)
    (r : Registry)
    → str_eq w.id "" ≡ false
    → w.id ≢ other
    → (get_worker w.id (register_worker now (some w) cancel r) ≡ some (filled_in now w cancel))
      × (get_worker other (register_worker now (some w) cancel r) ≡ get_worker other r)
      × (get_worker w.id
            (touch_worker later w.id phase lease (register_worker now (some w) cancel r))
          ≡ some (touched later phase lease (filled_in now w cancel)))
      × (get_worker w.id (unregister_worker w.id (register_worker now (some w) cancel r)) ≡ none)
unfolding register_worker get_worker unregister_worker
register_worker-found now later w cancel phase other lease r named apart = rw named (
  here,
  lookup_other w.id other (filled_in now w cancel) r.active_workers apart,
  touch_worker-some later w.id phase lease registered (filled_in now w cancel) here,
  lookup-delete w.id ((w.id, filled_in now w cancel) ∷ delete w.id r.active_workers),
)
  where
    registered : Registry
    registered = record r {
      active_workers = (w.id, filled_in now w cancel) ∷ delete w.id r.active_workers;
    }

    here : lookup registered.active_workers w.id ≡ some (filled_in now w cancel)
    here = lookup_here w.id (filled_in now w cancel) (delete w.id r.active_workers)
