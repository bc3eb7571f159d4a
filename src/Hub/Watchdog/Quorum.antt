-- ===== src/Hub/Watchdog/Quorum.antt =====
-- SwarmQuorumDecision of internal/hub/watchdog.go. A duration is a number of nanoseconds, a ratio two
-- integers, and 0 stands for any argument that is not positive.
use oh_my_code_agent.Prelude.{
  ℕ, Bool, true, false, ◌*◌, ◌≤◌, ◌<◌, ◌&&◌, ◌≡◌, arith, if◌then◌else◌, leb, ◌==◌,
}
use native.Mathlib.Nat.{mul-le-mul_right}

-- a ratio of two integers, the second one positive
pub record Ratio : Type 0 where
  pub over : ℕ
  pub under : ℕ
  pub under_positive : 0 < under

-- the reasons; that of the quorum carries a ratio and a time that are only printed
pub data Reason : Type 0 where
  empty_batch all_completed hard_timeout quorum_reached no_reason : Reason

-- 0.80, where the argument is not positive
unfoldable pub quorum_in_force : Ratio → Ratio
quorum_in_force q =
    if q.over == 0 then record { over = 4; under = 5; under_positive = omega arith } else q

-- 100 seconds, where the argument is not positive
unfoldable pub wait_in_force : ℕ → ℕ
wait_in_force min_wait = if min_wait == 0 then 100000000000 else min_wait

-- `ratio >= quorumRatio`
abbrev pub reaches : ℕ → ℕ → Ratio → Bool
reaches completed total q = leb (q.over * total) (completed * q.under)

-- `SwarmQuorumDecision`
unfoldable pub swarm_quorum_decision : ℕ → ℕ → ℕ → Ratio → ℕ → ℕ → Bool × Reason
unfolding quorum_in_force wait_in_force
swarm_quorum_decision completed total elapsed quorum_ratio min_wait hard_limit =
    if total == 0
    then (true, empty_batch)
    else (if leb total completed
        then (true, all_completed)
        else (if leb hard_limit elapsed
            then (true, hard_timeout)
            else (if reaches completed total (quorum_in_force quorum_ratio)
                  && leb (wait_in_force min_wait) elapsed
                then (true, quorum_reached)
                else (false, no_reason))))

-- A batch that may return may also return later and with more of its tasks done.
pub swarm_quorum_decision_mono :
    (completed completed' total elapsed elapsed' : ℕ) (q : Ratio) (min_wait hard_limit : ℕ)
    → completed ≤ completed'
    → elapsed ≤ elapsed'
    → (swarm_quorum_decision completed total elapsed q min_wait hard_limit).0 ≡ true
    → (swarm_quorum_decision completed' total elapsed' q min_wait hard_limit).0 ≡ true
unfolding swarm_quorum_decision
swarm_quorum_decision_mono c c' total e e' q w hard more late h = ground (arith, scaled)
  where
    scaled : c * (quorum_in_force q).under ≤ c' * (quorum_in_force q).under
    scaled = mul-le-mul_right (quorum_in_force q).under more
