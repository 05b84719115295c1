-- ===== src/ClaimLock/Settled.antt =====
-- The critical sections whose results count (backend/internal/claimlock/lock.go).
use bomhort.Base.{◌↔◌, ◌↔◌, ◌<◌, false, ◌||◌, leb, ◌≡◌, ◌⊎◌, inl, inr, refl, arith, Bool-cases}
use bomhort.ClaimLock.{
  max_hold, LockResult, no_error, lease_lost, cancelled, not_acquired, failed, Section,
  section_result, Wakeup, result_ready, context_done, context_done_unseen, election_over_unseen,
  election_over, Run, never_ran, ran, with_lock, or_cancelled,
}

section_result-no_error :
    (s : Section)
    → section_result s ≡ no_error
    → (s.leader_ended ≡ false) × (s.since_start < max_hold) × (s.returned ≡ no_error)
unfolding section_result
section_result-no_error s h = elim (Bool-cases (s.leader_ended || leb max_hold s.since_start)) [
  | inl e ↦ let clash : lease_lost ≡ no_error = rw e at h in cc
  | inr e ↦ (ground arith, ground arith, rw e at h)
]

or_cancelled-ne : (r : LockResult) → ¬ (or_cancelled r ≡ no_error)
or_cancelled-ne no_error e = cc
or_cancelled-ne lease_lost e = cc
or_cancelled-ne cancelled e = cc
or_cancelled-ne not_acquired e = cc
or_cancelled-ne (failed x) e = cc

-- What a call without an error says of the function.
pub record IsSettled (s : Section) : Type 0 where
  pub still_leader : s.leader_ended ≡ false
  pub in_time : s.since_start < max_hold
  pub succeeded : s.returned ≡ no_error

settled : (s : Section) → section_result s ≡ no_error → IsSettled s
settled s h =
    let (leader, time, returned) = section_result-no_error s h in
    record { still_leader = leader; in_time = time; succeeded = returned }

settled_result : (s : Section) → IsSettled s → section_result s ≡ no_error
unfolding section_result
settled_result s h = rw (h.still_leader, h.succeeded) (ground (arith, h.in_time))

-- A call returns no error exactly if it has received the result of a function that ran and succeeded, less than the
-- longest hold after the call began by the worker's own clock, and while the leader's context was alive.
pub with_lock-no_error :
    (wakeup : Wakeup) (run : Run)
    → (with_lock wakeup run ≡ no_error) ↔ (
        ((wakeup ≡ result_ready) ⊎ (wakeup ≡ election_over))
        × ((s : Section) × (run ≡ ran s) × IsSettled s))
unfolding with_lock
with_lock-no_error wakeup run = (into wakeup run, out wakeup run)
  where
    into :
        (wakeup : Wakeup) (run : Run)
        → with_lock wakeup run ≡ no_error
        → ((wakeup ≡ result_ready) ⊎ (wakeup ≡ election_over))
          × ((s : Section) × (run ≡ ran s) × IsSettled s)
    into result_ready (ran s) h = (inl refl, (s, refl, settled s h))
    into result_ready never_ran h = cc
    into context_done_unseen run h = cc
    into election_over_unseen run h = cc
    into context_done (ran s) h = absurd (or_cancelled-ne (section_result s) h)
    into context_done never_ran h = cc
    into election_over (ran s) h = (inr refl, (s, refl, settled s h))
    into election_over never_ran h = cc

    out :
        (wakeup : Wakeup) (run : Run)
        → ((wakeup ≡ result_ready) ⊎ (wakeup ≡ election_over))
          × ((s : Section) × (run ≡ ran s) × IsSettled s)
        → with_lock wakeup run ≡ no_error
    out wakeup run (inl e, (s, f, h)) = rw (e, f) (settled_result s h)
    out wakeup run (inr e, (s, f, h)) = rw (e, f) (settled_result s h)
