-- ===== src/ClaimLock/Examples.antt =====
-- Concrete critical sections (backend/internal/claimlock/lock.go).
use bomhort.Base.{false, true, ◌≡◌, ◌⊎◌, ◌↔◌, refl}
use bomhort.ClaimLock.{Section, no_error, lease_lost, with_lock, result_ready, election_over, ran}
use bomhort.ClaimLock.Settled.{with_lock-no_error, IsSettled}

abbrev quick : Section
quick = record { leader_ended = false; since_start = 3000; returned = no_error }

-- Paused in the middle: its result is discarded.
abbrev paused : Section
paused = record { leader_ended = false; since_start = 13000; returned = no_error }

abbrev deposed : Section
deposed = record { leader_ended = true; since_start = 3000; returned = no_error }

paused_lost : with_lock result_ready (ran paused) ≡ lease_lost
unfolding with_lock bomhort.ClaimLock.section_result
paused_lost = refl

deposed_lost : with_lock election_over (ran deposed) ≡ lease_lost
unfolding with_lock bomhort.ClaimLock.section_result
deposed_lost = refl

with_lock-no_error_example : (with_lock result_ready (ran quick) ≡ no_error) ↔ (
    ((result_ready ≡ result_ready) ⊎ (result_ready ≡ election_over))
    × ((s : Section) × (ran quick ≡ ran s) × IsSettled s))
with_lock-no_error_example = with_lock-no_error result_ready (ran quick)
