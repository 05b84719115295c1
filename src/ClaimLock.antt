-- ===== src/ClaimLock.antt =====
-- The lock around claims (backend/internal/claimlock/lock.go). Times are milliseconds. The election of a
-- leader is a library's: what it does shows in whether the leader's context had ended.
pub mod Settled
pub mod Examples
use Prim.Native.Nat.{◌/◌}
use bomhort.Base.{ℕ, ◌*◌, Text, Bool, true, false, ◌||◌, is_empty, leb, if◌then◌else◌}

abbrev pub lease_duration : ℕ
lease_duration = 15 * 1000

abbrev pub renew_deadline : ℕ
renew_deadline = 10 * 1000

abbrev pub retry_period : ℕ
retry_period = 2 * 1000

abbrev pub max_hold : ℕ
max_hold = renew_deadline / 2

-- How a call ends: without an error, with the error of the function, with the lease lost, with the caller's
-- context cancelled, or without the lock.
pub data LockResult : Type 0 where
  no_error lease_lost cancelled not_acquired : LockResult
  failed : Text → LockResult

-- Which locker is made, by POD_NAMESPACE and KUBERNETES_SERVICE_HOST.
pub data LockerKind : Type 0 where
  local_locker kubernetes_locker namespace_required : LockerKind

unfoldable pub new_locker : Text → Text → LockerKind
new_locker pod_namespace service_host =
    if is_empty pod_namespace
    then (if is_empty service_host then local_locker else namespace_required)
    else kubernetes_locker

-- One run of the function under the lease: whether the leader's context had ended when it returned, the
-- time since the start of the call by the worker's own monotonic clock, which stops while its node is
-- suspended, and what the function returned.
pub record Section : Type 0 where
  pub leader_ended : Bool
  pub since_start : ℕ
  pub returned : LockResult

-- OnStartedLeading
unfoldable pub section_result : Section → LockResult
section_result s = if s.leader_ended || leb max_hold s.since_start then lease_lost else s.returned

-- What the call wakes up on: the result of the function, the end of its context, or the end of the
-- election; in the last two cases it may not have seen that the function was started.
pub data Wakeup : Type 0 where
  result_ready context_done context_done_unseen election_over election_over_unseen : Wakeup

-- Whether the function ran at all.
pub data Run : Type 0 where
  never_ran : Run
  ran : Section → Run

abbrev pub or_cancelled : LockResult → LockResult
or_cancelled no_error = cancelled
or_cancelled lease_lost = lease_lost
or_cancelled cancelled = cancelled
or_cancelled not_acquired = not_acquired
or_cancelled (failed e) = failed e

-- A result that is ready is that of a function that ran.
unfoldable pub with_lock : Wakeup → Run → LockResult
with_lock result_ready (ran s) = section_result s
with_lock result_ready never_ran = not_acquired
with_lock context_done_unseen run = cancelled
with_lock election_over_unseen run = not_acquired
with_lock context_done (ran s) = or_cancelled (section_result s)
with_lock context_done never_ran = cancelled
with_lock election_over (ran s) = section_result s
with_lock election_over never_ran = not_acquired
