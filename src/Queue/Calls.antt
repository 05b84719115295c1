-- ===== src/Queue/Calls.antt =====
-- The calls of backend/internal/clickhouse/queue.go that nothing interrupts, and the steps of the
-- system.
use bomhort.Base.{ℕ, Text, List, [], ◌∷◌, ◌++◌, refl}
use bomhort.Queue.{
  IngestionJob, defer_all, defer_job, select_jobs, is_stale, sweep_limit, requeue_stale_jobs,
  write_all,
}
use bomhort.Queue.System.{System, Step, Reachable, onward}

-- A sweep puts its jobs back one after the other.
put_back_all :
    (s : System) (now retry_after : ℕ) (reason : Text) (jobs rest : List IngestionJob)
    → Reachable (record s { swept = jobs ++ rest })
    → Reachable (record s { rows = defer_all now retry_after reason jobs s.rows; swept = rest })
unfolding write_all defer_job
put_back_all s now retry_after reason [] rest r = r
put_back_all s now retry_after reason (j ∷ jobs) rest r =
    put_back_all (record s { rows = defer_job now retry_after reason j s.rows }) now retry_after
      reason jobs rest
      (onward r (
        Step.put_back {s = record s { swept = j ∷ jobs ++ rest }} [] (jobs ++ rest) j now
          retry_after reason refl))

-- A whole sweep for stale claims is a run of steps.
requeue_stale_jobs-Reachable :
    (s : System) (now retry_after older_than : ℕ) (reason : Text)
    → Reachable s
    → Reachable (record s { rows = requeue_stale_jobs now retry_after older_than reason s.rows })
unfolding requeue_stale_jobs
requeue_stale_jobs-Reachable s now retry_after older_than reason r =
    put_back_all s now retry_after reason (select_jobs (is_stale now older_than) sweep_limit s.rows)
      s.swept (onward r (Step.sweep_stale {s = s} now older_than))
