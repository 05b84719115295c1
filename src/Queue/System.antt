-- ===== src/Queue/System.antt =====
-- The workers and the queue (backend/internal/clickhouse/queue.go and the polling loop of
-- backend/cmd/parsing-worker/main.go). A step is one query or one insert; any steps of others may lie
-- between the queries and the inserts of one call, and a call that fails takes no further step. The
-- sections of `ClaimJobs` take turns, as they do in one process, and under the Kubernetes lock unless a
-- node is suspended in its section. Clocks are arbitrary: no step relies on the time of another.
use bomhort.Base.{true, false, some, none, ℕ, Text, List, [], ◌∷◌, ◌++◌, map, ◌≡◌, Bool, Option}
use bomhort.Queue.{
  IngestionJob, Table, enqueue_jobs, complete_job, fail_job, defer_job, select_jobs, sweep_limit,
  is_own_claim, is_stale, is_due, stamp, write_all, claim_row, own_claimed_jobs,
}

-- A claim under way: the jobs that a worker has selected and stamped, and whether it has marked them.
pub record Claiming : Type 0 where
  pub worker : Text
  pub jobs : List IngestionJob
  pub written : Bool

-- The table; the jobs in the hands of workers; the claim that has the lock; the jobs that sweeps have
-- selected and are yet to put back; and the inserts of claims that lost the lock, which may still arrive.
pub record System : Type 0 where
  pub rows : Table
  pub held : List (Text × IngestionJob)
  pub section : Option Claiming
  pub swept : List IngestionJob
  pub late : List Claiming

-- What a worker writes about a job at the end: done, failed with a message, or back to pending.
pub data Outcome : Type 0 where
  completed : ℕ → ℕ → Outcome
  broken : ℕ → ℕ → Text → Outcome
  deferred : ℕ → ℕ → Text → Outcome

unfoldable pub write_outcome : Outcome → IngestionJob → Table → Table
write_outcome (completed now finished) job rows = complete_job now finished job rows
write_outcome (broken now finished err_msg) job rows = fail_job now finished err_msg job rows
write_outcome (deferred now retry_after reason) job rows = defer_job now retry_after reason job rows

abbrev pub mark_claimed : Claiming → Table → Table
mark_claimed c rows = write_all (claim_row c.worker) c.jobs rows

pub data Step : System → System → Type 0 where
  -- Any jobs, also ones whose id is in the queue already.
  enqueue :
      {s : System} (jobs : List IngestionJob)
      → Step s (record s { rows = enqueue_jobs jobs s.rows })
  -- releaseOwnClaims and RequeueStaleJobs: the query, and the insert for one of its jobs. A job that a
  -- worker is still busy with may be among them. That the first call runs under the lock is left out,
  -- which only adds runs.
  sweep_own :
      {s : System} (worker_id : Text)
      → Step s
          (record s { swept = select_jobs (is_own_claim worker_id) sweep_limit s.rows ++ s.swept })
  sweep_stale :
      {s : System} (now older_than : ℕ)
      → Step s
          (record s { swept = select_jobs (is_stale now older_than) sweep_limit s.rows ++ s.swept })
  put_back :
      {s : System} (before after : List IngestionJob) (job : IngestionJob) (now retry_after : ℕ)
      (reason : Text)
      → s.swept ≡ before ++ job ∷ after
      → Step s
          (record s { rows = defer_job now retry_after reason job s.rows; swept = before ++ after })
  -- claimJobs: the query for pending jobs with the server's time, the insert, and the check of the owner.
  claim_select :
      {s : System} (now server_now : ℕ) (worker_id : Text) (limit : ℕ)
      → s.section ≡ none
      → Step s (record s {
        section = some (record {
          worker = worker_id;
          jobs = map (stamp worker_id server_now) (select_jobs (is_due now) limit s.rows);
          written = false;
        });
      })
  claim_insert :
      {s : System} (c : Claiming)
      → s.section ≡ some c
      → c.written ≡ false
      → Step s
          (record s { rows = mark_claimed c s.rows; section = some (record c { written = true }) })
  claim_return :
      {s : System} (c : Claiming)
      → s.section ≡ some c
      → c.written ≡ true
      → Step s (record s {
        held = map (λ j. (c.worker, j)) (own_claimed_jobs c.worker s.rows c.jobs) ++ s.held;
        section = none;
      })
  -- The claim failed or lost the lock. Its result is discarded; its insert may still arrive.
  claim_lost :
      {s : System} (c : Claiming)
      → s.section ≡ some c
      → Step s (record s { section = none; late = c ∷ s.late })
  late_insert :
      {s : System} (before after : List Claiming) (c : Claiming)
      → s.late ≡ before ++ c ∷ after
      → Step s (record s { rows = mark_claimed c s.rows; late = before ++ after })
  finish :
      {s : System} (before after : List (Text × IngestionJob)) (worker_id : Text)
      (job : IngestionJob) (o : Outcome)
      → s.held ≡ before ++ (worker_id, job) ∷ after
      → Step s (record s { rows = write_outcome o job s.rows; held = before ++ after })
  -- The worker died, or its status write failed.
  abandon :
      {s : System} (before after : List (Text × IngestionJob)) (worker_id : Text)
      (job : IngestionJob)
      → s.held ≡ before ++ (worker_id, job) ∷ after
      → Step s (record s { held = before ++ after })

abbrev pub empty_system : System
empty_system = record { rows = []; held = []; section = none; swept = []; late = [] }

-- The systems that arise from an empty queue.
pub data Reachable : System → Type 0 where
  initial : Reachable empty_system
  onward : {s t : System} → Reachable s → Step s t → Reachable t
