-- ===== src/Queue.antt =====
-- The ingestion queue (backend/internal/clickhouse/queue.go and backend/pkg/models/sbom.go). The table
-- only ever grows: a job's state is its newest row. A UUID is a number, and a time counts milliseconds
-- from the epoch, with 0 for Go's zero time. The newest rows stand first: of a job's rows
-- with one `created_at` the one written last counts, which ClickHouse leaves open.
-- What ClickHouse computes for the queries' text is written out: `argMax` takes a job's values from its
-- row with the greatest `created_at`. Calls that fail before they write leave the table as it is.
pub mod Table
pub mod Select
pub mod Write
pub mod Claim
pub mod System
pub mod Calls
pub mod Exclusive
pub mod Oldest
pub mod Outcomes
pub mod Examples
use Prim.Native.Nat.{◌/◌}
use bomhort.Base.{
  ℕ, zero, suc, ◌+◌, max, min, Text, Bool, true, false, ◌&&◌, not, Option, some, none, List, [],
  ◌∷◌, ◌++◌, codes, ◌==◌, is_empty, eqb, ltb, leb, length, keep, map, if◌then◌else◌,
}

-- `unset` stands for the empty string of a job that no query has filled in.
pub data JobStatus : Type 0 where
  unset pending processing done failed : JobStatus

abbrev pub status_eq : JobStatus → JobStatus → Bool
status_eq unset unset = true
status_eq pending pending = true
status_eq processing processing = true
status_eq done done = true
status_eq failed failed = true
status_eq _ _ = false

abbrev pub job_type_sbom : Text
job_type_sbom = codes "sbom"

pub record IngestionJob : Type 0 where
  pub created_at : ℕ
  pub job_id : ℕ
  pub source_file : Text
  pub sha256_hash : Text
  pub status : JobStatus
  pub job_type : Text
  pub claimed_by : Text
  pub claimed_at : Option ℕ
  pub finished_at : Option ℕ
  pub error_message : Text
  pub cluster : Text
  pub namespace : Text
  pub project : Text
  pub source_repo : Text
  pub source_ref : Text
  pub target_sbom_id : Text
  pub tags : List Text
  pub parent : Text
  pub retry_after : ℕ
  pub version : ℕ

-- the columns of ingestion_queue
pub record Row : Type 0 where
  pub created_at : ℕ
  pub job_id : ℕ
  pub source_file : Text
  pub sha256_hash : Text
  pub status : JobStatus
  pub job_type : Text
  pub claimed_by : Text
  pub claimed_at : Option ℕ
  pub finished_at : Option ℕ
  pub error_message : Text
  pub cluster : Text
  pub namespace : Text
  pub project : Text
  pub source_repo : Text
  pub source_ref : Text
  pub target_sbom_id : Text
  pub tags : List Text
  pub parent : Text
  pub retry_after : ℕ

abbrev pub Table : Type 0
Table = List Row

-- A job's row with the values that differ between the writers.
abbrev pub row_of :
    IngestionJob → ℕ → JobStatus → Text → Text → Option ℕ → Option ℕ → Text → ℕ → Row
row_of job version status job_type claimed_by claimed_at finished_at error_message retry_after =
    record {
      created_at = version;
      job_id = job.job_id;
      source_file = job.source_file;
      sha256_hash = job.sha256_hash;
      status = status;
      job_type = job_type;
      claimed_by = claimed_by;
      claimed_at = claimed_at;
      finished_at = finished_at;
      error_message = error_message;
      cluster = job.cluster;
      namespace = job.namespace;
      project = job.project;
      source_repo = job.source_repo;
      source_ref = job.source_ref;
      target_sbom_id = job.target_sbom_id;
      tags = job.tags;
      parent = job.parent;
      retry_after = retry_after;
    }

abbrev pub enqueue_row : IngestionJob → Row
enqueue_row job =
    row_of job job.created_at pending
      (if is_empty job.job_type then job_type_sbom else job.job_type) [] none none []
      job.retry_after

-- One row for each job.
unfoldable pub write_all : (IngestionJob → Row) → List IngestionJob → Table → Table
write_all f [] rows = rows
write_all f (j ∷ js) rows = write_all f js (f j ∷ rows)

unfoldable pub enqueue_jobs : List IngestionJob → Table → Table
enqueue_jobs jobs rows = write_all enqueue_row jobs rows

-- One row of the query that reduces the table to a job's latest values.
pub record Latest : Type 0 where
  pub newest : Row
  pub min_created : ℕ

abbrev pub merge_row : Row → Latest → Latest
merge_row r l = record {
  newest = if leb l.newest.created_at r.created_at then r else l.newest;
  min_created = min l.min_created r.created_at;
}

unfoldable pub group_row : Row → List Latest → List Latest
group_row r [] = record { newest = r; min_created = r.created_at } ∷ []
group_row r (l ∷ ls) =
    if eqb l.newest.job_id r.job_id then merge_row r l ∷ ls else l ∷ group_row r ls

unfoldable pub latest_jobs : Table → List Latest
latest_jobs [] = []
latest_jobs (r ∷ rows) = group_row r (latest_jobs rows)

-- The columns that the query for jobs selects; the others keep the zero value.
abbrev pub scan_job : Latest → IngestionJob
scan_job l = record {
  created_at = l.min_created;
  job_id = l.newest.job_id;
  source_file = l.newest.source_file;
  sha256_hash = l.newest.sha256_hash;
  status = unset;
  job_type = l.newest.job_type;
  claimed_by = [];
  claimed_at = none;
  finished_at = none;
  error_message = [];
  cluster = l.newest.cluster;
  namespace = l.newest.namespace;
  project = l.newest.project;
  source_repo = l.newest.source_repo;
  source_ref = l.newest.source_ref;
  target_sbom_id = l.newest.target_sbom_id;
  tags = l.newest.tags;
  parent = l.newest.parent;
  retry_after = 0;
  version = l.newest.created_at;
}

-- ORDER BY min_created ASC
unfoldable pub insert_oldest : IngestionJob → List IngestionJob → List IngestionJob
insert_oldest j [] = j ∷ []
insert_oldest j (k ∷ ks) =
    if leb j.created_at k.created_at then j ∷ k ∷ ks else k ∷ insert_oldest j ks

unfoldable pub oldest_first : List IngestionJob → List IngestionJob
oldest_first [] = []
oldest_first (j ∷ js) = insert_oldest j (oldest_first js)

-- LIMIT
unfoldable pub limit_to : ℕ → List IngestionJob → List IngestionJob
limit_to zero js = []
limit_to (suc n) [] = []
limit_to (suc n) (j ∷ js) = j ∷ limit_to n js

unfoldable pub select_jobs : (Row → Bool) → ℕ → Table → List IngestionJob
select_jobs where_ limit rows =
    limit_to limit (oldest_first (map scan_job (keep (λ l. where_ l.newest) (latest_jobs rows))))

-- The version of a new status row, from the server's clock and the job's version.
abbrev pub next_version : ℕ → ℕ → ℕ
next_version now version = max now (version + 1)

abbrev pub complete_row : ℕ → ℕ → IngestionJob → Row
complete_row now finished job =
    row_of job (next_version now job.version) done job.job_type job.claimed_by job.claimed_at
      (some finished) [] 0

unfoldable pub complete_job : ℕ → ℕ → IngestionJob → Table → Table
complete_job now finished job rows = complete_row now finished job ∷ rows

abbrev pub fail_row : ℕ → ℕ → Text → IngestionJob → Row
fail_row now finished err_msg job =
    row_of job (next_version now job.version) failed job.job_type job.claimed_by job.claimed_at
      (some finished) err_msg 0

unfoldable pub fail_job : ℕ → ℕ → Text → IngestionJob → Table → Table
fail_job now finished err_msg job rows = fail_row now finished err_msg job ∷ rows

abbrev pub defer_row : ℕ → ℕ → Text → IngestionJob → Row
defer_row now retry_after reason job =
    row_of job (next_version now job.version) pending job.job_type [] none none reason retry_after

unfoldable pub defer_job : ℕ → ℕ → Text → IngestionJob → Table → Table
defer_job now retry_after reason job rows = defer_row now retry_after reason job ∷ rows

-- `DeferJob` for each job.
abbrev pub defer_all : ℕ → ℕ → Text → List IngestionJob → Table → Table
defer_all now retry_after reason jobs rows = write_all (defer_row now retry_after reason) jobs rows

-- latest_status = 'pending' AND retry_after <= now(), where both columns count seconds
abbrev pub is_due : ℕ → Row → Bool
is_due now r = status_eq r.status pending && leb (r.retry_after / 1000) (now / 1000)

abbrev pub is_own_claim : Text → Row → Bool
is_own_claim worker_id r = status_eq r.status processing && r.claimed_by == worker_id

abbrev pub claimed_before : ℕ → ℕ → Option ℕ → Bool
claimed_before now older_than none = false
claimed_before now older_than (some t) = ltb (t / 1000 + older_than) (now / 1000)

-- latest_status = 'processing' AND claimed_at < now() - INTERVAL older_than SECOND
abbrev pub is_stale : ℕ → ℕ → Row → Bool
is_stale now older_than r =
    status_eq r.status processing && claimed_before now older_than r.claimed_at

abbrev pub sweep_limit : ℕ
sweep_limit = 10000

abbrev pub claim_abandoned : Text
claim_abandoned = codes "requeued: claim abandoned by "

unfoldable pub release_own_claims : ℕ → ℕ → Text → Table → Table
release_own_claims now retry_after worker_id rows =
    defer_all now retry_after (claim_abandoned ++ worker_id)
      (select_jobs (is_own_claim worker_id) sweep_limit rows) rows

-- The version is the server's time or the job's version plus a millisecond, whichever is later.
abbrev pub stamp : Text → ℕ → IngestionJob → IngestionJob
stamp worker_id server_now job =
    let version = if ltb server_now (job.version + 1) then job.version + 1 else server_now in
    record job {
      version = version;
      status = processing;
      claimed_by = worker_id;
      claimed_at = some version;
    }

abbrev pub claim_row : Text → IngestionJob → Row
claim_row worker_id job =
    row_of job job.version processing job.job_type worker_id job.claimed_at none [] 0

unfoldable pub find_job : ℕ → List Latest → Option Latest
find_job id [] = none
find_job id (l ∷ ls) = if eqb l.newest.job_id id then some l else find_job id ls

abbrev pub is_own : Text → Option Latest → Bool
is_own worker_id none = false
is_own worker_id (some l) = is_own_claim worker_id l.newest

unfoldable pub own_claimed_jobs : Text → Table → List IngestionJob → List IngestionJob
own_claimed_jobs worker_id rows jobs =
    keep (λ j. is_own worker_id (find_job j.job_id (latest_jobs rows))) jobs

pub record ClaimResult : Type 0 where
  pub claimed : List IngestionJob
  pub rows : Table

-- Without a due job nothing is written; writing the empty batch says the same.
unfoldable pub claim_due : ℕ → Text → ℕ → Table → ClaimResult
claim_due server_now worker_id limit rows =
    let jobs = map (stamp worker_id server_now) (select_jobs (is_due server_now) limit rows) in
    let written = write_all (claim_row worker_id) jobs rows in
    record { claimed = own_claimed_jobs worker_id written jobs; rows = written }

-- The critical section under the claim lock.
unfoldable pub claim_jobs : ℕ → ℕ → ℕ → Text → ℕ → Table → ClaimResult
claim_jobs now retry_after server_now worker_id limit rows =
    claim_due server_now worker_id limit (release_own_claims now retry_after worker_id rows)

unfoldable pub requeue_stale_jobs : ℕ → ℕ → ℕ → Text → Table → Table
requeue_stale_jobs now retry_after older_than reason rows =
    defer_all now retry_after reason (select_jobs (is_stale now older_than) sweep_limit rows) rows

-- the number of jobs that it puts back
unfoldable pub requeued : ℕ → ℕ → Table → ℕ
requeued now older_than rows = length (select_jobs (is_stale now older_than) sweep_limit rows)

-- The hashes may repeat: the query and the map drop what they hold already.
unfoldable pub known_hashes : Table → List Text
known_hashes rows =
    map (λ l. l.newest.sha256_hash)
      (keep (λ l. not (status_eq l.newest.status failed)) (latest_jobs rows))
