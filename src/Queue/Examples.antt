-- ===== src/Queue/Examples.antt =====
-- The ingestion queue (backend/internal/clickhouse/queue.go) with concrete jobs.
use bomhort.Base.{
  ◌≢◌, ◌↔◌, ◌≢◌, ◌↔◌, ◌++◌, arith, ℕ, Text, codes, List, [], ◌∷◌, none, some, ◌≡◌, refl, Memᴰ, map,
  true, false, subst,
}
use bomhort.Queue.{
  enqueue_row, claim_row, processing, IngestionJob, Table, Latest, unset, enqueue_jobs, claim_jobs,
  stamp, scan_job, known_hashes, failed, is_due, latest_jobs, release_own_claims, select_jobs,
  own_claimed_jobs,
}
use bomhort.Queue.System.{
  System, Claiming, Reachable, initial, onward, Step, write_outcome, deferred, empty_system,
}
use bomhort.Queue.Table.{latest}
use bomhort.Queue.Write.{IsCurrent}
use bomhort.Queue.Exclusive.{held_unique}
use bomhort.Queue.Oldest.{claim_jobs-oldest}
use bomhort.Queue.Outcomes.{IsFinished, write_outcome-IsFinished, known_hashes_iff}

abbrev job : ℕ → ℕ → IngestionJob
job id created = record {
  created_at = created;
  job_id = id;
  source_file = codes "a.json";
  sha256_hash = codes "abc";
  status = unset;
  job_type = [];
  claimed_by = [];
  claimed_at = none;
  finished_at = none;
  error_message = [];
  cluster = [];
  namespace = [];
  project = [];
  source_repo = [];
  source_ref = [];
  target_sbom_id = [];
  tags = [];
  parent = [];
  retry_after = 0;
  version = 0;
}

abbrev worker : Text
worker = codes "w1"

abbrev two_jobs : Table
two_jobs = enqueue_jobs (job 1 5000 ∷ job 2 4000 ∷ []) []

abbrev claimed_rows : Table
claimed_rows = (claim_jobs 6000 6000 7000 worker 1 two_jobs).rows

-- The older job, as the worker gets it.
abbrev older : IngestionJob
older = record (job 2 4000) {
  status = processing;
  job_type = codes "sbom";
  claimed_by = worker;
  claimed_at = some 7000;
  version = 7000;
}

abbrev claim_older : Claiming
claim_older = record { worker = worker; jobs = older ∷ []; written = false }

abbrev enqueued : System
enqueued = record empty_system { rows = two_jobs }

abbrev selected : System
selected = record enqueued { section = some claim_older }

abbrev marked : System
marked = record enqueued {
  rows = claim_row worker older ∷ two_jobs;
  section = some (record claim_older { written = true });
}

abbrev claimed : System
claimed = record marked { held = (worker, older) ∷ []; section = none }

selected-is : map (stamp worker 7000) (select_jobs (is_due 7000) 1 two_jobs) ≡ older ∷ []
unfolding select_jobs bomhort.Queue.limit_to bomhort.Queue.oldest_first latest_jobs
    bomhort.Queue.write_all enqueue_jobs bomhort.Queue.group_row bomhort.Queue.insert_oldest
selected-is = refl

claimed-is : own_claimed_jobs worker (claim_row worker older ∷ two_jobs) (older ∷ []) ≡ older ∷ []
unfolding own_claimed_jobs bomhort.Queue.find_job latest_jobs bomhort.Queue.write_all enqueue_jobs
    bomhort.Queue.group_row bomhort.Base.◌==◌
claimed-is = refl

selected-Reachable : Reachable selected
selected-Reachable =
    subst (λ js. Reachable (record enqueued { section = some (record claim_older { jobs = js }) }))
      selected-is
      (onward (onward initial (Step.enqueue {s = empty_system} (job 1 5000 ∷ job 2 4000 ∷ [])))
        (Step.claim_select {s = enqueued} 7000 7000 worker 1 refl))

marked-Reachable : Reachable marked
unfolding bomhort.Queue.write_all
marked-Reachable =
    onward selected-Reachable (Step.claim_insert {s = selected} claim_older refl refl)

claimed-Reachable : Reachable claimed
claimed-Reachable =
    subst
      (λ js. Reachable (record marked { held = map (λ j. (worker, j)) js ++ []; section = none }))
      claimed-is
      (onward marked-Reachable
        (Step.claim_return {s = marked} (record claim_older { written = true }) refl refl))

held_unique_example : (worker ≡ worker) × (older ≡ older)
held_unique_example =
    held_unique claimed claimed-Reachable worker worker older older (Memᴰ.head refl)
      (Memᴰ.head refl) refl refl

claim_jobs-oldest_example :
    Memᴰ
      (stamp worker 7000
        (scan_job (record { newest = enqueue_row (job 2 4000); min_created = 4000 })))
      (claim_jobs 6000 6000 7000 worker 1 two_jobs).claimed
unfolding bomhort.Queue.find_job latest_jobs release_own_claims bomhort.Queue.write_all
    bomhort.Queue.select_jobs bomhort.Queue.limit_to bomhort.Queue.oldest_first enqueue_jobs
    bomhort.Queue.group_row
claim_jobs-oldest_example =
    claim_jobs-oldest 6000 6000 7000 worker 1 two_jobs 2
      (record { newest = enqueue_row (job 2 4000); min_created = 4000 }) refl refl (omega arith)

older-IsCurrent : IsCurrent claimed_rows older
unfolding bomhort.Queue.find_job latest_jobs claim_jobs bomhort.Queue.claim_due
    bomhort.Queue.write_all bomhort.Queue.select_jobs bomhort.Queue.limit_to
    bomhort.Queue.oldest_first release_own_claims enqueue_jobs bomhort.Queue.group_row
    bomhort.Queue.insert_oldest
older-IsCurrent = record {
  entry = record { newest = claim_row worker older; min_created = 4000 };
  found = refl;
  as_read = refl;
}

-- The server's clock has gone back: the version is the job's and a millisecond.
write_outcome-IsFinished_example :
    IsFinished
      (write_outcome (deferred 6500 9000 (codes "rate limit")) older claimed_rows)
      older
      (deferred 6500 9000 (codes "rate limit"))
write_outcome-IsFinished_example =
    write_outcome-IsFinished (deferred 6500 9000 (codes "rate limit")) older claimed_rows
      older-IsCurrent

known_hashes_iff_example : Memᴰ (codes "abc") (known_hashes two_jobs) ↔ (
    (id : ℕ) × (l : Latest) × (latest two_jobs id ≡ some l)
    × (l.newest.status ≢ failed)
    × (codes "abc" ≡ l.newest.sha256_hash))
known_hashes_iff_example = known_hashes_iff two_jobs (codes "abc")
