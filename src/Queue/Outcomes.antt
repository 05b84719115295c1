-- ===== src/Queue/Outcomes.antt =====
-- The status writes and `KnownHashes` of backend/internal/clickhouse/queue.go.
use bomhort.Queue.Claim.{some_inj}
use bomhort.Base.{
  ap, ◌≢◌, ◌∙◌, ◌≢◌, ◌∙◌, ◌↔◌, ◌↔◌, sym, Memᴰ, refl, ℕ, ◌<◌, some, Text, ◌∷◌, ◌≡◌, arith, keep,
  true, false, keep-Memᴰ, map-Memᴰ, Memᴰ-keep, Memᴰ-map, not,
}
use bomhort.Queue.{
  status_eq, defer_row, fail_row, complete_row, Row, Table, Latest, IngestionJob, JobStatus, unset,
  processing, done, failed, pending, latest_jobs, complete_job, fail_job, defer_job, known_hashes,
  next_version,
}
use bomhort.Queue.Table.{latest, latest-some, latest-write, latest-Memᴰ}
use bomhort.Queue.Write.{IsCurrent}
use bomhort.Queue.System.{Outcome, completed, broken, deferred, write_outcome}

-- The status that an outcome stands for, and the time before which the job is not claimed again.
abbrev pub status_of : Outcome → JobStatus
status_of (completed now finished) = done
status_of (broken now finished err_msg) = failed
status_of (deferred now retry_after reason) = pending

abbrev pub retry_of : Outcome → ℕ
retry_of (completed now finished) = 0
retry_of (broken now finished err_msg) = 0
retry_of (deferred now retry_after reason) = retry_after

-- The newest row of the job after a write, and what it passes on.
pub record IsFinished (rows : Table) (job : IngestionJob) (o : Outcome) : Type 0 where
  pub entry : Latest
  pub found : latest rows job.job_id ≡ some entry
  pub with_status : entry.newest.status ≡ status_of o
  pub retried : entry.newest.retry_after ≡ retry_of o
  pub later : job.version < entry.newest.created_at
  pub same_hash : entry.newest.sha256_hash ≡ job.sha256_hash
  pub same_file : entry.newest.source_file ≡ job.source_file

written-IsFinished :
    (r : Row) (rows : Table) (job : IngestionJob) (o : Outcome)
    → IsCurrent rows job
    → r.job_id ≡ job.job_id
    → job.version < r.created_at
    → r.status ≡ status_of o
    → r.retry_after ≡ retry_of o
    → r.sha256_hash ≡ job.sha256_hash
    → r.source_file ≡ job.source_file
    → IsFinished (r ∷ rows) job o
written-IsFinished r rows job o c same lt st re hash file =
    let (l, found, is_new) = latest-write r rows (λ k e.
      let one = some_inj k c.entry (sym e ∙ ap (latest rows) same ∙ c.found) in
      omega (arith, c.as_read, ap (λ (x : Latest). x.newest.created_at) one)) in
    record {
      entry = l;
      found = ap (latest (r ∷ rows)) (sym same) ∙ found;
      with_status = ap (λ (x : Row). x.status) is_new ∙ st;
      retried = ap (λ (x : Row). x.retry_after) is_new ∙ re;
      later = rw is_new lt;
      same_hash = ap (λ (x : Row). x.sha256_hash) is_new ∙ hash;
      same_file = ap (λ (x : Row). x.source_file) is_new ∙ file;
    }

next_version-lt : (now version : ℕ) → version < next_version now version
next_version-lt now version = omega arith

-- A worker whose copy of a job is current settles it, whatever the server's clock says: the newest row then has
-- the status of the outcome (done, failed or pending), a later version, the given retry time for a deferred
-- job and none otherwise, and the job's file and hash.
pub write_outcome-IsFinished :
    (o : Outcome) (job : IngestionJob) (rows : Table)
    → IsCurrent rows job
    → IsFinished (write_outcome o job rows) job o
unfolding write_outcome complete_job fail_job defer_job
write_outcome-IsFinished (completed now finished) job rows c =
    written-IsFinished (complete_row now finished job) rows job (completed now finished) c refl
      (next_version-lt now job.version) refl refl refl refl
write_outcome-IsFinished (broken now finished err_msg) job rows c =
    written-IsFinished (fail_row now finished err_msg job) rows job (broken now finished err_msg) c
      refl (next_version-lt now job.version) refl refl refl refl
write_outcome-IsFinished (deferred now retry_after reason) job rows c =
    written-IsFinished (defer_row now retry_after reason job) rows job
      (deferred now retry_after reason) c refl (next_version-lt now job.version) refl refl refl refl

-- A hash is known exactly if some job with that hash has a newest status other than failed.
pub known_hashes_iff :
    (rows : Table) (hash : Text)
    → Memᴰ hash (known_hashes rows) ↔ (
        (id : ℕ) × (l : Latest) × (latest rows id ≡ some l)
        × (l.newest.status ≢ failed)
        × (hash ≡ l.newest.sha256_hash))
unfolding known_hashes
known_hashes_iff rows hash = (
  λ m.
      let (l, q, e) =
        Memᴰ-map (λ (l : Latest). l.newest.sha256_hash) hash
          (keep (λ (l : Latest). not (status_eq l.newest.status failed)) (latest_jobs rows)) m in
      let (r, passes) =
        Memᴰ-keep (λ (l : Latest). not (status_eq l.newest.status failed)) l (latest_jobs rows) q in
      (l.newest.job_id, l, latest-Memᴰ rows l r, not_failed l.newest.status passes, e),
  λ (id, l, e, other, same). rw same (
      map-Memᴰ (λ (l : Latest). l.newest.sha256_hash) l
        (keep (λ (l : Latest). not (status_eq l.newest.status failed)) (latest_jobs rows))
        (keep-Memᴰ (λ (l : Latest). not (status_eq l.newest.status failed)) l (latest_jobs rows)
          (latest-some rows id l e).0 (passes l.newest.status other))),
)
  where
    not_failed : (s : JobStatus) → not (status_eq s failed) ≡ true → s ≢ failed
    not_failed s h e = let clash : false ≡ true = rw e at h in cc

    passes : (s : JobStatus) → s ≢ failed → not (status_eq s failed) ≡ true
    passes unset h = refl
    passes pending h = refl
    passes processing h = refl
    passes done h = refl
    passes failed h = absurd (h refl)
