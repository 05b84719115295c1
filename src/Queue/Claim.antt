-- ===== src/Queue/Claim.antt =====
-- `ClaimJobs` and the sweeps of backend/internal/clickhouse/queue.go.
use bomhort.Base.{
  refl, ==_iff, ◌∙◌, ◌∙◌, keep-take, sym, ap, Memᴰ, ℕ, ◌<◌, some, Text, List, [], ◌∷◌, ◌≡◌, arith,
  Distinct, Memᴰ-map, map, true, keep, Bool,
}
use bomhort.Queue.{
  Row, Table, Latest, IngestionJob, write_all, select_jobs, is_due, is_own, stamp, claim_row,
  claim_due, own_claimed_jobs, scan_job,
}
use bomhort.Queue.Table.{latest}
use bomhort.Queue.Select.{job_ids, select_jobs-Memᴰ, select_jobs-Distinct}
use bomhort.Queue.Write.{write_all-latest, IsNewer}

pub some_inj : (k l : Latest) → some k ≡ some l → k ≡ l
some_inj k l h = cc

module _ (p : Row → Bool) (server_now : ℕ) (worker_id : Text) (limit : ℕ) (rows : Table) where
  abbrev due : List IngestionJob
  due = select_jobs p limit rows

  abbrev pub stamped : List IngestionJob
  stamped = map (stamp worker_id server_now) due

  job_ids-stamped :
      (js : List IngestionJob) → job_ids (map (stamp worker_id server_now) js) ≡ job_ids js
  job_ids-stamped [] = refl
  job_ids-stamped (j ∷ js) = ap (λ is. j.job_id ∷ is) (job_ids-stamped js)

  stamp-lt : (j : IngestionJob) → j.version < (stamp worker_id server_now j).version
  stamp-lt j = ground arith

  pub stamped-Distinct : Distinct (job_ids stamped)
  stamped-Distinct = rw (job_ids-stamped due) (select_jobs-Distinct p limit rows)

  -- Before the claim a stamped job passed the test, and its version is newer than its row.
  pub stamped-was :
      (j : IngestionJob)
      → Memᴰ j stamped
      → (l : Latest) × (latest rows j.job_id ≡ some l)
        × (p l.newest ≡ true)
        × (l.newest.created_at < j.version)
  stamped-was j m =
      let (k, q, same) = Memᴰ-map (stamp worker_id server_now) j due m in
      let (l, e, passes, read) = select_jobs-Memᴰ p limit rows k q in
      (l, ap (λ (x : IngestionJob). latest rows x.job_id) same ∙ e, passes, older k l same read)
    where
      older :
          (k : IngestionJob) (l : Latest)
          → j ≡ stamp worker_id server_now k
          → k ≡ scan_job l
          → l.newest.created_at < j.version
      older k l same read = rw same (rw read (stamp-lt (scan_job l)))

  stamped-IsNewer : IsNewer (claim_row worker_id) (λ j. refl) stamped rows
  stamped-IsNewer j m l h =
      let (k, e, passes, lt) = stamped-was j m in
      let one = some_inj k l (sym e ∙ h) in
      omega (arith, ap (λ (x : Latest). x.newest.created_at) one)

  -- After the claim the newest row of a stamped job is its claim.
  pub stamped-is :
      (j : IngestionJob)
      → Memᴰ j stamped
      → (l : Latest) × (latest (write_all (claim_row worker_id) stamped rows) j.job_id ≡ some l)
        × (l.newest ≡ claim_row worker_id j)
  stamped-is j m =
      write_all-latest (claim_row worker_id) (λ j. refl) stamped rows stamped-Distinct
        stamped-IsNewer j m

keep_all :
    (p : IngestionJob → Bool) (js : List IngestionJob)
    → ((j : IngestionJob) → Memᴰ j js → p j ≡ true)
    → keep p js ≡ js
keep_all p [] h = refl
keep_all p (j ∷ js) h =
    keep-take p j js (h j (Memᴰ.head refl))
    ∙ ap (λ ks. j ∷ ks) (keep_all p js (λ k m. h k (Memᴰ.tail m)))

-- The ownership check confirms every claim.
pub claim_due-claimed :
    (server_now : ℕ) (worker_id : Text) (limit : ℕ) (rows : Table)
    → (claim_due server_now worker_id limit rows).claimed
      ≡ stamped (is_due server_now) server_now worker_id limit rows
unfolding claim_due own_claimed_jobs
claim_due-claimed server_now worker_id limit rows =
    let jobs = stamped (is_due server_now) server_now worker_id limit rows in
    let written = write_all (claim_row worker_id) jobs rows in
    keep_all (λ j. is_own worker_id (latest written j.job_id)) jobs
      (λ j m.
        let (l, e, s) = stamped-is (is_due server_now) server_now worker_id limit rows j m in
        rw e (rw s ((==_iff worker_id worker_id).1 refl)))
