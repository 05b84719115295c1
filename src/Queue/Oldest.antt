-- ===== src/Queue/Oldest.antt =====
-- The order in which jobs are claimed (backend/internal/clickhouse/queue.go).
use mathlib.Core.List.Memᴰ
use bomhort.Base.{
  leb→le, inr, ap, inl, ◌∙◌, ◌∙◌, Memᴰ, Bool-cases, refl, ℕ, ◌≤◌, zero, suc, some, Text, List, [],
  ◌∷◌, ◌≡◌, arith, map, keep, length, leb, true, keep-Memᴰ, map-Memᴰ,
}
use bomhort.Queue.{
  Table, Latest, IngestionJob, is_due, claim_jobs, release_own_claims, insert_oldest, oldest_first,
  limit_to, scan_job, select_jobs, latest_jobs, stamp,
}
use bomhort.Queue.Table.{latest, latest-some}
use bomhort.Queue.Select.{Memᴰ-insert_oldest, Memᴰ-oldest_first}
use bomhort.Queue.Claim.{claim_due-claimed}

data IsOldestFirst : List IngestionJob → Type 0 where
  nil : IsOldestFirst []
  cons :
      {j : IngestionJob} {js : List IngestionJob}
      → ((k : IngestionJob) → Memᴰ k js → j.created_at ≤ k.created_at)
      → IsOldestFirst js
      → IsOldestFirst (j ∷ js)

insert_oldest-IsOldestFirst :
    (j : IngestionJob) (js : List IngestionJob)
    → IsOldestFirst js
    → IsOldestFirst (insert_oldest j js)
unfolding insert_oldest
insert_oldest-IsOldestFirst j [] h = cons (λ k m. absurd (Memᴰ.not-nil m)) nil
insert_oldest-IsOldestFirst j (k ∷ ks) (cons least h) =
    elim (Bool-cases (leb j.created_at k.created_at)) [
      | inl e ↦
          let le = leb→le j.created_at k.created_at e in
          let kept : IsOldestFirst (j ∷ k ∷ ks) =
            cons {j = j} {js = k ∷ ks}
              (λ i m. elim (Memᴰ.cases_cons m) [
                | inl s ↦ rw s le
                | inr t ↦ omega (arith, least i t)
              ])
              (cons least h) in
          rw e kept
      | inr e ↦
          let kept : IsOldestFirst (k ∷ insert_oldest j ks) =
            cons {j = k}
              (λ i m. elim ((Memᴰ-insert_oldest i j ks).0 m) [
                | inl s ↦ rw s (ground arith)
                | inr t ↦ least i t
              ])
              (insert_oldest-IsOldestFirst j ks h) in
          rw e kept
    ]

oldest_first-IsOldestFirst : (js : List IngestionJob) → IsOldestFirst (oldest_first js)
unfolding oldest_first
oldest_first-IsOldestFirst [] = nil
oldest_first-IsOldestFirst (j ∷ js) =
    insert_oldest-IsOldestFirst j (oldest_first js) (oldest_first-IsOldestFirst js)

-- how many of the jobs were created by then
abbrev pub created_by : ℕ → List IngestionJob → ℕ
created_by t js = length (keep (λ j. leb j.created_at t) js)

created_by-insert_oldest :
    (t : ℕ) (j : IngestionJob) (js : List IngestionJob)
    → created_by t (insert_oldest j js) ≡ created_by t (j ∷ js)
unfolding insert_oldest
created_by-insert_oldest t j [] = refl
created_by-insert_oldest t j (k ∷ ks) =
    let rest = created_by-insert_oldest t j ks in
    elim (Bool-cases (leb j.created_at k.created_at)) [
      | inl e ↦ rw e refl
      | inr e ↦ rw e (ground arith)
    ]

created_by-oldest_first :
    (t : ℕ) (js : List IngestionJob) → created_by t (oldest_first js) ≡ created_by t js
unfolding oldest_first
created_by-oldest_first t [] = refl
created_by-oldest_first t (j ∷ js) =
    let rest = created_by-oldest_first t js in
    created_by-insert_oldest t j (oldest_first js) ∙ ground arith

limit_to-early :
    (n : ℕ) (j : IngestionJob) (js : List IngestionJob)
    → IsOldestFirst js
    → Memᴰ j js
    → created_by j.created_at js ≤ n
    → Memᴰ j (limit_to n js)
unfolding limit_to
limit_to-early n j [] h m le = absurd (Memᴰ.not-nil m)
limit_to-early zero j (k ∷ ks) (cons least h) m le = elim (Memᴰ.cases_cons m) [
  | inl s ↦ absurd (ground (arith, ap (λ (x : IngestionJob). x.created_at) s))
  | inr t ↦ absurd (ground (arith, least j t))
]
limit_to-early (suc n) j (k ∷ ks) (cons least h) m le = elim (Memᴰ.cases_cons m) [
  | inl s ↦ Memᴰ.head s
  | inr t ↦ Memᴰ.tail (limit_to-early n j ks h t (ground (arith, least j t)))
]

abbrev due_jobs : ℕ → Table → List IngestionJob
due_jobs server_now rows =
    map scan_job (keep (λ (l : Latest). is_due server_now l.newest) (latest_jobs rows))

select_due :
    (server_now limit : ℕ) (rows : Table) (id : ℕ) (l : Latest)
    → latest rows id ≡ some l
    → is_due server_now l.newest ≡ true
    → created_by l.min_created (due_jobs server_now rows) ≤ limit
    → Memᴰ (scan_job l) (select_jobs (is_due server_now) limit rows)
unfolding select_jobs
select_due server_now limit rows id l e h le =
    let due = due_jobs server_now rows in
    let here =
      map-Memᴰ scan_job l (keep (λ (k : Latest). is_due server_now k.newest) (latest_jobs rows)) (
        keep-Memᴰ (λ (k : Latest). is_due server_now k.newest) l (latest_jobs rows)
          (latest-some rows id l e).0 h) in
    limit_to-early limit (scan_job l) (oldest_first due) (oldest_first-IsOldestFirst due)
      ((Memᴰ-oldest_first (scan_job l) due).1 here)
      (rw (created_by-oldest_first l.min_created due) le)

-- A job that is due, once the worker's own abandoned claims are released, is handed out if no more than
-- `limit` of the due jobs were created by then.
pub claim_jobs-oldest :
    (now retry_after server_now : ℕ) (worker_id : Text) (limit : ℕ) (rows : Table) (id : ℕ)
    (l : Latest)
    → latest (release_own_claims now retry_after worker_id rows) id ≡ some l
    → is_due server_now l.newest ≡ true
    → created_by l.min_created
        (due_jobs server_now (release_own_claims now retry_after worker_id rows))
      ≤ limit
    → Memᴰ
        (stamp worker_id server_now (scan_job l))
        (claim_jobs now retry_after server_now worker_id limit rows).claimed
unfolding claim_jobs
claim_jobs-oldest now retry_after server_now worker_id limit rows id l e h le =
    let released = release_own_claims now retry_after worker_id rows in
    let selected = select_due server_now limit released id l e h le in
    rw (claim_due-claimed server_now worker_id limit released) (
      map-Memᴰ (stamp worker_id server_now) (scan_job l)
        (select_jobs (is_due server_now) limit released) selected)
