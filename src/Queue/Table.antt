-- ===== src/Queue/Table.antt =====
-- What a new row changes in the queue (backend/internal/clickhouse/queue.go), and a job's newest row.
use mathlib.Core.List.Memᴰ
use bomhort.Base.{
  if◌then◌else◌, inr, ◌⊎◌, ◌∙◌, ap, true, sym, false, ◌≢◌, leb, inl, Memᴰ, ℕ, ◌≤◌, Option, some,
  none, List, [], ◌∷◌, map, eqb, ◌≡◌, refl, arith, Distinct, Bool-cases, map-Memᴰ, Distinct-head,
  Distinct-tail, nil, cons,
}
use bomhort.Queue.{Row, Table, Latest, group_row, merge_row, find_job, latest_jobs}

abbrev pub latest : Table → ℕ → Option Latest
latest rows id = find_job id (latest_jobs rows)

abbrev newer : Row → Option Latest → Latest
newer r none = record { newest = r; min_created = r.created_at }
newer r (some l) = merge_row r l

abbrev pub ids : List Latest → List ℕ
ids ls = map (λ l. l.newest.job_id) ls

merge_row-job_id :
    (r : Row) (l : Latest) → l.newest.job_id ≡ r.job_id → (merge_row r l).newest.job_id ≡ r.job_id
merge_row-job_id r l h = ground arith

find_job-group_row :
    (r : Row) (ls : List Latest) (id : ℕ)
    → find_job id (group_row r ls)
      ≡ (if eqb r.job_id id then some (newer r (find_job r.job_id ls)) else find_job id ls)
unfolding find_job group_row
find_job-group_row r [] id = refl
find_job-group_row r (l ∷ ls) id = elim (Bool-cases (eqb l.newest.job_id r.job_id)) [
  | inl e ↦
      let k : l.newest.job_id ≡ r.job_id = ground arith in
      let m = merge_row-job_id r l k in rw (e, m) (ground arith)
  | inr e ↦ let rest = find_job-group_row r ls id in rw (e, rest) (ground arith)
]

pub latest-skip :
    (r : Row) (rows : Table) (id : ℕ) → r.job_id ≢ id → latest (r ∷ rows) id ≡ latest rows id
unfolding latest_jobs
latest-skip r rows id h =
    let other : eqb r.job_id id ≡ false = ground arith in
    find_job-group_row r (latest_jobs rows) id ∙ rw other refl

pub latest-write :
    (r : Row) (rows : Table)
    → ((l : Latest) → latest rows r.job_id ≡ some l → l.newest.created_at ≤ r.created_at)
    → (l : Latest) × (latest (r ∷ rows) r.job_id ≡ some l) × (l.newest ≡ r)
unfolding latest_jobs
latest-write r rows h =
    let same : eqb r.job_id r.job_id ≡ true = ground arith in
    let e = find_job-group_row r (latest_jobs rows) r.job_id ∙ rw same refl in
    (newer r (latest rows r.job_id), e, is_new (latest rows r.job_id) h)
  where
    is_new :
        (o : Option Latest)
        → ((l : Latest) → o ≡ some l → l.newest.created_at ≤ r.created_at)
        → (newer r o).newest ≡ r
    is_new none h = refl
    is_new (some l) h =
        let le : leb l.newest.created_at r.created_at ≡ true = ground (arith, h l refl) in
        rw le refl

-- A job's newest row is no older than any row of the job.
pub latest-covers :
    (rows : Table) (r : Row)
    → Memᴰ r rows
    → (l : Latest) × (latest rows r.job_id ≡ some l) × (r.created_at ≤ l.newest.created_at)
unfolding latest_jobs
latest-covers [] r m = absurd (Memᴰ.not-nil m)
latest-covers (x ∷ rows) r m = elim (Bool-cases (eqb x.job_id r.job_id)) [
  | inl e ↦
      let same : x.job_id ≡ r.job_id = ground arith in
      (
        newer x (latest rows x.job_id),
        find_job-group_row x (latest_jobs rows) r.job_id ∙ rw e refl,
        elim (Memᴰ.cases_cons m) [
          | inl here ↦ rw here (newer-row x (latest rows x.job_id))
          | inr there ↦
              let (k, f, le) = latest-covers rows r there in
              let found : latest rows x.job_id ≡ some k = ap (latest rows) same ∙ f in
              rw found (omega (arith, merge_row-latest x k))
        ],
      )
  | inr e ↦ elim (Memᴰ.cases_cons m) [
    | inl here ↦ absurd (ground (arith, ap (λ (y : Row). y.job_id) here))
    | inr there ↦
        let (k, f, le) = latest-covers rows r there in
        (k, find_job-group_row x (latest_jobs rows) r.job_id ∙ rw e f, le)
  ]
]
  where
    merge_row-latest :
        (x : Row) (l : Latest) → l.newest.created_at ≤ (merge_row x l).newest.created_at
    merge_row-latest x l = ground arith

    newer-row : (x : Row) (o : Option Latest) → x.created_at ≤ (newer x o).newest.created_at
    newer-row x none = omega arith
    newer-row x (some l) = ground arith

Memᴰ-group_row :
    (r : Row) (ls : List Latest) (id : ℕ)
    → Memᴰ id (ids (group_row r ls))
    → (id ≡ r.job_id) ⊎ Memᴰ id (ids ls)
unfolding group_row
Memᴰ-group_row r [] id m = inl (Memᴰ.eq_of_singleton m)
Memᴰ-group_row r (l ∷ ls) id m = elim (Bool-cases (eqb l.newest.job_id r.job_id)) [
  | inl e ↦ elim (Memᴰ.cases_cons (rw e at m)) [
    | inl k ↦ inl (k ∙ merge_row-job_id r l (ground arith))
    | inr k ↦ inr (Memᴰ.tail k)
  ]
  | inr e ↦ elim (Memᴰ.cases_cons (rw e at m)) [
    | inl k ↦ inr (Memᴰ.head k)
    | inr k ↦ elim (Memᴰ-group_row r ls id k) [ inl x ↦ inl x | inr x ↦ inr (Memᴰ.tail x) ]
  ]
]

group_row-Distinct :
    (r : Row) (ls : List Latest) → Distinct (ids ls) → Distinct (ids (group_row r ls))
unfolding group_row
group_row-Distinct r [] d = cons Memᴰ.not-nil nil
group_row-Distinct r (l ∷ ls) d = elim (Bool-cases (eqb l.newest.job_id r.job_id)) [
  | inl e ↦
      let k : l.newest.job_id ≡ r.job_id = ground arith in
      rw e (cons (λ m. Distinct-head d (rw (k ∙ sym (merge_row-job_id r l k)) m)) (Distinct-tail d))
  | inr e ↦ rw e (
      cons
        (λ m. elim (Memᴰ-group_row r ls l.newest.job_id m) [
          | inl k ↦ absurd (ground arith)
          | inr k ↦ Distinct-head d k
        ])
        (group_row-Distinct r ls (Distinct-tail d)))
]

-- Each job has one row in the reduced table.
pub latest_jobs-Distinct : (rows : Table) → Distinct (ids (latest_jobs rows))
unfolding latest_jobs
latest_jobs-Distinct [] = nil
latest_jobs-Distinct (r ∷ rows) =
    group_row-Distinct r (latest_jobs rows) (latest_jobs-Distinct rows)

find_job-Memᴰ :
    (ls : List Latest) (l : Latest)
    → Distinct (ids ls)
    → Memᴰ l ls
    → find_job l.newest.job_id ls ≡ some l
unfolding find_job
find_job-Memᴰ [] l d m = absurd (Memᴰ.not-nil m)
find_job-Memᴰ (k ∷ ls) l d m = elim (Memᴰ.cases_cons m) [
  | inl e ↦
      rw e (let same : eqb k.newest.job_id k.newest.job_id ≡ true = ground arith in rw same refl)
  | inr t ↦
      let other : eqb k.newest.job_id l.newest.job_id ≡ false =
        elim (Bool-cases (eqb k.newest.job_id l.newest.job_id)) [
          | inl e ↦
              let same : k.newest.job_id ≡ l.newest.job_id = ground arith in
              absurd (Distinct-head d (rw same (map-Memᴰ (λ (x : Latest). x.newest.job_id) l ls t)))
          | inr e ↦ e
        ] in
      rw other (find_job-Memᴰ ls l (Distinct-tail d) t)
]

-- A row of the reduced table is its job's.
pub latest-Memᴰ :
    (rows : Table) (l : Latest) → Memᴰ l (latest_jobs rows) → latest rows l.newest.job_id ≡ some l
latest-Memᴰ rows l m = find_job-Memᴰ (latest_jobs rows) l (latest_jobs-Distinct rows) m

find_job-some :
    (ls : List Latest) (id : ℕ) (l : Latest)
    → find_job id ls ≡ some l
    → Memᴰ l ls × (l.newest.job_id ≡ id)
unfolding find_job
find_job-some [] id l h = cc
find_job-some (k ∷ ls) id l h = elim (Bool-cases (eqb k.newest.job_id id)) [
  | inl e ↦
      let found : some k ≡ some l = rw e at h in
      let same : k ≡ l = cc in (Memᴰ.head (sym same), rw (sym same) (ground arith))
  | inr e ↦ let (m, s) = find_job-some ls id l (rw e at h) in (Memᴰ.tail m, s)
]

pub latest-some :
    (rows : Table) (id : ℕ) (l : Latest)
    → latest rows id ≡ some l
    → Memᴰ l (latest_jobs rows) × (l.newest.job_id ≡ id)
latest-some rows id l h = find_job-some (latest_jobs rows) id l h
