-- ===== src/Queue/Select.antt =====
-- The jobs that a query of backend/internal/clickhouse/queue.go selects.
use mathlib.Core.List.Memᴰ
use bomhort.Base.{
  ◌∙◌, ◌∙◌, sym, ◌⊎◌, ◌⊎◌, inr, ◌↔◌, ◌↔◌, map-Memᴰ, leb, inl, Memᴰ-keep, ap, Memᴰ-map, Memᴰ,
  Distinct-keep, Bool-cases, ℕ, zero, suc, some, List, [], ◌∷◌, map, ◌≡◌, refl, Distinct,
  Distinct-tail, Distinct-head, nil, cons, keep, Bool, true,
}
use bomhort.Queue.{
  Row, Table, Latest, IngestionJob, insert_oldest, oldest_first, limit_to, scan_job, select_jobs,
  latest_jobs,
}
use bomhort.Queue.Table.{latest, latest-Memᴰ, latest_jobs-Distinct, ids}

abbrev pub job_ids : List IngestionJob → List ℕ
job_ids js = map (λ j. j.job_id) js

pub Memᴰ-insert_oldest :
    (j k : IngestionJob) (ks : List IngestionJob)
    → Memᴰ j (insert_oldest k ks) ↔ ((j ≡ k) ⊎ Memᴰ j ks)
unfolding insert_oldest
Memᴰ-insert_oldest j k ks = (into ks, out ks)
  where
    into : (ks : List IngestionJob) → Memᴰ j (insert_oldest k ks) → (j ≡ k) ⊎ Memᴰ j ks
    into [] m = inl (Memᴰ.eq_of_singleton m)
    into (x ∷ ks) m = elim (Bool-cases (leb k.created_at x.created_at)) [
      | inl e ↦ Memᴰ.cases_cons (rw e at m)
      | inr e ↦ elim (Memᴰ.cases_cons (rw e at m)) [
        | inl s ↦ inr (Memᴰ.head s)
        | inr t ↦ elim (into ks t) [ inl s ↦ inl s | inr r ↦ inr (Memᴰ.tail r) ]
      ]
    ]

    out : (ks : List IngestionJob) → (j ≡ k) ⊎ Memᴰ j ks → Memᴰ j (insert_oldest k ks)
    out [] (inl e) = Memᴰ.head e
    out [] (inr m) = absurd (Memᴰ.not-nil m)
    out (x ∷ ks) h = elim (Bool-cases (leb k.created_at x.created_at)) [
      | inl e ↦ rw e (elim h [ inl s ↦ Memᴰ.head s | inr m ↦ Memᴰ.tail m ])
      | inr e ↦ rw e (elim h [
        | inl s ↦ Memᴰ.tail (out ks (inl s))
        | inr m ↦ elim (Memᴰ.cases_cons m) [
          | inl s ↦ Memᴰ.head s
          | inr t ↦ Memᴰ.tail (out ks (inr t))
        ]
      ])
    ]

pub Memᴰ-oldest_first :
    (j : IngestionJob) (js : List IngestionJob) → Memᴰ j (oldest_first js) ↔ Memᴰ j js
unfolding oldest_first
Memᴰ-oldest_first j js = (into js, out js)
  where
    into : (js : List IngestionJob) → Memᴰ j (oldest_first js) → Memᴰ j js
    into [] m = m
    into (k ∷ js) m = elim ((Memᴰ-insert_oldest j k (oldest_first js)).0 m) [
      | inl e ↦ Memᴰ.head e
      | inr r ↦ Memᴰ.tail (into js r)
    ]

    out : (js : List IngestionJob) → Memᴰ j js → Memᴰ j (oldest_first js)
    out [] m = m
    out (k ∷ js) m =
        (Memᴰ-insert_oldest j k (oldest_first js)).1
          (elim (Memᴰ.cases_cons m) [ inl e ↦ inl e | inr r ↦ inr (out js r) ])

Memᴰ-limit_to :
    (n : ℕ) (j : IngestionJob) (js : List IngestionJob) → Memᴰ j (limit_to n js) → Memᴰ j js
unfolding limit_to
Memᴰ-limit_to zero j js m = absurd (Memᴰ.not-nil m)
Memᴰ-limit_to (suc n) j [] m = m
Memᴰ-limit_to (suc n) j (k ∷ js) m = elim (Memᴰ.cases_cons m) [
  | inl e ↦ Memᴰ.head e
  | inr r ↦ Memᴰ.tail (Memᴰ-limit_to n j js r)
]

insert_oldest-Distinct :
    (k : IngestionJob) (ks : List IngestionJob)
    → Distinct (job_ids (k ∷ ks))
    → Distinct (job_ids (insert_oldest k ks))
unfolding insert_oldest
insert_oldest-Distinct k [] d = d
insert_oldest-Distinct k (x ∷ ks) d = elim (Bool-cases (leb k.created_at x.created_at)) [
  | inl e ↦ rw e d
  | inr e ↦ rw e (
      cons
        (λ m.
          let (j, q, same) =
            Memᴰ-map (λ (j : IngestionJob). j.job_id) x.job_id (insert_oldest k ks) m in
          elim ((Memᴰ-insert_oldest j k ks).0 q) [
            | inl s ↦
                Distinct-head d (Memᴰ.head (sym (same ∙ ap (λ (j : IngestionJob). j.job_id) s)))
            | inr t ↦
                Distinct-head (Distinct-tail d)
                  (rw same (map-Memᴰ (λ (j : IngestionJob). j.job_id) j ks t))
          ])
        (insert_oldest-Distinct k ks
          (cons (λ m. Distinct-head d (Memᴰ.tail m)) (Distinct-tail (Distinct-tail d)))))
]

oldest_first-Distinct :
    (js : List IngestionJob) → Distinct (job_ids js) → Distinct (job_ids (oldest_first js))
unfolding oldest_first
oldest_first-Distinct [] d = d
oldest_first-Distinct (j ∷ js) d = insert_oldest-Distinct j (oldest_first js) (
    cons
      (λ m.
        let (k, q, same) = Memᴰ-map (λ (j : IngestionJob). j.job_id) j.job_id (oldest_first js) m in
        Distinct-head d
          (rw same (map-Memᴰ (λ (j : IngestionJob). j.job_id) k js ((Memᴰ-oldest_first k js).0 q))))
      (oldest_first-Distinct js (Distinct-tail d)))

limit_to-Distinct :
    (n : ℕ) (js : List IngestionJob) → Distinct (job_ids js) → Distinct (job_ids (limit_to n js))
unfolding limit_to
limit_to-Distinct zero js d = nil
limit_to-Distinct (suc n) [] d = d
limit_to-Distinct (suc n) (j ∷ js) d =
    cons
      (λ m.
        let (k, q, same) = Memᴰ-map (λ (j : IngestionJob). j.job_id) j.job_id (limit_to n js) m in
        Distinct-head d
          (rw same (map-Memᴰ (λ (j : IngestionJob). j.job_id) k js (Memᴰ-limit_to n k js q))))
      (limit_to-Distinct n js (Distinct-tail d))

map-scan_job : (ls : List Latest) → job_ids (map scan_job ls) ≡ ids ls
map-scan_job [] = refl
map-scan_job (l ∷ ls) = ap (λ js. l.newest.job_id ∷ js) (map-scan_job ls)

pub select_jobs-Distinct :
    (p : Row → Bool) (n : ℕ) (rows : Table) → Distinct (job_ids (select_jobs p n rows))
unfolding select_jobs
select_jobs-Distinct p n rows =
    let passing = keep (λ (l : Latest). p l.newest) (latest_jobs rows) in
    limit_to-Distinct n (oldest_first (map scan_job passing)) (
      oldest_first-Distinct (map scan_job passing) (
        rw (map-scan_job passing) (
          Distinct-keep (λ (l : Latest). l.newest.job_id) (λ l. p l.newest) (latest_jobs rows)
            (latest_jobs-Distinct rows))))

-- A selected job is read off its newest row, which passes the test.
pub select_jobs-Memᴰ :
    (p : Row → Bool) (n : ℕ) (rows : Table) (j : IngestionJob)
    → Memᴰ j (select_jobs p n rows)
    → (l : Latest) × (latest rows j.job_id ≡ some l) × (p l.newest ≡ true) × (j ≡ scan_job l)
unfolding select_jobs
select_jobs-Memᴰ p n rows j m =
    let passing = keep (λ (l : Latest). p l.newest) (latest_jobs rows) in
    let sorted = Memᴰ-limit_to n j (oldest_first (map scan_job passing)) m in
    let (l, q, same) =
      Memᴰ-map scan_job j passing ((Memᴰ-oldest_first j (map scan_job passing)).0 sorted) in
    let (r, h) = Memᴰ-keep (λ (l : Latest). p l.newest) l (latest_jobs rows) q in
    (l, ap (λ (k : IngestionJob). latest rows k.job_id) same ∙ latest-Memᴰ rows l r, h, same)
