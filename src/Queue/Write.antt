-- ===== src/Queue/Write.antt =====
-- What the writers of backend/internal/clickhouse/queue.go leave in the queue.
use mathlib.Core.List.Memᴰ
use bomhort.Base.{
  map-Memᴰ, refl, map-Memᴰ, Distinct-tail, inr, inl, Distinct-head, sym, ◌∙◌, ◌∙◌, ap, Memᴰ, ℕ, ◌≤◌,
  some, List, [], ◌∷◌, ◌≡◌, Distinct,
}
use bomhort.Queue.{Row, Table, Latest, IngestionJob, write_all}
use bomhort.Queue.Table.{latest, latest-skip, latest-write}
use bomhort.Queue.Select.{job_ids}

-- The queue's newest row of the job is the one that the job was read from.
pub record IsCurrent (rows : Table) (j : IngestionJob) : Type 0 where
  pub entry : Latest
  pub found : latest rows j.job_id ≡ some entry
  pub as_read : entry.newest.created_at ≡ j.version

module _ (f : IngestionJob → Row) (same_job : (j : IngestionJob) → (f j).job_id ≡ j.job_id) where
  pub write_all-skip :
      (js : List IngestionJob) (rows : Table) (id : ℕ)
      → ¬ Memᴰ id (job_ids js)
      → latest (write_all f js rows) id ≡ latest rows id
  unfolding write_all
  write_all-skip [] rows id h = refl
  write_all-skip (j ∷ js) rows id h =
      write_all-skip js (f j ∷ rows) id (λ m. h (Memᴰ.tail m))
      ∙ latest-skip (f j) rows id (λ e. h (Memᴰ.head (sym (sym (same_job j) ∙ e))))

  -- A write keeps the rows that are there.
  pub write_all-Grows :
      (js : List IngestionJob) (rows : Table) (r : Row) → Memᴰ r rows → Memᴰ r (write_all f js rows)
  unfolding write_all
  write_all-Grows [] rows r m = m
  write_all-Grows (j ∷ js) rows r m = write_all-Grows js (f j ∷ rows) r (Memᴰ.tail m)

  pub write_all-Memᴰ :
      (js : List IngestionJob) (rows : Table) (j : IngestionJob)
      → Memᴰ j js
      → Memᴰ (f j) (write_all f js rows)
  unfolding write_all
  write_all-Memᴰ [] rows j m = absurd (Memᴰ.not-nil m)
  write_all-Memᴰ (k ∷ js) rows j m = elim (Memᴰ.cases_cons m) [
    | inl e ↦ write_all-Grows js (f k ∷ rows) (f j) (Memᴰ.head (ap f e))
    | inr t ↦ write_all-Memᴰ js (f k ∷ rows) j t
  ]

  -- The jobs that a write is about are no older than what the queue holds of them.
  abbrev pub IsNewer : List IngestionJob → Table → Type 0
  IsNewer js rows =
      (j : IngestionJob)
      → Memᴰ j js
      → (l : Latest) → latest rows j.job_id ≡ some l
      → l.newest.created_at ≤ (f j).created_at

  pub write_all-latest :
      (js : List IngestionJob) (rows : Table)
      → Distinct (job_ids js)
      → IsNewer js rows
      → (j : IngestionJob) → Memᴰ j js
      → (l : Latest) × (latest (write_all f js rows) j.job_id ≡ some l) × (l.newest ≡ f j)
  unfolding write_all
  write_all-latest [] rows d newer j m = absurd (Memᴰ.not-nil m)
  write_all-latest (k ∷ js) rows d newer j m = elim (Memᴰ.cases_cons m) [
    | inl e ↦ first e
    | inr t ↦
        write_all-latest js (f k ∷ rows) (Distinct-tail d)
          (λ i q l h. newer i (Memᴰ.tail q) l (
            sym (
              latest-skip (f k) rows i.job_id (λ s.
                Distinct-head d
                  (rw (sym (same_job k) ∙ s) (map-Memᴰ (λ (x : IngestionJob). x.job_id) i js q))))
            ∙ h))
          j t
  ]
    where
      first :
          j ≡ k
          → (l : Latest) × (latest (write_all f (k ∷ js) rows) j.job_id ≡ some l) × (l.newest ≡ f j)
      first e =
          let (l, h, s) =
            latest-write (f k) rows
              (λ l q. newer k (Memᴰ.head refl) l (ap (latest rows) (sym (same_job k)) ∙ q)) in
          rw e (
            l,
            write_all-skip js (f k ∷ rows) k.job_id (Distinct-head d)
                ∙ ap (latest (f k ∷ rows)) (sym (same_job k))
                ∙ h,
            s,
          )
