-- ===== src/Queue/Exclusive.antt =====
-- What a worker holds (backend/internal/clickhouse/queue.go and the polling loop of
-- backend/cmd/parsing-worker/main.go).
use mathlib.Core.List.Memᴰ
use bomhort.Base.{
  ◌∙◌, ◌∙◌, Distinct-map-inj, sym, ap, Memᴰ, refl, ℕ, ◌<◌, some, none, Text, List, [], ◌∷◌, ◌++◌,
  ◌≡◌, Distinct, Distinct-head, Distinct-tail, Distinct-keep, Memᴰ-keep, Memᴰ-map, map-Memᴰ,
  Memᴰ-widen, Distinct-without, Distinct-map_append, map, inl, inr, true, false, arith, subst,
}
use bomhort.Queue.{
  Row, Table, Latest, IngestionJob, enqueue_jobs, enqueue_row, complete_job, fail_job, defer_job,
  own_claimed_jobs, is_own, claim_row, is_due, find_job, latest_jobs,
}
use bomhort.Queue.Table.{latest, latest-covers}
use bomhort.Queue.Select.{job_ids}
use bomhort.Queue.Write.{write_all-Grows, write_all-Memᴰ}
use bomhort.Queue.Claim.{some_inj, stamped, stamped-Distinct, stamped-was}
use bomhort.Queue.System.{
  System, Step, Claiming, Reachable, Outcome, write_outcome, mark_claimed, completed, broken,
  deferred,
}

-- A holding is told apart by its job and its version.
abbrev key : Text × IngestionJob → ℕ × ℕ
key h = (h.1.job_id, h.1.version)

abbrev Holdings : Type 0
Holdings = List (Text × IngestionJob)

-- The jobs of a claim are newer than what is held of them, and once they are marked the table says so.
record IsClaiming (rows : Table) (held : Holdings) (c : Claiming) : Type 0 where
  fresh : Distinct (job_ids c.jobs)
  newer :
      (w : Text) (i j : IngestionJob)
      → Memᴰ (w, i) held
      → Memᴰ j c.jobs
      → i.job_id ≡ j.job_id
      → i.version < j.version
  marked : c.written ≡ true → (j : IngestionJob) → Memᴰ j c.jobs → Memᴰ (claim_row c.worker j) rows

record Inv (s : System) : Type 0 where
  recorded : (w : Text) (j : IngestionJob) → Memᴰ (w, j) s.held → Memᴰ (claim_row w j) s.rows
  single : Distinct (map key s.held)
  claiming : (c : Claiming) → s.section ≡ some c → IsClaiming s.rows s.held c

abbrev Grows : Table → Table → Type 0
Grows rows rows' = (r : Row) → Memᴰ r rows → Memᴰ r rows'

IsClaiming-Grows :
    (rows rows' : Table) (held : Holdings) (c : Claiming)
    → Grows rows rows'
    → IsClaiming rows held c
    → IsClaiming rows' held c
IsClaiming-Grows rows rows' held c grows h = record {
  fresh = h.fresh;
  newer = h.newer;
  marked = λ w j m. grows (claim_row c.worker j) (h.marked w j m);
}

-- New rows change nothing, whatever they say.
Inv-Grows :
    (s : System) (rows' : Table) → Grows s.rows rows' → Inv s → Inv (record s { rows = rows' })
Inv-Grows s rows' grows inv = record {
  recorded = λ w j m. grows (claim_row w j) (inv.recorded w j m);
  single = inv.single;
  claiming = λ c e. IsClaiming-Grows s.rows rows' s.held c grows (inv.claiming c e);
}

write_outcome-Grows :
    (o : Outcome) (job : IngestionJob) (rows : Table) → Grows rows (write_outcome o job rows)
unfolding write_outcome complete_job fail_job defer_job
write_outcome-Grows (completed now finished) job rows r m = Memᴰ.tail m
write_outcome-Grows (broken now finished err_msg) job rows r m = Memᴰ.tail m
write_outcome-Grows (deferred now retry_after reason) job rows r m = Memᴰ.tail m

-- A worker lets go of a job.
Inv-release :
    (s : System) (before after : Holdings) (x : Text × IngestionJob)
    → s.held ≡ before ++ x ∷ after
    → Inv s
    → Inv (record s { held = before ++ after })
Inv-release s before after x e inv =
    let (rest, apart) = Distinct-without key before x after (rw e at inv.single) in
    record {
      recorded = λ w j m. inv.recorded w j (rw e (Memᴰ-widen (w, j) x before after m));
      single = rest;
      claiming = λ c f.
          let h = inv.claiming c f in
          record {
            fresh = h.fresh;
            newer = λ w i j m. h.newer w i j (rw e (Memᴰ-widen (w, i) x before after m));
            marked = h.marked;
          };
    }

-- The jobs of a new claim are newer than the claims in the table, and so than what is held.
Inv-select :
    (s : System) (now server_now : ℕ) (worker_id : Text) (limit : ℕ)
    → Inv s
    → IsClaiming s.rows s.held (record {
      worker = worker_id;
      jobs = stamped (is_due now) server_now worker_id limit s.rows;
      written = false;
    })
Inv-select s now server_now worker_id limit inv = record {
  fresh = stamped-Distinct (is_due now) server_now worker_id limit s.rows;
  newer = λ w i j m k same.
      let (l, e, due, lt) = stamped-was (is_due now) server_now worker_id limit s.rows j k in
      let (n, f, le) = latest-covers s.rows (claim_row w i) (inv.recorded w i m) in
      let one = some_inj n l (sym f ∙ ap (latest s.rows) same ∙ e) in
      omega (arith, lt, le, ap (λ (x : Latest). x.newest.created_at) one);
  marked = λ w. cc;
}

Distinct-keys :
    (w : Text) (js : List IngestionJob)
    → Distinct (job_ids js)
    → Distinct (map key (map (λ j. (w, j)) js))
Distinct-keys w [] d = Distinct.nil
Distinct-keys w (j ∷ js) d =
    Distinct.cons
      (λ m.
        let (h, q, e) = Memᴰ-map key (key (w, j)) (map (λ j. (w, j)) js) m in
        let (i, p, f) = Memᴰ-map (λ (j : IngestionJob). (w, j)) h js q in
        Distinct-head d (
          rw (ap (λ (k : ℕ × ℕ). k.0) e ∙ ap (λ (x : Text × IngestionJob). x.1.job_id) f)
            (map-Memᴰ (λ (j : IngestionJob). j.job_id) i js p)))
      (Distinct-keys w js (Distinct-tail d))

-- The jobs that pass the check of the owner.
Inv-return :
    (s : System) (c : Claiming)
    → Inv s
    → s.section ≡ some c
    → c.written ≡ true
    → Inv (record s {
      held = map (λ j. (c.worker, j)) (own_claimed_jobs c.worker s.rows c.jobs) ++ s.held;
      section = none;
    })
unfolding own_claimed_jobs
Inv-return s c inv e written =
    let h = inv.claiming c e in
    let own = λ (j : IngestionJob). is_own c.worker (find_job j.job_id (latest_jobs s.rows)) in
    let mine = own_claimed_jobs c.worker s.rows c.jobs in
    record {
      recorded = λ w j m. elim (Memᴰ.append_cases (map (λ j. (c.worker, j)) mine) m) [
        | inl k ↦
            let (i, q, f) = Memᴰ-map (λ (j : IngestionJob). (c.worker, j)) (w, j) mine k in
            rw (ap (λ (x : Text × IngestionJob). x.0) f, ap (λ (x : Text × IngestionJob). x.1) f)
              (h.marked written i (Memᴰ-keep own i c.jobs q).0)
        | inr k ↦ inv.recorded w j k
      ];
      single =
          Distinct-map_append key (map (λ j. (c.worker, j)) mine) s.held
            (Distinct-keys c.worker mine
              (Distinct-keep (λ (j : IngestionJob). j.job_id) own c.jobs h.fresh))
            inv.single
            (λ (u, i) (w, j) m k same.
              let (a, q, f) = Memᴰ-map (λ (j : IngestionJob). (c.worker, j)) (u, i) mine m in
              let is_a = ap (λ (x : Text × IngestionJob). x.1) f in
              let lt =
                h.newer w j a k (Memᴰ-keep own a c.jobs q).0
                  (sym (ap (λ (x : ℕ × ℕ). x.0) same) ∙ ap (λ (x : IngestionJob). x.job_id) is_a) in
              absurd (
                omega (
                  arith,
                  lt,
                  ap (λ (x : ℕ × ℕ). x.1) same,
                  ap (λ (x : IngestionJob). x.version) is_a,
                )));
      claiming = λ d f. cc;
    }

-- The section and the lists of what is under way play no part in the jobs that are held.
Inv-section :
    (s t : System)
    → s.rows ≡ t.rows
    → s.held ≡ t.held
    → Inv s
    → ((c : Claiming) → t.section ≡ some c → IsClaiming t.rows t.held c)
    → Inv t
Inv-section s t e f inv h = record {
  recorded = λ w j m. subst (λ rows. Memᴰ (claim_row w j) rows) e (inv.recorded w j (rw f m));
  single = subst (λ held. Distinct (map key held)) f inv.single;
  claiming = h;
}

Inv-step : (s t : System) → Inv s → Step s t → Inv t
unfolding enqueue_jobs defer_job
Inv-step s t inv (Step.enqueue jobs) =
    Inv-Grows s (enqueue_jobs jobs s.rows) (write_all-Grows enqueue_row (λ j. refl) jobs s.rows) inv
Inv-step s t inv (Step.sweep_own worker_id) = Inv-section s t refl refl inv inv.claiming
Inv-step s t inv (Step.sweep_stale now older_than) = Inv-section s t refl refl inv inv.claiming
Inv-step s t inv (Step.put_back before after job now retry_after reason e) =
    let put = defer_job now retry_after reason job s.rows in
    let h = Inv-Grows s put (λ r m. Memᴰ.tail m) inv in
    Inv-section (record s { rows = put }) t refl refl h h.claiming
Inv-step s t inv (Step.claim_select now server_now worker_id limit e) =
    Inv-section s t refl refl inv (λ c f.
      let chosen : Claiming = record {
        worker = worker_id;
        jobs = stamped (is_due now) server_now worker_id limit s.rows;
        written = false;
      } in
      let same : chosen ≡ c = cc in
      subst (IsClaiming s.rows s.held) same (Inv-select s now server_now worker_id limit inv))
Inv-step s t inv (Step.claim_insert c e w) =
    let marks = mark_claimed c s.rows in
    let grows = write_all-Grows (claim_row c.worker) (λ j. refl) c.jobs s.rows in
    let h = Inv-Grows s marks grows inv in
    let old = h.claiming c e in
    let new : IsClaiming marks s.held (record c { written = true }) = record {
      fresh = old.fresh;
      newer = old.newer;
      marked = λ w j m. write_all-Memᴰ (claim_row c.worker) (λ j. refl) c.jobs s.rows j m;
    } in
    Inv-section (record s { rows = marks }) t refl refl h
      (λ d f.
        let same : record c { written = true } ≡ d = cc in subst (IsClaiming marks s.held) same new)
Inv-step s t inv (Step.claim_return c e w) = Inv-return s c inv e w
Inv-step s t inv (Step.claim_lost c e) = Inv-section s t refl refl inv (λ d f. cc)
Inv-step s t inv (Step.late_insert before after c e) =
    let marks = mark_claimed c s.rows in
    let h =
      Inv-Grows s marks (write_all-Grows (claim_row c.worker) (λ j. refl) c.jobs s.rows) inv in
    Inv-section (record s { rows = marks }) t refl refl h h.claiming
Inv-step s t inv (Step.finish before after worker_id job o e) =
    let kept = Inv-release s before after (worker_id, job) e inv in
    Inv-Grows (record s { held = before ++ after }) (write_outcome o job s.rows)
      (write_outcome-Grows o job s.rows) kept
Inv-step s t inv (Step.abandon before after worker_id job e) =
    Inv-release s before after (worker_id, job) e inv

Inv-Reachable : (s : System) → Reachable s → Inv s
Inv-Reachable s Reachable.initial = record {
  recorded = λ w j m. absurd (Memᴰ.not-nil m);
  single = Distinct.nil;
  claiming = λ c e. cc;
}
Inv-Reachable t (Reachable.onward {s} r st) = Inv-step s t (Inv-Reachable s r) st

-- In every reachable system two holdings of one job with one version are the same: one worker and one copy of the
-- job. Sweeps may put back jobs that workers are busy with, so that a job is held twice, but never with
-- the same version. The sections of claims are taken to exclude each other.
pub held_unique :
    (s : System)
    → Reachable s
    → (u w : Text) (i j : IngestionJob) → Memᴰ (u, i) s.held
    → Memᴰ (w, j) s.held
    → i.job_id ≡ j.job_id
    → i.version ≡ j.version
    → (u ≡ w) × (i ≡ j)
held_unique s r u w i j m k same version =
    let one =
      Distinct-map-inj key (u, i) (w, j) s.held (Inv-Reachable s r).single m k
        (rw (same, version) refl) in
    (ap (λ (x : Text × IngestionJob). x.0) one, ap (λ (x : Text × IngestionJob). x.1) one)
