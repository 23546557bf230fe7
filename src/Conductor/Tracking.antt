-- ===== src/Conductor/Tracking.antt =====
-- Lists of tasks whose statuses are those of the rows, and sorting.
use cloudshift.Prelude.{
  ℕ, ◌≡◌, false, some, List, [], ◌∷◌, All, ◌==◌, leb, Bool-cases, inl, inr, arith,
}
use cloudshift.Conductor.Store.{Task, Store, status_in, status_of}
use cloudshift.Conductor.Cancel.{insert_task, sort_tasks}
use cloudshift.Conductor.Evolves.{ids, Distinct}

-- The rows hold the status that the copy `t` has.
abbrev pub Tracked : Store → Task → Type 0
Tracked s t = status_of t.id s ≡ some t.status

abbrev pub DiffersFrom : ℕ → ℕ → Type 0
DiffersFrom x y = (x == y) ≡ false

pub All-insert_task :
    (P : Task → Type 0) (t : Task) (ts : List Task) → P t → All P ts → All P (insert_task t ts)
unfolding insert_task
All-insert_task P t [] p ps = (p, tt)
All-insert_task P t (u ∷ us) p ps = elim (Bool-cases (leb t.index u.index)) [
  | inl before ↦ rw before (p, ps)
  | inr after ↦ rw after (ps.0, All-insert_task P t us p ps.1)
]

pub All-sort_tasks : (P : Task → Type 0) (ts : List Task) → All P ts → All P (sort_tasks ts)
unfolding sort_tasks
All-sort_tasks P [] ps = tt
All-sort_tasks P (t ∷ ts) ps = All-insert_task P t (sort_tasks ts) ps.0 (All-sort_tasks P ts ps.1)

-- The same for a predicate of the identifiers.
All-ids : (P : ℕ → Type 0) (ts : List Task) → All P (ids ts) → All (λ t. P t.id) ts
All-ids P [] ps = tt
All-ids P (t ∷ ts) ps = (ps.0, All-ids P ts ps.1)

ids-All : (P : ℕ → Type 0) (ts : List Task) → All (λ t. P t.id) ts → All P (ids ts)
ids-All P [] ps = tt
ids-All P (t ∷ ts) ps = (ps.0, ids-All P ts ps.1)

ids-insert_task :
    (P : ℕ → Type 0) (t : Task) (ts : List Task)
    → P t.id
    → All P (ids ts)
    → All P (ids (insert_task t ts))
ids-insert_task P t ts p ps =
    ids-All P (insert_task t ts) (All-insert_task (λ u. P u.id) t ts p (All-ids P ts ps))

Distinct-insert_task :
    (t : Task) (ts : List Task)
    → All (DiffersFrom t.id) (ids ts)
    → Distinct (ids ts)
    → Distinct (ids (insert_task t ts))
unfolding insert_task
Distinct-insert_task t [] new d = (tt, tt)
Distinct-insert_task t (u ∷ us) new d = elim (Bool-cases (leb t.index u.index)) [
  | inl before ↦ rw before (new, d)
  | inr after ↦ rw after (
    ids-insert_task (DiffersFrom u.id) t us (==_sym t.id u.id new.0) d.0,
    Distinct-insert_task t us new.1 d.1,
  )
]
  where
    ==_sym : (x y : ℕ) → (x == y) ≡ false → (y == x) ≡ false
    ==_sym x y h = ground arith

pub Distinct-sort_tasks : (ts : List Task) → Distinct (ids ts) → Distinct (ids (sort_tasks ts))
unfolding sort_tasks
Distinct-sort_tasks [] d = tt
Distinct-sort_tasks (t ∷ ts) d =
    Distinct-insert_task t (sort_tasks ts)
      (ids-All (DiffersFrom t.id) (sort_tasks ts)
        (All-sort_tasks (λ u. DiffersFrom t.id u.id) ts (All-ids (DiffersFrom t.id) ts d.0)))
      (Distinct-sort_tasks ts d.1)

-- Where the statuses of other tasks stay, so does what is known of them.
pub Tracked-frame :
    (s s' : Store) (id : ℕ) (ts : List Task)
    → ((j : ℕ) → DiffersFrom id j → status_of j s' ≡ status_of j s)
    → All (DiffersFrom id) (ids ts)
    → All (Tracked s) ts
    → All (Tracked s') ts
Tracked-frame s s' id [] frame new tracked = tt
Tracked-frame s s' id (t ∷ ts) frame new tracked =
    (cc (frame t.id new.0), Tracked-frame s s' id ts frame new.1 tracked.1)

tracked_behind :
    (t : Task) (rows us : List Task)
    → All (DiffersFrom t.id) (ids us)
    → All (λ u. status_in u.id rows ≡ some u.status) us
    → All (λ u. status_in u.id (t ∷ rows) ≡ some u.status) us
unfolding status_in
tracked_behind t rows [] new known = tt
tracked_behind t rows (u ∷ us) new known =
    (rw (new.0) known.0, tracked_behind t rows us new.1 known.1)

-- Fresh rows are tracked.
pub tracked_rows :
    (ts : List Task) → Distinct (ids ts) → All (λ t. status_in t.id ts ≡ some t.status) ts
unfolding status_in
tracked_rows [] d = tt
tracked_rows (t ∷ ts) d = (ground arith, tracked_behind t ts ts d.0 (tracked_rows ts d.1))
