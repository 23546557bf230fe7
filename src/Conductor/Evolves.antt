-- ===== src/Conductor/Evolves.antt =====
-- How the rows and the calls may change: along the diagram, and with one start for each task.
use cloudshift.Prelude.{
  ℕ, ◌+◌, ◌≤◌, ◌≡◌, refl, ap, ◌∙◌, false, some, List, [], ◌∷◌, map, All, ◌==◌, if◌then◌else◌,
  Bool-cases, inl, inr, ==_iff, arith,
}
use cloudshift.Constants.{TaskStatus}
use cloudshift.Conductor.Store.{Task, Store, Call, begin_task, put_task, status_of, tasks_of}
use cloudshift.Conductor.Diagram.{◌⟶*◌, Moves, moved, Moves-refl, Moves-trans}
use cloudshift.Conductor.Rows.{
  to_launch, launchable, set_status, with_status, status_in-set_status, launchable-set_status,
}

abbrev pub ids : List Task → List ℕ
ids tasks = map (λ t. t.id) tasks

abbrev pub ids_of : Store → List ℕ
ids_of s = ids s.execution.tasks

abbrev pub Distinct : List ℕ → Type 0
Distinct [] = Unit
Distinct (x ∷ xs) = All (λ y. (x == y) ≡ false) xs × Distinct xs

-- How often a worker was asked to begin the task.
unfoldable pub begun : ℕ → List Call → ℕ
begun id [] = 0
begun id (begin_task j ∷ cs) = (if j == id then 1 else 0) + begun id cs
begun id (c ∷ cs) = begun id cs

pub record Evolves (s s' : Store) : Type 0 where
  pub moves : (id : ℕ) → Moves (status_of id s) (status_of id s')
  pub launches : launchable (tasks_of s') ≤ launchable (tasks_of s)
  pub begins :
      (id : ℕ)
      → begun id s'.log + to_launch (status_of id s') ≤ begun id s.log + to_launch (status_of id s)
  pub same_ids : ids_of s' ≡ ids_of s

pub Evolves-refl : (s : Store) → Evolves s s
Evolves-refl s = record {
  moves = λ id. Moves-refl _;
  launches = omega arith;
  begins = λ id. omega arith;
  same_ids = refl;
}

pub Evolves-trans : {s t u : Store} → Evolves s t → Evolves t u → Evolves s u
Evolves-trans p q = record {
  moves = λ id. Moves-trans (p.moves id) (q.moves id);
  launches = omega (arith, p.launches, q.launches);
  begins = λ id. omega (arith, p.begins id, q.begins id);
  same_ids = q.same_ids ∙ p.same_ids;
}

-- A write outside the tasks, or a call that begins no task.
pub Evolves-quiet :
    (s s' : Store)
    → tasks_of s' ≡ tasks_of s
    → ((id : ℕ) → begun id s'.log ≡ begun id s.log)
    → Evolves s s'
Evolves-quiet s s' same quiet = record {
  moves = λ id. rw same (Moves-refl _);
  launches = rw same (omega arith);
  begins = λ id. rw (same, quiet id) (omega arith);
  same_ids = ap ids same;
}

pub ids-set_status : (id : ℕ) (v : TaskStatus) (ts : List Task) → ids (set_status id v ts) ≡ ids ts
unfolding put_task
ids-set_status id v [] = refl
ids-set_status id v (t ∷ ts) = ground (arith, ids-set_status id v ts)

module _ (id : ℕ) (b : TaskStatus) (s : Store) {a : TaskStatus}
    (now : status_of id s ≡ some a) where
  pub status_of-with_status :
      (j : ℕ) → status_of j (with_status id b s) ≡ (if id == j then some b else status_of j s)
  status_of-with_status j = ground (arith, status_in-set_status id j b s.execution.tasks)

  pub Evolves-with_status :
      a ⟶* b → to_launch (some b) ≤ to_launch (some a) → Evolves s (with_status id b s)
  Evolves-with_status path less = record {
    moves = λ j. rw (status_of-with_status j) (elim (Bool-cases (id == j)) [
      | inl same ↦
          let at_j : status_of j s ≡ some a = cc ((==_iff id j).0 same) in
          rw (same, at_j) (moved path)
      | inr other ↦ rw other (Moves-refl _)
    ]);
    launches = omega (arith, launchable-set_status id b s.execution.tasks now);
    begins = λ j. ground (arith, status_of-with_status j);
    same_ids = ids-set_status id b s.execution.tasks;
  }
