-- ===== src/Conductor/Leaving.antt =====
-- What a loop over the tasks leaves, where each round writes the status of its task only.
use cloudshift.Prelude.{
  ℕ, ◌≡◌, refl, ap, sym, subst, ◌∙◌, false, some, List, [], ◌∷◌, All, ◌==◌, arith,
}
use cloudshift.Constants.{TaskStatus}
use cloudshift.Conductor.Store.{Task, Store, status_of}
use cloudshift.Conductor.Effects.{M, ok, for_each, set_task_status}
use cloudshift.Conductor.Rows.{set_task_status_ok}
use cloudshift.Conductor.Evolves.{Distinct, ids}
use cloudshift.Conductor.Tracking.{Tracked, Tracked-frame, DiffersFrom}
use cloudshift.Conductor.Touches.{Touches, set_task_status_sets}

-- The statement succeeds and leaves the task with the status.
abbrev pub Leaves : ℕ → TaskStatus → M Unit → Store → Type 0
Leaves id status m s = ((m s).0 ≡ ok tt) × (status_of id (m s).1 ≡ some status)

pub Leaves-set :
    (id : ℕ) (v : TaskStatus) (s : Store) {a : TaskStatus}
    → status_of id s ≡ some a
    → Leaves id v (set_task_status id v) s
Leaves-set id v s now =
    (ap (λ r. r.0) (set_task_status_ok id v s now), set_task_status_sets id v s now)

-- Each of the tasks has the status that goes with it.
abbrev pub Left : (Task → TaskStatus) → Store → List Task → Type 0
Left outcome s ts = All (λ t. status_of t.id s ≡ some (outcome t)) ts

module _ (round : Task → M Unit) (outcome : Task → TaskStatus)
    (leaves : (t : Task) (s : Store) → Tracked s t → Leaves t.id (outcome t) (round t) s)
    (touches : (t : Task) → Touches t.id (round t)) where
  each-frame :
      (j : ℕ) (ts : List Task) (s : Store)
      → All (DiffersFrom j) (ids ts)
      → All (Tracked s) ts
      → Distinct (ids ts)
      → status_of j (for_each round ts s).1 ≡ status_of j s
  unfolding for_each
  each-frame j [] s new tracked d = refl
  each-frame j (t ∷ ts) s new tracked d =
      let (done, _) = leaves t s tracked.0 in
      let s1 : Store = (round t s).1 in
      let frame = (touches t).frame s in
      rw done (
        each-frame j ts s1 new.1 (Tracked-frame s s1 t.id ts frame d.0 tracked.1) d.1
        ∙ frame j (==_sym j t.id new.0))
    where
      ==_sym : (x y : ℕ) → (x == y) ≡ false → (y == x) ≡ false
      ==_sym x y h = ground arith

  -- The loop goes on after a task.
  each-step :
      (t : Task) (ts : List Task) (s : Store)
      → (round t s).0 ≡ ok tt
      → ((for_each round (t ∷ ts) s).0 ≡ (for_each round ts (round t s).1).0)
        × ((for_each round (t ∷ ts) s).1 ≡ (for_each round ts (round t s).1).1)
  unfolding for_each
  each-step t ts s done = (rw done refl, rw done refl)

  pub each-Left :
      (ts : List Task) (s : Store)
      → All (Tracked s) ts
      → Distinct (ids ts)
      → Left outcome (for_each round ts s).1 ts
  each-Left [] s tracked d = tt
  each-Left (t ∷ ts) s tracked d =
      let (done, left) = leaves t s tracked.0 in
      let s1 : Store = (round t s).1 in
      let after = Tracked-frame s s1 t.id ts ((touches t).frame s) d.0 tracked.1 in
      let (_, same) = each-step t ts s done in
      subst (λ s'. Left outcome s' (t ∷ ts)) (sym same)
        (each-frame t.id ts s1 d.0 after d.1 ∙ left, each-Left ts s1 after d.1)

  pub each-ok :
      (ts : List Task) (s : Store)
      → All (Tracked s) ts
      → Distinct (ids ts)
      → (for_each round ts s).0 ≡ ok tt
  unfolding for_each
  each-ok [] s tracked d = refl
  each-ok (t ∷ ts) s tracked d =
      let (done, _) = leaves t s tracked.0 in
      let s1 : Store = (round t s).1 in
      let after = Tracked-frame s s1 t.id ts ((touches t).frame s) d.0 tracked.1 in
      (each-step t ts s done).0 ∙ each-ok ts s1 after d.1
