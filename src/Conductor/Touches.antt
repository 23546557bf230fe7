-- ===== src/Conductor/Touches.antt =====
-- Statements that write the status of one task only.
use cloudshift.Prelude.{
  ℕ, ◌≡◌, refl, ◌∙◌, Bool, true, false, some, if◌then◌else◌, Option-cases, inl, inr, arith,
}
use cloudshift.Constants.{TaskStatus}
use cloudshift.Conductor.Store.{Store, World, Call, status_of}
use cloudshift.Conductor.Effects.{
  Result, ok, err, Error, M, pure, and_then, handle, try_except, ◌>>◌, invoke, set_task_status,
}
use cloudshift.Conductor.Rows.{set_task_status_ok, set_task_status_missing}
use cloudshift.Conductor.Evolves.{status_of-with_status}
use cloudshift.Conductor.Tracking.{DiffersFrom}

abbrev pub Frame : ℕ → Store → Store → Type 0
Frame id s s' = (j : ℕ) → DiffersFrom id j → status_of j s' ≡ status_of j s

pub record Touches (id : ℕ) {A : Type 0} (m : M A) : Type 0 where
  pub frame : (s : Store) → Frame id s (m s).1

module _ (id : ℕ) where
  pub Touches-pure : {A : Type 0} (a : A) → Touches id (pure a)
  Touches-pure a = record { frame = λ s j h. refl }

  Frame-and_then :
      {A B : Type 0} (s s' : Store) (r : Result A) (f : A → M B)
      → Frame id s s'
      → ((a : A) → Touches id (f a))
      → Frame id s (and_then r f s').1
  Frame-and_then s s' (ok a) f first rest = λ j h. (rest a).frame s' j h ∙ first j h
  Frame-and_then s s' (err e) f first rest = first

  Frame-handle :
      {A : Type 0} (s s' : Store) (r : Result A) (f : Error → M A)
      → Frame id s s'
      → ((e : Error) → Touches id (f e))
      → Frame id s (handle r f s').1
  Frame-handle s s' (ok a) f first rest = first
  Frame-handle s s' (err e) f first rest = λ j h. (rest e).frame s' j h ∙ first j h

  pub Touches-seq :
      {A B : Type 0} (m : M A) (k : M B) → Touches id m → Touches id k → Touches id (m >> k)
  Touches-seq m k first rest = record {
    frame = λ s. Frame-and_then s (m s).1 (m s).0 (λ _. k) (first.frame s) (λ _. rest);
  }

  pub Touches-try_except :
      {A : Type 0} (m : M A) (h : Error → M A)
      → Touches id m
      → ((e : Error) → Touches id (h e))
      → Touches id (try_except m h)
  Touches-try_except m h first rest = record {
    frame = λ s. Frame-handle s (m s).1 (m s).0 h (first.frame s) rest;
  }

  pub Touches-if :
      {A : Type 0} (b : Bool) (m k : M A)
      → Touches id m
      → Touches id k
      → Touches id (if b then m else k)
  Touches-if true m k h h' = h
  Touches-if false m k h h' = h'

  pub Touches-invoke : (w : World) (c : Call) → Touches id (invoke w c)
  unfolding invoke
  Touches-invoke w c = record { frame = λ s j h. refl }

  set_task_status-Frame : (v : TaskStatus) (s : Store) → Frame id s (set_task_status id v s).1
  set_task_status-Frame v s j h = elim (Option-cases (status_of id s)) [
    | inl missing ↦ rw (set_task_status_missing id v s missing) refl
    | inr (a, now) ↦ rw (set_task_status_ok id v s now, status_of-with_status id v s now j, h) refl
  ]

  pub Touches-set_task_status : (v : TaskStatus) → Touches id (set_task_status id v)
  Touches-set_task_status v = record { frame = set_task_status-Frame v }

-- The status that was written, where the row is there.
pub set_task_status_sets :
    (id : ℕ) (v : TaskStatus) (s : Store) {a : TaskStatus}
    → status_of id s ≡ some a
    → status_of id (set_task_status id v s).1 ≡ some v
set_task_status_sets id v s now =
    rw (set_task_status_ok id v s now, status_of-with_status id v s now id) (ground arith)
