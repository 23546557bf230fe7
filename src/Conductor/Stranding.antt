-- ===== src/Conductor/Stranding.antt =====
-- conductor/rpc/server.py, `_check_clean_execution_deadlock`: the cleanup of a deadlock makes no
-- task active.
use cloudshift.Prelude.{
  ℕ, ◌≡◌, refl, false, ◌||◌, List, [], ◌∷◌, map, any, Dict, Bool-cases, Option-cases, inl, inr,
  arith,
}
use cloudshift.Constants.{TaskStatus, is_active, is_scheduled, is_on_error_only}
use cloudshift.Conductor.Store.{Task, Store, World, put_task, tasks_of, status_of}
use cloudshift.Conductor.Effects.{Result, ok, err, M, and_then, for_each}
use cloudshift.Conductor.Status.{statuses_of, status_map, cancel_deadlocked}
use cloudshift.Conductor.Rows.{set_status, set_task_status_missing, set_task_status_ok}

abbrev pub NoneActive : Store → Type 0
NoneActive s = any is_active (statuses_of (tasks_of s)) ≡ false

active-set_status :
    (id : ℕ) (v : TaskStatus) (ts : List Task)
    → is_active v ≡ false
    → any is_active (statuses_of ts) ≡ false
    → any is_active (statuses_of (set_status id v ts)) ≡ false
unfolding put_task
active-set_status id v [] idle h = refl
active-set_status id v (t ∷ ts) idle h = ground (arith, active-set_status id v ts)

-- The map of the rows has their statuses.
pub statuses-status_map : (ts : List Task) → map (λ e. e.1) (status_map ts) ≡ statuses_of ts
statuses-status_map [] = refl
statuses-status_map (t ∷ ts) = rw (statuses-status_map ts) refl

and_then-NoneActive :
    {A B : Type 0} (r : Result A) (k : M B) (s : Store)
    → NoneActive s
    → ((s' : Store) → NoneActive s' → NoneActive (k s').1)
    → NoneActive (and_then r (λ _. k) s).1
and_then-NoneActive (ok a) k s h rest = rest s h
and_then-NoneActive (err e) k s h rest = h

module _ (w : World) where
  cancel_deadlocked-NoneActive :
      (id : ℕ) (status : TaskStatus) (s : Store)
      → NoneActive s
      → NoneActive (cancel_deadlocked w (id, status) s).1
  unfolding cancel_deadlocked
  cancel_deadlocked-NoneActive id status s h =
      elim (Bool-cases (is_scheduled status || is_on_error_only status)) [
        | inr other ↦ rw other h
        | inl waits ↦ elim (Option-cases (status_of id s)) [
          | inl missing ↦
              rw (waits, set_task_status_missing id TaskStatus.canceled_from_deadlock s missing) h
          | inr (a, now) ↦
              rw (waits, set_task_status_ok id TaskStatus.canceled_from_deadlock s now)
                (active-set_status id TaskStatus.canceled_from_deadlock (tasks_of s) refl h)
        ]
      ]

  pub strand-NoneActive :
      (stats : Dict TaskStatus) (s : Store)
      → NoneActive s
      → NoneActive (for_each (cancel_deadlocked w) stats s).1
  unfolding for_each
  strand-NoneActive [] s h = h
  strand-NoneActive ((id, status) ∷ stats) s h =
      and_then-NoneActive (cancel_deadlocked w (id, status) s).0
        (for_each (cancel_deadlocked w) stats) (cancel_deadlocked w (id, status) s).1
        (cancel_deadlocked-NoneActive id status s h) (strand-NoneActive stats)
