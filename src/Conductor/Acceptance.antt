-- ===== src/Conductor/Acceptance.antt =====
-- conductor/rpc/server.py, `set_task_host` and `set_task_process`: how a worker takes a task.
use cloudshift.Prelude.{
  ℕ, suc, ◌≡◌, refl, ap, true, Option, none, some, List, [], ◌∷◌, ◌==◌, ◌∙◌, ◌⊎◌, Bool-cases,
  Option-cases, inl, inr,
}
use cloudshift.Constants.{TaskStatus}
use cloudshift.Conductor.Store.{Task, Store, World, find_task, put_task, tasks_of}
use cloudshift.Conductor.Effects.{
  Error, ok, err, get_task, set_task_status, set_task_host_properties, update_task, replaced, ◌>>◌,
  pure, raise,
}
use cloudshift.Conductor.Reports.{
  host_status, has_host, accepts_process, set_task_host, set_task_process,
}
use cloudshift.Conductor.Requests.{host_set, process_set, handle_request, serve}

find_task-put_task :
    (id : ℕ) (f : Task → Task) (ts : List Task) {t : Task}
    → ((u : Task) → (f u).id ≡ u.id)
    → find_task id ts ≡ some t
    → find_task id (put_task id f ts) ≡ some (f t)
unfolding find_task put_task
find_task-put_task id f [] keeps h = cc
find_task-put_task id f (u ∷ us) {t} keeps h = elim (Bool-cases (u.id == id)) [
  | inl same ↦
      let here : some u ≡ some t = rw same at h in
      let still : ((f u).id == id) ≡ true = rw (keeps u) same in rw (same, still) (ap mapped here)
  | inr other ↦ rw (other, other) (find_task-put_task id f us {t = t} keeps (rw other at h))
]
  where
    mapped : Option Task → Option Task
    mapped none = none
    mapped (some u) = some (f u)

abbrev on_tasks : (List Task → List Task) → Store → Store
on_tasks f s = record s { execution = record s.execution { tasks = f s.execution.tasks } }

module _ (id : ℕ) (s : Store) {t : Task} (found : find_task id (tasks_of s) ≡ some t) where
  update_task-ok : (f : Task → Task) → update_task id f s ≡ (ok tt, on_tasks (put_task id f) s)
  unfolding update_task
  update_task-ok f = rw found refl

  -- Two writes to a row that is there both succeed, and the row shows them.
  written_twice :
      (f g : Task → Task)
      → ((u : Task) → (f u).id ≡ u.id)
      → (update_task id f >> update_task id g) s
        ≡ (ok tt, on_tasks (λ ts. put_task id g (put_task id f ts)) s)
  unfolding update_task
  written_twice f g keeps = rw (found, find_task-put_task id f (tasks_of s) keeps found) refl

abbrev with_status_of : TaskStatus → Task → Task
with_status_of status u = record u { status = status }

abbrev with_host : Option ℕ → Option ℕ → Task → Task
with_host host process u = record u {
  host = replaced host u.host;
  process_id = replaced process u.process_id;
}

-- What both handlers write.
abbrev taken : ℕ → Option ℕ → Option ℕ → TaskStatus → List Task → List Task
taken id host process status ts =
    put_task id (with_status_of status) (put_task id (with_host host process) ts)

module _ (id : ℕ) (s : Store) {t : Task} (found : find_task id (tasks_of s) ≡ some t) where
  find_task-taken :
      (host process : Option ℕ) (status : TaskStatus)
      → find_task id (taken id host process status (tasks_of s))
        ≡ some (with_status_of status (with_host host process t))
  find_task-taken host process status =
      find_task-put_task id (with_status_of status)
        (put_task id (with_host host process) (tasks_of s)) (λ u. refl)
        (find_task-put_task id (with_host host process) (tasks_of s) (λ u. refl) found)

  set_task_host-accepts :
      (host : ℕ) (status : TaskStatus)
      → host_status t.status ≡ pure status
      → set_task_host id host s ≡ (ok tt, on_tasks (taken id (some host) none status) s)
  unfolding set_task_host set_task_host_properties set_task_status get_task
  set_task_host-accepts host status e = rw (found, e) (written_twice id s found _ _ (λ u. refl))

  set_task_process-accepts :
      (process : ℕ)
      → has_host t.host ≡ true
      → accepts_process t.status ≡ true
      → set_task_process id process s
        ≡ (ok tt, on_tasks (taken id none (some process) TaskStatus.running) s)
  unfolding set_task_process set_task_host_properties set_task_status get_task
  set_task_process-accepts process e e' =
      rw (found, e, e') (written_twice id s found _ _ (λ u. refl))

-- A task that is PENDING runs once a worker has reported its host and its process: its row has both
-- and the status RUNNING.
pub host_set-process_set :
    (w : World) (id host process : ℕ) (s : Store) {t : Task}
    → find_task id (tasks_of s) ≡ some t
    → t.status ≡ TaskStatus.pending
    → find_task id
        (tasks_of (serve w (host_set id (suc host) ∷ process_set id (suc process) ∷ []) s))
      ≡ some (record t {
        host = some (suc host);
        process_id = some (suc process);
        status = TaskStatus.running;
      })
unfolding serve handle_request host_status
host_set-process_set w id host process s found now =
    let s1 : Store = on_tasks (taken id (some (suc host)) none TaskStatus.starting) s in
    let found1 : find_task id (tasks_of s1) ≡ some _ =
      find_task-taken id s found (some (suc host)) none TaskStatus.starting in
    let host_taken =
      set_task_host-accepts id s found (suc host) TaskStatus.starting (rw now refl) in
    let process_taken = set_task_process-accepts id s1 found1 (suc process) refl refl in
    ap (λ r. find_task id (tasks_of (set_task_process id (suc process) r.1).1)) host_taken
    ∙ ap (λ r. find_task id (tasks_of r.1)) process_taken
    ∙ find_task-taken id s1 found1 none (some (suc process)) TaskStatus.running

host_status-cases :
    (status : TaskStatus)
    → ((e : Error) × (host_status status ≡ raise e))
      ⊎ ((next : TaskStatus) × (host_status status ≡ pure next))
unfolding host_status
host_status-cases TaskStatus.cancelling = inl (_, refl)
host_status-cases TaskStatus.cancelling_after_completion = inr (_, refl)
host_status-cases TaskStatus.pending = inr (_, refl)
host_status-cases _ = inl (_, refl)

-- Where a host is refused, because the task is not there or its status does not allow it, nothing
-- is written.
pub set_task_host-refused :
    (id host : ℕ) (s : Store) {e : Error}
    → (set_task_host id host s).0 ≡ err e
    → (set_task_host id host s).1 ≡ s
unfolding set_task_host get_task
set_task_host-refused id host s refused = elim (Option-cases (find_task id (tasks_of s))) [
  | inl missing ↦ rw missing refl
  | inr (t, found) ↦ elim (host_status-cases t.status) [
    | inl (e, is) ↦ rw (found, is) refl
    | inr (next, is) ↦
        absurd (ok-ne-err (rw (set_task_host-accepts id s found host next is) at refused))
  ]
]
  where
    ok-ne-err : {A : Type 0} {a : A} {e : Error} → ok a ≡ err e → ⊥
    ok-ne-err e = cc
