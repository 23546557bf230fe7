-- ===== src/Conductor/Life.antt =====
-- The life of a task under any series of requests: conductor/rpc/server.py as a whole.
use cloudshift.Prelude.{
  ℕ, ◌≤◌, ◌≡◌, refl, ap, ◌∙◌, ◌≢◌, true, Option, none, some, List, [], arith, inl, inr, ◌⊎◌,
}
use cloudshift.Constants.{TaskStatus}
use cloudshift.Conductor.Store.{Store, World, status_of, tasks_of}
use cloudshift.Conductor.Effects.{err, out_of_fuel}
use cloudshift.Conductor.Diagram.{Moves, moved, absent, is_settled, ⟶*-settled}
use cloudshift.Conductor.Rows.{to_launch, launchable}
use cloudshift.Conductor.Evolves.{Distinct, ids_of, begun}
use cloudshift.Conductor.Requests.{Request, handle_request, serve}
use cloudshift.Conductor.RequestRuns.{handle_request-Runs, serve-Evolves}

to_launch-le-one : (o : Option TaskStatus) → to_launch o ≤ 1
to_launch-le-one none = omega arith
to_launch-le-one (some a) = ground arith

-- Whatever requests arrive in whatever order, and whatever the other services answer to any call, a
-- worker is asked to begin a task at most once, if the identifiers of the tasks are distinct and no
-- task was begun before.
pub begun-serve-le-one :
    (w : World) (rs : List Request) (s : Store) (id : ℕ)
    → Distinct (ids_of s)
    → s.log ≡ []
    → begun id (serve w rs s).log ≤ 1
unfolding begun
begun-serve-le-one w rs s id d fresh =
    let none_begun : begun id s.log ≡ 0 = rw fresh refl in
    omega (arith, (serve-Evolves w rs s d).begins id, none_begun, to_launch-le-one (status_of id s))

-- A request is never stopped by the bound on the depth of the calls between the state advancement
-- and the cancellation: their recursion ends, if the identifiers of the tasks are distinct.
pub handle_request-ne-out_of_fuel :
    (w : World) (r : Request) (s : Store)
    → Distinct (ids_of s)
    → (handle_request w r s).0 ≢ err out_of_fuel
handle_request-ne-out_of_fuel w r s d =
    (handle_request-Runs (launchable (tasks_of s)) w r s d).ran.fueled (omega arith)

-- Under any series of requests the status of every task moves along the diagram of statuses, and
-- no task appears or disappears, if the identifiers of the tasks are distinct.
pub serve-Moves :
    (w : World) (rs : List Request) (s : Store) (id : ℕ)
    → Distinct (ids_of s)
    → Moves (status_of id s) (status_of id (serve w rs s))
serve-Moves w rs s id d = (serve-Evolves w rs s d).moves id

moved-settled :
    {a : TaskStatus} (o p : Option TaskStatus)
    → Moves o p
    → o ≡ some a
    → is_settled a ≡ true
    → (p ≡ some a) ⊎ (p ≡ some TaskStatus.error)
moved-settled o p absent e h = absurd (no_row e)
  where
    no_row : {a : TaskStatus} → none ≡ some a → ⊥
    no_row e = cc
moved-settled o p (moved {a = x} {b} path) e h = elim (⟶*-settled path (rw (some_eq e) h)) [
  | inl same ↦ inl (ap some same ∙ e)
  | inr failed ↦ inr (ap some failed)
]
  where
    some_eq : {a x : TaskStatus} → some x ≡ some a → x ≡ a
    some_eq e = cc

-- A task whose status is final, other than that of a failed cancellation, keeps that very status
-- under any series of requests, or it turns into ERROR, if the identifiers of the tasks are
-- distinct: it is never started, run, completed or cancelled afterwards.
pub serve-settled :
    (w : World) (rs : List Request) (s : Store) (id : ℕ) {a : TaskStatus}
    → Distinct (ids_of s)
    → status_of id s ≡ some a
    → is_settled a ≡ true
    → (status_of id (serve w rs s) ≡ some a) ⊎ (status_of id (serve w rs s) ≡ some TaskStatus.error)
serve-settled w rs s id d now h =
    moved-settled (status_of id s) (status_of id (serve w rs s)) (serve-Moves w rs s id d) now h
