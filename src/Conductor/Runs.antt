-- ===== src/Conductor/Runs.antt =====
-- Rules for statements: what they do to the rows, whether they return or raise.
use cloudshift.Prelude.{ℕ, ◌≤◌, ◌<◌, ◌≡◌, refl, ◌≢◌, Bool, true, false, some, if◌then◌else◌, arith}
use cloudshift.Constants.{TaskStatus}
use cloudshift.Conductor.Store.{Store, status_of, tasks_of}
use cloudshift.Conductor.Effects.{
  Result, ok, err, Error, out_of_fuel, M, pure, raise, and_then, handle, try_except, ◌>>=◌, ◌>>◌,
  set_task_status,
}
use cloudshift.Conductor.Diagram.{◌⟶*◌}
use cloudshift.Conductor.Rows.{to_launch, launchable, set_task_status_ok}
use cloudshift.Conductor.Evolves.{
  begun, Evolves, Evolves-refl, Evolves-trans, Evolves-quiet, Evolves-with_status,
}

-- From `s`: the rows evolve, and with less than `n` tasks left to launch the fuel does not run out.
pub record Ran (n : ℕ) {A : Type 0} (s : Store) (r : Result A) (s' : Store) : Type 0 where
  pub evolves : Evolves s s'
  pub fueled : launchable (tasks_of s) < n → r ≢ err out_of_fuel

-- A record of its own, so that rules are found by the statement that they are about.
pub record Runs (n : ℕ) {A : Type 0} (m : M A) (s : Store) : Type 0 where
  pub ran : Ran n s (m s).0 (m s).1

module _ {n : ℕ} where
  pub Runs-pure : {A : Type 0} (a : A) (s : Store) → Runs n (pure a) s
  Runs-pure a s = record { ran = record { evolves = Evolves-refl s; fueled = λ _ e. cc } }

  pub Runs-raise :
      {A : Type 0} (e : Error) (s : Store) → e ≢ out_of_fuel → Runs n (raise {A = A} e) s
  Runs-raise e s other = record {
    ran = record { evolves = Evolves-refl s; fueled = λ _ p. other (cc) };
  }

  Ran-and_then :
      {A B : Type 0} (s s' : Store) (r : Result A) (f : A → M B)
      → Ran n s r s'
      → ((a : A) → r ≡ ok a → Runs n (f a) s')
      → Ran n s (and_then r f s').0 (and_then r f s').1
  Ran-and_then s s' (ok a) f first rest = record {
    evolves = Evolves-trans first.evolves (rest a refl).ran.evolves;
    fueled = λ few. (rest a refl).ran.fueled (omega (arith, first.evolves.launches));
  }
  Ran-and_then s s' (err e) f first rest = record {
    evolves = first.evolves;
    fueled = λ few p. first.fueled few (cc);
  }

  pub Runs-bind :
      {A B : Type 0} (m : M A) (f : A → M B) (s : Store)
      → Runs n m s
      → ((a : A) → (m s).0 ≡ ok a → Runs n (f a) (m s).1)
      → Runs n (m >>= f) s
  Runs-bind m f s first rest = record { ran = Ran-and_then s (m s).1 (m s).0 f first.ran rest }

  pub Runs-seq :
      {A B : Type 0} (m : M B) (k : M A) (s : Store)
      → Runs n m s
      → (Evolves s (m s).1 → Runs n k (m s).1)
      → Runs n (m >> k) s
  Runs-seq m k s first rest = record {
    ran = Ran-and_then s (m s).1 (m s).0 (λ _. k) first.ran (λ _ _. rest first.ran.evolves);
  }

  -- A handler that goes on from the rows that the failed statement left.
  Ran-handle :
      {A : Type 0} (s s' : Store) (r : Result A) (h : Error → M A)
      → Ran n s r s'
      → ((e : Error) → r ≡ err e → Runs n (h e) s')
      → Ran n s (handle r h s').0 (handle r h s').1
  Ran-handle s s' (ok a) h first rest = first
  Ran-handle s s' (err e) h first rest = record {
    evolves = Evolves-trans first.evolves (rest e refl).ran.evolves;
    fueled = λ few. (rest e refl).ran.fueled (omega (arith, first.evolves.launches));
  }

  pub Runs-try_except :
      {A : Type 0} (m : M A) (h : Error → M A) (s : Store)
      → Runs n m s
      → ((e : Error) → (m s).0 ≡ err e → Runs n (h e) (m s).1)
      → Runs n (try_except m h) s
  Runs-try_except m h s first rest = record { ran = Ran-handle s (m s).1 (m s).0 h first.ran rest }

  pub Runs-if :
      {A : Type 0} (b : Bool) (m k : M A) (s : Store)
      → (b ≡ true → Runs n m s)
      → (b ≡ false → Runs n k s)
      → Runs n (if b then m else k) s
  Runs-if true m k s yes_case no_case = yes_case refl
  Runs-if false m k s yes_case no_case = no_case refl

  pub Runs-set_task_status :
      (id : ℕ) (b : TaskStatus) (s : Store) {a : TaskStatus}
      → status_of id s ≡ some a
      → a ⟶* b
      → to_launch (some b) ≤ to_launch (some a)
      → Runs n (set_task_status id b) s
  Runs-set_task_status id b s now path less = record {
    ran =
        rw (set_task_status_ok id b s now)
          (record { evolves = Evolves-with_status id b s now path less; fueled = λ _ p. cc });
  }

  -- Statements that leave the tasks alone and begin none.
  pub Runs-quiet :
      {A : Type 0} (m : M A) (s : Store)
      → tasks_of (m s).1 ≡ tasks_of s
      → ((id : ℕ) → begun id (m s).1.log ≡ begun id s.log)
      → (m s).0 ≢ err out_of_fuel
      → Runs n m s
  Runs-quiet m s same quiet fine = record {
    ran = record { evolves = Evolves-quiet s (m s).1 same quiet; fueled = λ _. fine };
  }
