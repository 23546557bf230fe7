-- ===== src/Prelude/Results.antt =====
-- Values or errors, for code that raises.
use mathlib.Core.Path.{◌≡◌, refl, ap}
use mathlib.Core.Bool.{Bool, true, false}
use native.Mathlib.Omega.{arith}
use cloudshift.Prelude.Tests.{if◌then◌else◌}

pub data Fallible (E A : Type 0) : Type 0 where
  done : A → Fallible E A
  raised : E → Fallible E A

module _ {E A B : Type 0} where
  infixl 5 ◌>>=◌
  abbrev pub ◌>>=◌ : Fallible E A → (A → Fallible E B) → Fallible E B
  done a >>= f = f a
  raised e >>= f = raised e

  -- A computation that ends with a value has gone through all its steps.
  pub done_bind :
      (m : Fallible E A) (f : A → Fallible E B) (b : B)
      → (m >>= f) ≡ done b
      → (a : A) × (m ≡ done a) × (f a ≡ done b)
  done_bind (done a) f b h = (a, refl, h)
  done_bind (raised e) f b h = ground (arith, h)

module _ {E : Type 0} where
  -- `if not test: raise`
  abbrev pub ensure : Bool → E → Fallible E Unit
  ensure test error = if test then done tt else raised error

  pub ensure_bind :
      {B : Type 0} (test : Bool) (e : E) (f : Unit → Fallible E B) (b : B)
      → (ensure test e >>= f) ≡ done b
      → (test ≡ true) × (f tt ≡ done b)
  ensure_bind true e f b h = (refl, h)
  ensure_bind false e f b h = ground (arith, h)

  pub ensure_done : (test : Bool) (e : E) → ensure test e ≡ done tt → test ≡ true
  ensure_done true e h = refl
  ensure_done false e h = ground (arith, h)

module _ {E A : Type 0} where
  value_or : A → Fallible E A → A
  value_or a (done b) = b
  value_or a (raised e) = a

  pub done_injective : (a b : A) → ◌≡◌ {A = Fallible E A} (done a) (done b) → a ≡ b
  unfolding value_or
  done_injective a b h = ap (value_or a) h
