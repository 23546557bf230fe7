-- ===== src/Prelude/Maps.antt =====
-- Dictionaries from identifiers, as association lists in order of insertion.
use Prim.Native.Nat.{ℕ}
use mathlib.Core.Path.{◌≡◌, refl}
use mathlib.Core.Option.{Option, none, some}
use mathlib.Core.List.{List, [], ◌∷◌}
use native.Mathlib.Omega.{arith}
use cloudshift.Prelude.Tests.{◌==◌, if◌then◌else◌}

abbrev pub Dict : Type 0 → Type 0
Dict V = List (ℕ × V)

module _ {V : Type 0} where
  unfoldable pub lookup : (key : ℕ) → Dict V → Option V
  lookup key [] = none
  lookup key (entry ∷ dict) = if entry.0 == key then some entry.1 else lookup key dict

  -- `dict[key] = value`: an old key keeps its place, a new one goes to the end.
  unfoldable pub insert : (key : ℕ) (value : V) → Dict V → Dict V
  insert key value [] = (key, value) ∷ []
  insert key value (entry ∷ dict) =
      let rest = insert key value dict in
      if entry.0 == key then (key, value) ∷ dict else entry ∷ rest

  pub lookup-insert :
      (dict : Dict V) (key : ℕ) (value : V) (other : ℕ)
      → lookup other (insert key value dict)
        ≡ (if key == other then some value else lookup other dict)
  unfolding lookup insert
  lookup-insert [] key value other = refl
  lookup-insert (entry ∷ dict) key value other = ground (arith, lookup-insert dict key value other)
