-- ===== src/Transport/Bytes.antt =====
-- Numbers as bytes: `struct.pack` with the formats "<I" and "<Q".
use Prim.Native.Nat.{◌*◌, ◌/◌, ◌%◌}
use cloudshift.Prelude.{
  ℕ, zero, suc, ◌+◌, ◌<◌, ◌≡◌, refl, ap, Option, none, some, List, [], ◌∷◌, ◌++◌, length, All, leb,
  if◌then◌else◌, arith,
}

module _ {A B : Type 0} where
  infixl 5 ◌>>=◌
  abbrev pub ◌>>=◌ : Option A → (A → Option B) → Option B
  none >>= f = none
  some a >>= f = f a

-- The numbers of so many bytes are below this one.
abbrev pub limit : (width : ℕ) → ℕ
limit zero = 1
limit (suc width) = 256 * limit width

abbrev pub little_endian : (width n : ℕ) → List ℕ
little_endian zero n = []
little_endian (suc width) n = n % 256 ∷ little_endian width (n / 256)

-- `struct.pack`, which raises for a number that is too large.
abbrev pub pack : (width n : ℕ) → Option (List ℕ)
pack width n = if leb (suc n) (limit width) then some (little_endian width n) else none

-- Numbers as a receiver reads them.
abbrev pub value : List ℕ → ℕ
value [] = 0
value (b ∷ bytes) = b + 256 * value bytes

pub value-little_endian : (width n : ℕ) → n < limit width → value (little_endian width n) ≡ n
value-little_endian zero n lt = omega (arith, lt)
value-little_endian (suc width) n lt =
    omega (arith, lt, value-little_endian width (n / 256) (omega (arith, lt)))

pub length-little_endian : (width n : ℕ) → length (little_endian width n) ≡ width
length-little_endian zero n = refl
length-little_endian (suc width) n = omega (arith, length-little_endian width (n / 256))

pub little_endian-bytes : (width n : ℕ) → All (λ b. b < 256) (little_endian width n)
little_endian-bytes zero n = tt
little_endian-bytes (suc width) n = (omega arith, little_endian-bytes width (n / 256))

pub pack_lem : (width n : ℕ) → n < limit width → pack width n ≡ some (little_endian width n)
pack_lem width n lt = ground (arith, lt)

pub length-++ : (xs ys : List ℕ) → length (xs ++ ys) ≡ length xs + length ys
length-++ [] ys = omega arith
length-++ (x ∷ xs) ys = omega (arith, length-++ xs ys)

pub ++-assoc : (xs ys zs : List ℕ) → (xs ++ ys) ++ zs ≡ xs ++ (ys ++ zs)
++-assoc [] ys zs = refl
++-assoc (x ∷ xs) ys zs = ap (λ l. x ∷ l) (++-assoc xs ys zs)
