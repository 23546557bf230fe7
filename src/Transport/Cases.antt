-- ===== src/Transport/Cases.antt =====
-- The theorems about messages at small inputs, with compressions that undo.
use cloudshift.Prelude.{ℕ, ◌+◌, ◌≤◌, ◌<◌, ◌≡◌, refl, true, some, List, [], ◌∷◌, length}
use cloudshift.Transport.Messages.{encode_data}
use cloudshift.Transport.Bounds.{encode_data-limit}

-- A compression that adds a byte, and its inverse.
abbrev grow : List ℕ → List ℕ
grow bytes = 1 ∷ bytes

abbrev shrink : List ℕ → List ℕ
shrink [] = []
shrink (b ∷ bytes) = bytes

abbrev sent : List ℕ
sent =
    7 ∷ 0 ∷ 0 ∷ 0 ∷ 12 ∷ 0 ∷ 0 ∷ 0 ∷ 0 ∷ 0 ∷ 0 ∷ 0 ∷ 100 ∷ 0 ∷ 1 ∷ 2 ∷ 0 ∷ 0 ∷ 0 ∷ 0 ∷ 0 ∷ 0 ∷ 8 ∷ 9
    ∷ []

encoded : encode_data grow 7 (100 ∷ []) 513 (8 ∷ 9 ∷ []) true ≡ some sent
unfolding encode_data
encoded = refl

encode_data-limit_example :
    (7 < 4294967296) × (513 < 18446744073709551616) × (length sent ≤ 21 + (1 + 2))
encode_data-limit_example = encode_data-limit grow 7 (100 ∷ []) 513 (8 ∷ 9 ∷ []) true sent encoded
