-- ===== src/Transport/Receiver.antt =====
-- How the messages are to be read: an independent description of the format of data_transfer.py.
use cloudshift.Prelude.{
  ℕ, zero, suc, ◌≡◌, refl, false, Option, none, some, List, [], ◌∷◌, ◌++◌, length, ◌==◌,
  if◌then◌else◌, All,
}
use cloudshift.Transport.Bytes.{value, ◌>>=◌}

pub data Message : Type 0 where
  chunk : (msg_id : ℕ) (path : List ℕ) (offset : ℕ) (content : List ℕ) → Message
  end_of_data : (msg_id : ℕ) → Message

-- The first so many bytes, and the rest.
abbrev pub split : ℕ → List ℕ → Option (List ℕ × List ℕ)
split zero bytes = some ([], bytes)
split (suc n) [] = none
split (suc n) (b ∷ bytes) = split n bytes >>= (λ r. some (b ∷ r.0, r.1))

abbrev pub read_number : (width : ℕ) → List ℕ → Option (ℕ × List ℕ)
read_number width bytes = split width bytes >>= (λ r. some (value r.0, r.1))

-- The bytes up to the first null byte, and those after it.
abbrev pub split_null : List ℕ → Option (List ℕ × List ℕ)
split_null [] = none
split_null (b ∷ bytes) =
    let rest = split_null bytes in
    if b == 0 then some ([], bytes) else rest >>= (λ r. some (b ∷ r.0, r.1))

abbrev pub read_payload : (msg_id : ℕ) → List ℕ → Option Message
read_payload msg_id payload = do
  named ← split_null payload
  at ← read_number 8 named.1
  some (chunk msg_id named.0 at.0 at.1)

module _ (decompress : List ℕ → List ℕ) where
  abbrev pub read_body : (msg_id data_len : ℕ) → List ℕ → Option (Message × List ℕ)
  read_body msg_id data_len bytes = do
    inflated_len ← read_number 4 bytes
    body ← split data_len inflated_len.1
    message ← read_payload msg_id (if inflated_len.0 == 0 then body.0 else decompress body.0)
    some (message, body.1)

  -- One message at the front of a stream.
  unfoldable pub read_message : List ℕ → Option (Message × List ℕ)
  read_message bytes = do
    id ← read_number 4 bytes
    data_len ← read_number 4 id.1
    if data_len.0 == 0
        then some (end_of_data id.0, data_len.1)
        else read_body id.0 data_len.0 data_len.1

pub split-length : (xs ys : List ℕ) → split (length xs) (xs ++ ys) ≡ some (xs, ys)
split-length [] ys = refl
split-length (x ∷ xs) ys = rw (split-length xs ys) refl

pub split_null-path :
    (path rest : List ℕ)
    → All (λ b. (b == 0) ≡ false) path
    → split_null (path ++ 0 ∷ rest) ≡ some (path, rest)
split_null-path [] rest a = refl
split_null-path (b ∷ path) rest (h, a) = rw (h, split_null-path path rest a) refl
