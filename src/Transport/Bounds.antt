-- ===== src/Transport/Bounds.antt =====
-- The sizes of messages.
use cloudshift.Prelude.{
  ℕ, suc, ◌+◌, ◌≤◌, ◌<◌, ◌≡◌, refl, sym, ap, ◌∙◌, Bool, true, false, Option, none, some, List, ◌∷◌,
  ◌++◌, length, leb, arith, Bool-cases, inl, inr, ◌⊎◌,
}
use cloudshift.Transport.Bytes.{limit, pack, length-little_endian, length-++, ◌>>=◌}
use cloudshift.Transport.Messages.{deflated, inflated_content, framed, encode_data}

bind_some_inv :
    {A B : Type 0} (m : Option A) (f : A → Option B) (b : B)
    → (m >>= f) ≡ some b
    → (a : A) × (m ≡ some a) × (f a ≡ some b)
bind_some_inv none f b h = ground (arith, h)
bind_some_inv (some a) f b h = (a, refl, h)

abbrev length_or : ℕ → Option (List ℕ) → ℕ
length_or n none = n
length_or n (some bytes) = length bytes

pack_inv :
    (width n : ℕ) (bytes : List ℕ)
    → pack width n ≡ some bytes
    → (n < limit width) × (length bytes ≡ width)
pack_inv width n bytes h = from (Bool-cases (leb (suc n) (limit width))) h
  where
    from :
        (leb (suc n) (limit width) ≡ true) ⊎ (leb (suc n) (limit width) ≡ false)
        → pack width n ≡ some bytes
        → (n < limit width) × (length bytes ≡ width)
    from (inl e) q =
        (ground (arith, e), sym (ap (length_or 0) (rw e at q)) ∙ length-little_endian width n)
    from (inr e) q = ground (arith, e, q)

module _ (compress : List ℕ → List ℕ) where
  length-deflated :
      (use_compression : Bool) (content : List ℕ)
      → length (deflated compress use_compression content).0 ≤ length content
  length-deflated false content = omega arith
  length-deflated true content = ground arith

  framed_inv :
      (msg_id : ℕ) (body : List ℕ × ℕ) (bytes : List ℕ)
      → framed compress msg_id body ≡ some bytes
      → (msg_id < limit 4) × (length bytes ≡ 12 + length body.0)
  framed_inv msg_id body bytes h =
      let (id, p, h1) = bind_some_inv (pack 4 msg_id) _ bytes h in
      let (len, q, h2) = bind_some_inv (pack 4 (length body.0)) _ bytes h1 in
      let (inflated, r, h3) = bind_some_inv (pack 4 body.1) _ bytes h2 in
      let same : length (id ++ (len ++ (inflated ++ body.0))) ≡ length bytes =
        ap (length_or 0) h3 in
      (
        (pack_inv 4 msg_id id p).0,
        omega (
          arith,
          same,
          length-++ id (len ++ (inflated ++ body.0)),
          length-++ len (inflated ++ body.0),
          length-++ inflated body.0,
          (pack_inv 4 msg_id id p).1,
          (pack_inv 4 (length body.0) len q).1,
          (pack_inv 4 body.1 inflated r).1,
        ),
      )

-- A message that can be sent has an identifier below 2^32 and an offset below 2^64, and is at most
-- 21 bytes longer than its path and its content together, whatever the compression does.
pub encode_data-limit :
    (compress : List ℕ → List ℕ) (msg_id : ℕ) (path : List ℕ) (offset : ℕ) (content : List ℕ)
    (use_compression : Bool) (bytes : List ℕ)
    → encode_data compress msg_id path offset content use_compression ≡ some bytes
    → (msg_id < 4294967296)
      × (offset < 18446744073709551616)
      × (length bytes ≤ 21 + (length path + length content))
unfolding encode_data
encode_data-limit compress msg_id path offset content use_compression bytes h =
    let (packed, p, h1) = bind_some_inv (pack 8 offset) _ bytes h in
    let body = deflated compress use_compression (inflated_content compress path packed content) in
    let frame = framed_inv compress msg_id body bytes h1 in
    (
      frame.0,
      (pack_inv 8 offset packed p).0,
      omega (
        arith,
        frame.1,
        (pack_inv 8 offset packed p).1,
        length-deflated compress use_compression (inflated_content compress path packed content),
        length-++ path (0 ∷ (packed ++ content)),
        length-++ packed content,
      ),
    )
