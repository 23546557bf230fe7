-- ===== src/Transport/RoundTrip.antt =====
-- What is sent is what is read.
use cloudshift.Prelude.{ℕ, List, ◌++◌, length, ◌==◌, if◌then◌else◌}
use cloudshift.Transport.Bytes.{little_endian}

module _ (compress decompress : List ℕ → List ℕ) where
  -- What the receiver makes of the body is the content.
  abbrev opened : List ℕ × ℕ → List ℕ
  opened body = if body.1 == 0 then body.0 else decompress body.0

  -- The bytes of a message.
  abbrev message : (msg_id : ℕ) → List ℕ × ℕ → List ℕ
  message msg_id body =
      little_endian 4 msg_id
      ++ (little_endian 4 (length body.0) ++ (little_endian 4 body.1 ++ body.0))
