-- ===== src/Transport/Messages.antt =====
-- data_transfer.py, `compression_proxy`, `encode_data` and `encode_eod`. Bytes are numbers below
-- 256, and a path is the bytes of its encoding.
use cloudshift.Prelude.{
  ℕ, Bool, true, false, Option, some, List, ◌∷◌, ◌++◌, length, leb, if◌then◌else◌,
}
use cloudshift.Transport.Bytes.{pack, ◌>>=◌}

-- `compress` stands for zlib, or for the service that is configured in its place.
module _ (compress : List ℕ → List ℕ) where
  -- The data to send, and whether they are compressed.
  abbrev pub compression_proxy : List ℕ → List ℕ × Bool
  compression_proxy content =
      let compressed_data = compress content in
      if leb (length content) (length compressed_data)
      then (content, false)
      else (compressed_data, true)

  -- What is sent for the content, and the length of the inflated content, which is 0 when the
  -- content is not compressed.
  abbrev pub deflated : (use_compression : Bool) → List ℕ → List ℕ × ℕ
  deflated false content = (content, 0)
  deflated true content =
      let proxied = compression_proxy content in
      if proxied.1 then (proxied.0, length content) else (content, 0)

  abbrev pub inflated_content : (path : List ℕ) (offset : List ℕ) (content : List ℕ) → List ℕ
  inflated_content path offset content = path ++ 0 ∷ (offset ++ content)

  abbrev pub framed : (msg_id : ℕ) → List ℕ × ℕ → Option (List ℕ)
  framed msg_id body = do
    id ← pack 4 msg_id
    data_len ← pack 4 (length body.0)
    data_len_inflated ← pack 4 body.1
    some (id ++ (data_len ++ (data_len_inflated ++ body.0)))

  unfoldable pub encode_data :
      (msg_id : ℕ) (path : List ℕ) (offset : ℕ) (content : List ℕ) (use_compression : Bool)
      → Option (List ℕ)
  encode_data msg_id path offset content use_compression = do
    packed ← pack 8 offset
    framed msg_id (deflated use_compression (inflated_content path packed content))

unfoldable pub encode_eod : (msg_id : ℕ) → Option (List ℕ)
encode_eod msg_id = do id ← pack 4 msg_id; data_len ← pack 4 0; some (id ++ data_len)
