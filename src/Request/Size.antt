-- ===== src/Request/Size.antt =====
-- The bytes of requests and containers.
use zune_sync.Base.{
  ℕ, ◌+◌, ◌*◌, ◌≤◌, ◌≡◌, refl, sym, ap, ◌∙◌, List, [], ◌∷◌, ◌++◌, append-nil, length, length-append,
  arith, IsU16, IsU32, le→ltb, u32, ok,
}
use zune_sync.Stream.Input
use zune_sync.Stream.Input.{run, open_stream, read16, read32}
use zune_sync.Stream.Output
use zune_sync.Stream.Output.{Writer, nothing, write16, write32}
use zune_sync.Stream.Codec.{
  Decodes, Encodes, Decodes-bind, Decodes-map, Encodes-then, le16, le32, write16-Encodes,
  write32-Encodes, read16-Decodes, read32-Decodes,
}
use zune_sync.Messages.Object.{max_object_size}
use zune_sync.Request.Frames.{
  write_parameters, request_base, operation_request, data_request, append_data, write_size,
  container, stream_container, Response, read_response,
}

pub parameters_bytes : List ℕ → List ℕ
parameters_bytes [] = []
parameters_bytes (p ∷ ps) = le32 p ++ parameters_bytes ps

write_parameters-Encodes : (ps : List ℕ) → Encodes (write_parameters ps) (parameters_bytes ps)
unfolding write_parameters parameters_bytes
write_parameters-Encodes [] out = ap ok (sym (append-nil out))
write_parameters-Encodes (p ∷ ps) out =
    Encodes-then (write32 p) (write_parameters ps) (le32 p) (parameters_bytes ps)
      (write32-Encodes p) (write_parameters-Encodes ps) out

request_base-Encodes : (op tr : ℕ) → Encodes (request_base op tr) (le16 op ++ le32 tr)
unfolding request_base
request_base-Encodes op tr =
    Encodes-then (write16 op) (write32 tr) (le16 op) (le32 tr) (write16-Encodes op)
      (write32-Encodes tr)

pub operation_request-bytes :
    (op tr : ℕ) (ps : List ℕ)
    → operation_request op tr ps ≡ ok ((le16 op ++ le32 tr) ++ parameters_bytes ps)
unfolding operation_request
operation_request-bytes op tr ps =
    Encodes-then (request_base op tr) (write_parameters ps) (le16 op ++ le32 tr)
      (parameters_bytes ps) (request_base-Encodes op tr) (write_parameters-Encodes ps) []

pub data_request-bytes : (op tr : ℕ) → data_request op tr ≡ ok (le16 op ++ le32 tr)
unfolding data_request
data_request-bytes op tr = request_base-Encodes op tr []

write_size-Encodes : (size : ℕ) → size ≤ max_object_size → Encodes (write_size size) (le32 size)
unfolding write_size
write_size-Encodes size h =
    let e : u32 size ≡ size = omega arith in
    rw (le→ltb max_object_size size h, e) (write32-Encodes size)

pub stream_container-bytes :
    (type : ℕ) (bytes : List ℕ) (stream_size : ℕ)
    → stream_size + length bytes + 6 ≤ max_object_size
    → stream_container type bytes stream_size
      ≡ ok (le32 (stream_size + length bytes + 6) ++ (le16 type ++ bytes))
unfolding stream_container append_data
stream_container-bytes type bytes stream_size h =
    Encodes-then (write_size _) (Output.◌>>◌ (write16 type) (append_data bytes)) (le32 _)
      (le16 type ++ bytes) (write_size-Encodes (stream_size + length bytes + 6) h)
      (Encodes-then (write16 type) (append_data bytes) (le16 type) bytes (write16-Encodes type)
        (λ out. refl))
      []

pub container-bytes :
    (type : ℕ) (bytes : List ℕ)
    → length bytes + 6 ≤ max_object_size
    → container type bytes ≡ ok (le32 (length bytes + 6) ++ (le16 type ++ bytes))
unfolding container append_data
container-bytes type bytes h =
    Encodes-then (write_size _) (Output.◌>>◌ (write16 type) (append_data bytes)) (le32 _)
      (le16 type ++ bytes) (write_size-Encodes (length bytes + 6) h)
      (Encodes-then (write16 type) (append_data bytes) (le16 type) bytes (write16-Encodes type)
        (λ out. refl))
      []

-- A reader at the front of an array ignores what follows.
run-front {ℓ} :
    {A : Type ℓ} (m : Input.Reader A) (a : A) (xs rest : List ℕ)
    → Decodes m a xs
    → run m (xs ++ rest) ≡ ok a
run-front m a xs rest d = rw (d [] rest, run)

pub length-le32 : (v : ℕ) → length (le32 v) ≡ 4
unfolding le32
length-le32 v = refl

-- While it fits a u32, the size field that `Container` writes counts exactly the bytes of the
-- message: those of the container and those of the stream sent after it.
stream_container-size :
    (type : ℕ) (bytes : List ℕ) (stream_size : ℕ)
    → stream_size + length bytes + 6 ≤ max_object_size
    → (out : List ℕ) × (stream_container type bytes stream_size ≡ ok out)
      × (run read32 out ≡ ok (length out + stream_size))
stream_container-size type bytes stream_size h =
    let total = stream_size + length bytes + 6 in
    let count : total ≡ length (le32 total ++ (le16 type ++ bytes)) + stream_size =
      omega (arith, length-append (le32 total) (le16 type ++ bytes), length-le32 total) in
    (
      le32 total ++ (le16 type ++ bytes),
      stream_container-bytes type bytes stream_size h,
      run-front read32 total (le32 total) (le16 type ++ bytes) (read32-Decodes total (omega arith))
          ∙ ap ok count,
    )

-- The header of a message from the device.
pub response_bytes : Response → List ℕ
response_bytes r = le16 r.container_type ++ (le16 r.response_type ++ le32 r.transaction)

pub record IsResponse (r : Response) : Type 0 where
  pub container_type_range : IsU16 r.container_type
  pub response_type_range : IsU16 r.response_type
  pub transaction_range : IsU32 r.transaction

pub length-response_bytes : (r : Response) → length (response_bytes r) ≡ 8
unfolding response_bytes le32
length-response_bytes r = refl

pub read_response-Decodes :
    (r : Response) → IsResponse r → Decodes read_response r (response_bytes r)
unfolding read_response response_bytes
read_response-Decodes r h =
    Decodes-bind read16 _ r.container_type (le16 r.container_type) _
      (read16-Decodes r.container_type h.container_type_range)
      (Decodes-bind read16 _ r.response_type (le16 r.response_type) (le32 r.transaction)
        (read16-Decodes r.response_type h.response_type_range)
        (Decodes-map read32 _ r.transaction (le32 r.transaction)
          (read32-Decodes r.transaction h.transaction_range)))

pub length-parameters_bytes : (args : List ℕ) → length (parameters_bytes args) ≡ 4 * length args
unfolding parameters_bytes
length-parameters_bytes [] = refl
length-parameters_bytes (a ∷ args) = omega (
  arith,
  length-append (le32 a) (parameters_bytes args),
  length-le32 a,
  length-parameters_bytes args,
)
