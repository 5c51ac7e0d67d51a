-- ===== src/Request/Frames.antt =====
-- The frames of mtp/ptp/Container.h, mtp/ptp/OperationRequest.h and mtp/ptp/Response.h.
use zune_sync.Base.{ℕ, ◌+◌, List, [], ◌∷◌, ◌++◌, length, ltb, if◌then◌else◌, u32, Result, ok}
use zune_sync.Stream.Input.{Reader, ◌>>=◌, return, read16, read32}
use zune_sync.Stream.Output.{Writer, ◌>>◌, nothing, write16, write32}
use zune_sync.Messages.Object.{max_object_size}

-- The parameters of a request: the constructors of `OperationRequest` take none to five.
unfoldable pub write_parameters : List ℕ → Writer
write_parameters [] = nothing
write_parameters (par ∷ pars) = do write32 par; write_parameters pars

-- `RequestBase(opcode, transaction)`
unfoldable pub request_base : ℕ → ℕ → Writer
request_base opcode transaction = do write16 opcode; write32 transaction

-- `OperationRequest(opcode, transaction, par1, ...).Data`
unfoldable pub operation_request : ℕ → ℕ → List ℕ → Result (List ℕ)
operation_request opcode transaction pars =
    (do request_base opcode transaction; write_parameters pars) []

-- `DataRequest(opcode, transaction).Data`
unfoldable pub data_request : ℕ → ℕ → Result (List ℕ)
data_request opcode transaction = request_base opcode transaction []

-- `RequestBase::Append`, and the `std::copy` of a container.
unfoldable pub append_data : List ℕ → Writer
append_data bytes out = ok (out ++ bytes)

-- `WriteSize`
unfoldable pub write_size : ℕ → Writer
write_size size = write32 (u32 (if ltb max_object_size size then max_object_size else size))

-- `Container(msg)`
unfoldable pub container : ℕ → List ℕ → Result (List ℕ)
container type bytes = (do write_size (length bytes + 6); write16 type; append_data bytes) []

-- `Container(msg, inputStream)`: the size counts the stream, which is sent after the container.
unfoldable pub stream_container : ℕ → List ℕ → ℕ → Result (List ℕ)
stream_container type bytes stream_size =
    (do write_size (stream_size + length bytes + 6); write16 type; append_data bytes) []

pub record Response : Type 0 where
  pub container_type : ℕ
  pub response_type : ℕ
  pub transaction : ℕ

-- `Response::Size`
abbrev pub response_size : ℕ
response_size = 8

unfoldable pub read_response : Reader Response
read_response = do
  container_type ← read16
  response_type ← read16
  transaction ← read32
  return (record {
    container_type = container_type;
    response_type = response_type;
    transaction = transaction;
  })
