-- ===== src/Session/Transaction.antt =====
-- `Session`: requests, answers, and the transaction that puts them together.
use zune_sync.Base.{
  ℕ, false, not, ◌&&◌, ◌==◌, if◌then◌else◌, List, [], ◌∷◌, ◌++◌, length, Option, none, some, Error,
  Result, ok, err, throw_if,
}
use zune_sync.Base.Dict.{equal_bytes}
use zune_sync.Codes.OperationCode
use zune_sync.Codes.ResponseType
use zune_sync.Stream.Input.{Reader, parse_response}
use zune_sync.Messages.Device.{DeviceInfo, read_device_info, supports_operation}
use zune_sync.Request.ContainerType
use zune_sync.Request.{operation_request, data_request, container, stream_container}
use zune_sync.Pipe.ByteStreams.{ByteArrayOutput}
use zune_sync.Pipe.Packeter.{Transfer, Answer, read, read_bytes}
use zune_sync.Base
use zune_sync.Pipe.ByteStreams.{input_new}
use zune_sync.Pipe.Joined.{JoinedInput, joined_read, joined_size}
use zune_sync.Session.State.{Session, Method, ◌>>=◌, ◌>>◌, return, lift, with_transaction, write}

-- `Send(OperationRequest(code, transaction, args...))`
unfoldable pub send : ℕ → ℕ → List ℕ → Method (Unit {0})
send code transaction args = do
  request ← lift (operation_request code transaction args)
  bytes ← lift (container ContainerType.command request)
  write bytes

-- `CHECK_RESPONSE`. A finished `Read` has always set the code.
unfoldable pub check_response : Option ℕ → Result (Unit {0})
check_response none = err (Error.invalid_response 0)
check_response (some code) =
    throw_if (not (code == ResponseType.ok) && not (code == ResponseType.session_already_open))
      (Error.invalid_response code)

-- `_packeter.Read` into a new byte array.
unfoldable pub receive : ℕ → Method (Answer ByteArrayOutput)
receive transaction s =
    let r = read_bytes transaction s.incoming in (r.0, record s { incoming = r.1 })

-- `Get`: the data, and the response.
unfoldable pub get : ℕ → Method (List ℕ × List ℕ)
get transaction = do
  answer ← receive transaction
  lift (check_response answer.code)
  return (answer.sink.bytes, answer.response)

-- The data phase with a stream of these bytes.
-- What the pipe reads of `JoinedObjectInputStream` over a byte array and the stream, by a buffer of its
-- size.
unfoldable pub joined_bytes : List ℕ → List ℕ → Result (List ℕ)
joined_bytes head stream =
    let joined : JoinedInput = record {
      stream1 = input_new head;
      stream2 = input_new stream;
      exhausted = false;
      cancelled = false;
    } in
    Base.◌>>=◌ (joined_read joined (joined_size joined)) (λ r. ok r.0)

unfoldable pub send_data : ℕ → ℕ → List ℕ → Method (Unit {0})
send_data code transaction stream = do
  request ← lift (data_request code transaction)
  bytes ← lift (stream_container ContainerType.data_block request (length stream))
  (λ s.
      if s.separate_bulk_writes
      then (write bytes >> write stream) s
      else (lift (joined_bytes bytes stream) >>= λ joined. write joined) s)

unfoldable pub send_optional_data : ℕ → ℕ → Option (List ℕ) → Method (Unit {0})
send_optional_data code transaction none = return tt
send_optional_data code transaction (some stream) = send_data code transaction stream

-- `RunTransactionWithDataRequest`: an operation that the device does not know is not begun.
unfoldable pub run_transaction_with_data : ℕ → Option (List ℕ) → List ℕ → Method (List ℕ × List ℕ)
run_transaction_with_data code stream args s =
    if supports_operation s.device_info code
    then with_transaction
        (λ transaction. do
          send code transaction args
          send_optional_data code transaction stream
          get transaction)
        s
    else (err (Error.not_supported code), s)

-- `RunTransaction`: no stream, and only the data count.
unfoldable pub run_transaction : ℕ → List ℕ → Method (List ℕ)
run_transaction code args = do answer ← run_transaction_with_data code none args; return (answer.0)

-- `ParseResponse<...>(RunTransaction(...))`
unfoldable pub run_and_parse : {A : Type 0} → Reader A → ℕ → List ℕ → Method A
run_and_parse read code args = do
  data_bytes ← run_transaction code args
  lift (parse_response read data_bytes)

-- `GetDeviceInfo(packeter, transactionId)`: the answer may carry any transaction number.
unfoldable pub get_device_info : ℕ → Method DeviceInfo
get_device_info transaction = do
  send OperationCode.get_device_info transaction []
  answer ← get 0
  lift (parse_response read_device_info (answer.0))

-- `"Microsoft"`
abbrev pub microsoft : List ℕ
microsoft = b'M' ∷ b'i' ∷ b'c' ∷ b'r' ∷ b'o' ∷ b's' ∷ b'o' ∷ b'f' ∷ b't' ∷ []

-- The constructor after its first transaction.
unfoldable pub set_capabilities : DeviceInfo → Session → Session
set_capabilities info s = record s {
  device_info = info;
  separate_bulk_writes = equal_bytes info.manufacturer microsoft;
  get_partial_object64_supported = supports_operation info OperationCode.get_partial_object64;
  get_object_property_list_supported = supports_operation info OperationCode.get_object_prop_list;
  get_object_prop_value_supported = supports_operation info OperationCode.get_object_prop_value;
  edit_object_supported =
      supports_operation info OperationCode.begin_edit_object
      && supports_operation info OperationCode.end_edit_object
      && supports_operation info OperationCode.truncate_object
      && supports_operation info OperationCode.send_partial_object;
}

-- The members before the constructor's body.
abbrev pub blank_info : DeviceInfo
blank_info = record {
  standard_version = 0;
  vendor_extension_id = 0;
  vendor_extension_version = 0;
  vendor_extension_desc = [];
  functional_mode = 0;
  operations_supported = [];
  events_supported = [];
  device_properties_supported = [];
  capture_formats = [];
  image_formats = [];
  manufacturer = [];
  model = [];
  device_version = [];
  serial_number = [];
}

abbrev pub blank : List Transfer → Session
blank incoming = record {
  next_transaction_id = 1;
  transaction = none;
  device_info = blank_info;
  get_partial_object64_supported = false;
  edit_object_supported = false;
  get_object_property_list_supported = false;
  get_object_prop_value_supported = false;
  separate_bulk_writes = false;
  sent = [];
  control = [];
  faults = [];
  incoming = incoming;
}

-- `Session(packeter, sessionId)`
unfoldable pub session_new : List Transfer → Result Session
session_new incoming =
    let r = with_transaction get_device_info (blank incoming) in
    elim r.0 [ ok info ↦ ok (set_capabilities info (r.1)) | err e ↦ err e ]

-- `Close`: whatever the response says.
unfoldable pub close : Method (Unit {0})
close =
    with_transaction
      λ transaction. do send OperationCode.close_session transaction []; receive 0; return tt

-- `AbortCurrentTransaction`, from another thread: the cancel request of `PipePacketer::Abort`.
unfoldable pub abort_current_transaction : Method (Unit {0})
abort_current_transaction s = elim s.transaction [
  | none ↦ (err Error.no_transaction, s)
  | some transaction ↦ elim (operation_request OperationCode.cancel_transaction transaction []) [
    | ok bytes ↦ (ok tt, record s { control = s.control ++ (bytes ∷ []) })
    | err e ↦ (err e, s)
  ]
]
