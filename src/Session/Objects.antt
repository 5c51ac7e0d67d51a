-- ===== src/Session/Objects.antt =====
-- `Session`: storages, objects and their contents.
use zune_sync.Base.{
  ℕ, ◌+◌, ◌/◌, ◌%◌, ◌^◌, ltb, ◌==◌, if◌then◌else◌, List, [], ◌∷◌, length, some, u32, Error, Result,
  err,
}
use zune_sync.Codes.OperationCode
use zune_sync.Codes.ObjectFormat
use zune_sync.Stream.Input.{parse_response}
use zune_sync.PropertyList.Entries.{filename_property}
use zune_sync.Messages.Object.{
  ObjectInfo, read_object_info, write_object_info, ObjectHandles, read_object_handles,
  write_object_handles, ObjectPropertiesSupported, read_object_properties_supported,
  SendObjectPropListResponse, read_send_object_prop_list_response, NewObjectInfo,
  read_new_object_info,
}
use zune_sync.Messages.Device.{
  StorageIds, read_storage_ids, StorageInfo, read_storage_info, supports_operation,
}
use zune_sync.Request.ContainerType
use zune_sync.Request.{data_request, container, stream_container}
use zune_sync.Pipe.Packeter.{read}
use zune_sync.Session.State.{Method, ◌>>=◌, ◌>>◌, return, lift, with_transaction, write}
use zune_sync.Session.Transaction.{
  send, check_response, get, send_data, run_transaction, run_transaction_with_data, run_and_parse,
}

-- `Session::AnyStorage`, `AllStorages`, `Device` and `Root`.
abbrev pub any_storage : ℕ
any_storage = 0

abbrev pub all_storages : ℕ
all_storages = 0xffff_ffff

abbrev pub device : ℕ
device = 0

abbrev pub root : ℕ
root = 0xffff_ffff

unfoldable pub get_object_handles : ℕ → ℕ → ℕ → Method ObjectHandles
get_object_handles storage_id object_format parent =
    run_and_parse read_object_handles OperationCode.get_object_handles
      (storage_id ∷ object_format ∷ parent ∷ [])

unfoldable pub get_storage_ids : Method StorageIds
get_storage_ids = run_and_parse read_storage_ids OperationCode.get_storage_i_ds []

unfoldable pub get_storage_info : ℕ → Method StorageInfo
get_storage_info storage_id =
    run_and_parse read_storage_info OperationCode.get_storage_info (storage_id ∷ [])

unfoldable pub get_object_info : ℕ → Method ObjectInfo
get_object_info object_id =
    run_and_parse read_object_info OperationCode.get_object_info (object_id ∷ [])

unfoldable pub get_object_properties_supported : ℕ → Method ObjectPropertiesSupported
get_object_properties_supported format =
    run_and_parse read_object_properties_supported OperationCode.get_object_props_supported
      (format ∷ [])

unfoldable pub get_object_property_desc : ℕ → ℕ → Method (List ℕ)
get_object_property_desc code format =
    run_transaction OperationCode.get_object_prop_desc (code ∷ format ∷ [])

-- `SendObjectPropList`: the u64 size goes as its two halves; the answer is in the response.
unfoldable pub send_object_prop_list : ℕ → ℕ → ℕ → ℕ → List ℕ → Method SendObjectPropListResponse
send_object_prop_list storage_id parent_id format object_size prop_list = do
  answer ←
      run_transaction_with_data OperationCode.send_object_prop_list (some prop_list)
        (storage_id ∷ parent_id ∷ format ∷ u32 (object_size / 2 ^ 32) ∷ u32 object_size ∷ [])
  lift (parse_response read_send_object_prop_list_response (answer.1))

-- The "modern way" that `CreateDirectory` and `SendObjectInfo` share.
unfoldable pub create_by_name : List ℕ → ℕ → ℕ → ℕ → ℕ → Method NewObjectInfo
create_by_name name storage_id parent_id format object_size = do
  prop_list ← lift (filename_property name [])
  response ← send_object_prop_list storage_id parent_id format object_size prop_list
  return (record {
    storage_id = response.storage_id;
    parent_object_id = response.parent_object_id;
    object_id = response.object_id;
  })

-- The data phase of `SendObjectInfo`: one write, or two on devices that want them apart.
unfoldable pub send_object_info_data : ℕ → ObjectInfo → Method (Unit {0})
send_object_info_data transaction object_info s =
    if s.separate_bulk_writes
    then (do
      info_bytes ← lift (write_object_info object_info [])
      request ← lift (data_request OperationCode.send_object_info transaction)
      bytes ← lift (stream_container ContainerType.data_block request (length info_bytes))
      write bytes
      write info_bytes)
        s
    else (do
      request ← lift (data_request OperationCode.send_object_info transaction)
      request_bytes ← lift (write_object_info object_info request)
      bytes ← lift (container ContainerType.data_block request_bytes)
      write bytes)
        s

unfoldable pub send_object_info : ObjectInfo → ℕ → ℕ → Method NewObjectInfo
send_object_info object_info storage_id parent_object s =
    if length object_info.filename == 0
    then (err Error.empty_filename, s)
    else if supports_operation s.device_info OperationCode.send_object_prop_list
    then create_by_name object_info.filename storage_id parent_object object_info.object_format
        object_info.object_compressed_size s
    else with_transaction
        (λ transaction. do
          send OperationCode.send_object_info transaction (storage_id ∷ parent_object ∷ [])
          send_object_info_data transaction object_info
          answer ← get transaction
          lift (parse_response read_new_object_info (answer.1)))
        s

-- The `ObjectInfo` that `CreateDirectory` fills in.
unfoldable pub directory_info : List ℕ → ℕ → ℕ → ℕ → ObjectInfo
directory_info name parent_id storage_id association_type = record {
  storage_id = storage_id;
  object_format = ObjectFormat.association;
  protection_status = 0;
  object_compressed_size = 0;
  thumb_format = 0;
  thumb_compressed_size = 0;
  thumb_pix_width = 0;
  thumb_pix_height = 0;
  image_pix_width = 0;
  image_pix_height = 0;
  image_bit_depth = 0;
  parent_object = parent_id;
  association_type = association_type;
  association_desc = 0;
  sequence_number = 0;
  filename = name;
  capture_date = [];
  modification_date = [];
  keywords = [];
}

unfoldable pub create_directory : List ℕ → ℕ → ℕ → ℕ → Method NewObjectInfo
create_directory name parent_id storage_id association_type s =
    if supports_operation s.device_info OperationCode.send_object_prop_list
    then create_by_name name storage_id parent_id ObjectFormat.association 0 s
    else send_object_info (directory_info name parent_id storage_id association_type) storage_id
        parent_id s

-- `GetObject` and `GetThumb`: the data go to the caller's stream as they arrive.
unfoldable pub get_to_stream :
    {Sink : Type 0} → (Sink → List ℕ → Result (ℕ × Sink)) → ℕ → ℕ → Sink → Method Sink
get_to_stream sink_write code object_id sink = with_transaction λ transaction. do
  send code transaction (object_id ∷ [])
  answer ← (λ s.
      let r = read sink_write transaction sink s.incoming in (r.0, record s { incoming = r.1 }))
  lift (check_response answer.code)
  return answer.sink

unfoldable pub get_object :
    {Sink : Type 0} → (Sink → List ℕ → Result (ℕ × Sink)) → ℕ → Sink → Method Sink
get_object sink_write object_id sink =
    get_to_stream sink_write OperationCode.get_object object_id sink

unfoldable pub get_thumb :
    {Sink : Type 0} → (Sink → List ℕ → Result (ℕ × Sink)) → ℕ → Sink → Method Sink
get_thumb sink_write object_id sink =
    get_to_stream sink_write OperationCode.get_thumb object_id sink

-- `GetPartialObject`: the sum is computed in 64 bits, and the 32-bit operation is for small ones.
unfoldable pub get_partial_object : ℕ → ℕ → ℕ → Method (List ℕ)
get_partial_object object_id offset size s =
    if s.get_partial_object64_supported
    then run_transaction OperationCode.get_partial_object64
        (object_id ∷ u32 offset ∷ u32 (offset / 2 ^ 32) ∷ size ∷ []) s
    else if ltb 0xffff_ffff ((offset + size) % 2 ^ 64)
    then (err Error.overflow32, s)
    else run_transaction OperationCode.get_partial_object (object_id ∷ u32 offset ∷ size ∷ []) s

-- `SendObject` with a stream of these bytes.
unfoldable pub send_object : List ℕ → Method (Unit {0})
send_object stream = with_transaction λ transaction. do
  send OperationCode.send_object transaction []
  send_data OperationCode.send_object transaction stream
  get transaction
  return tt

unfoldable pub delete_object : ℕ → Method (Unit {0})
delete_object object_id = do
  run_transaction OperationCode.delete_object (object_id ∷ 0 ∷ [])
  return tt

unfoldable pub set_object_references : ℕ → ObjectHandles → Method (Unit {0})
set_object_references object_id objects = do
  handles_bytes ← lift (write_object_handles objects [])
  run_transaction_with_data OperationCode.set_object_references (some handles_bytes)
      (object_id ∷ [])
  return tt

unfoldable pub get_object_references : ℕ → Method ObjectHandles
get_object_references object_id =
    run_and_parse read_object_handles OperationCode.get_object_references (object_id ∷ [])
