-- ===== src/Session/Edit.antt =====
-- `Session`: editing an object in place, and the operations that callers name themselves.
use zune_sync.Base.{ℕ, ◌/◌, ◌^◌, List, [], ◌∷◌, length, some, u32}
use zune_sync.Codes.OperationCode
use zune_sync.Session.State.{Method, ◌>>=◌, ◌>>◌, return}
use zune_sync.Session.Transaction.{run_transaction, run_transaction_with_data}

unfoldable pub begin_edit_object : ℕ → Method (Unit {0})
begin_edit_object object_id = do
  run_transaction OperationCode.begin_edit_object (object_id ∷ [])
  return tt

-- A u64 offset goes as its two halves.
unfoldable pub send_partial_object : ℕ → ℕ → List ℕ → Method (Unit {0})
send_partial_object object_id offset data_bytes = do
  run_transaction_with_data OperationCode.send_partial_object (some data_bytes)
      (object_id ∷ u32 offset ∷ u32 (offset / 2 ^ 32) ∷ u32 (length data_bytes) ∷ [])
  return tt

unfoldable pub truncate_object : ℕ → ℕ → Method (Unit {0})
truncate_object object_id size = do
  run_transaction OperationCode.truncate_object (object_id ∷ u32 size ∷ u32 (size / 2 ^ 32) ∷ [])
  return tt

unfoldable pub end_edit_object : ℕ → Method (Unit {0})
end_edit_object object_id = do
  run_transaction OperationCode.end_edit_object (object_id ∷ [])
  return tt

unfoldable pub generic_operation : ℕ → Method (List ℕ)
generic_operation code = run_transaction code []

unfoldable pub generic_operation_with_data : ℕ → List ℕ → Method (List ℕ)
generic_operation_with_data code payload = do
  answer ← run_transaction_with_data code (some payload) []
  return (answer.0)

unfoldable pub enable_secure_file_operations : ℕ → ℕ → ℕ → ℕ → Method (Unit {0})
enable_secure_file_operations cmac0 cmac1 cmac2 cmac3 = do
  run_transaction OperationCode.enable_trusted_files_operations (cmac0 ∷ cmac1 ∷ cmac2 ∷ cmac3 ∷ [])
  return tt

unfoldable pub reboot_device : Method (Unit {0})
reboot_device = do run_transaction OperationCode.reboot_device []; return tt
