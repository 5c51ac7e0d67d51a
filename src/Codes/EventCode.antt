-- ===== src/Codes/EventCode.antt =====
-- mtp/ptp/EventCode.values.h: the enumerators of `EventCode`, each with its 16-bit value.
use Prim.Native.String.{String}
use zune_sync.Base.{ℕ, List, [], ◌∷◌}

abbrev pub transaction_cancelled : ℕ
transaction_cancelled = 0x4001

abbrev pub object_added : ℕ
object_added = 0x4002

abbrev pub object_removed : ℕ
object_removed = 0x4003

abbrev pub store_added : ℕ
store_added = 0x4004

abbrev pub store_removed : ℕ
store_removed = 0x4005

abbrev pub device_prop_changed : ℕ
device_prop_changed = 0x4006

abbrev pub object_info_changed : ℕ
object_info_changed = 0x4007

abbrev pub device_info_changed : ℕ
device_info_changed = 0x4008

abbrev pub request_object_transfer : ℕ
request_object_transfer = 0x4009

abbrev pub store_full : ℕ
store_full = 0x400a

abbrev pub device_reset : ℕ
device_reset = 0x400b

abbrev pub storage_info_changed : ℕ
storage_info_changed = 0x400c

abbrev pub capture_complete : ℕ
capture_complete = 0x400d

abbrev pub unreported_status : ℕ
unreported_status = 0x400e

abbrev pub object_prop_changed : ℕ
object_prop_changed = 0xc801

abbrev pub object_prop_desc_changed : ℕ
object_prop_desc_changed = 0xc802

abbrev pub object_reference_changed : ℕ
object_reference_changed = 0xc803

-- What the macro `ENUM_VALUE` lists: name and value.
unfoldable pub enumerators : List (String × ℕ)
enumerators =
    ("TransactionCancelled", transaction_cancelled)
    ∷ ("ObjectAdded", object_added)
    ∷ ("ObjectRemoved", object_removed)
    ∷ ("StoreAdded", store_added)
    ∷ ("StoreRemoved", store_removed)
    ∷ ("DevicePropChanged", device_prop_changed)
    ∷ ("ObjectInfoChanged", object_info_changed)
    ∷ ("DeviceInfoChanged", device_info_changed)
    ∷ ("RequestObjectTransfer", request_object_transfer)
    ∷ ("StoreFull", store_full)
    ∷ ("DeviceReset", device_reset)
    ∷ ("StorageInfoChanged", storage_info_changed)
    ∷ ("CaptureComplete", capture_complete)
    ∷ ("UnreportedStatus", unreported_status)
    ∷ ("ObjectPropChanged", object_prop_changed)
    ∷ ("ObjectPropDescChanged", object_prop_desc_changed)
    ∷ ("ObjectReferenceChanged", object_reference_changed)
    ∷ []
