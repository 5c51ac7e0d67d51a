-- ===== src/Codes/ResponseType.antt =====
-- mtp/ptp/ResponseType.values.h: the enumerators of `ResponseType`, each with its 16-bit value.
use Prim.Native.String.{String}
use zune_sync.Base.{ℕ, List, [], ◌∷◌}

abbrev pub ok : ℕ
ok = 0x2001

abbrev pub general_error : ℕ
general_error = 0x2002

abbrev pub session_not_open : ℕ
session_not_open = 0x2003

abbrev pub invalid_transaction : ℕ
invalid_transaction = 0x2004

abbrev pub operation_not_supported : ℕ
operation_not_supported = 0x2005

abbrev pub parameter_not_supported : ℕ
parameter_not_supported = 0x2006

abbrev pub incomplete_transfer : ℕ
incomplete_transfer = 0x2007

abbrev pub invalid_storage_id : ℕ
invalid_storage_id = 0x2008

abbrev pub invalid_object_handle : ℕ
invalid_object_handle = 0x2009

abbrev pub device_prop_not_supported : ℕ
device_prop_not_supported = 0x200a

abbrev pub invalid_object_format_code : ℕ
invalid_object_format_code = 0x200b

abbrev pub store_full : ℕ
store_full = 0x200c

abbrev pub object_write_protected : ℕ
object_write_protected = 0x200d

abbrev pub store_read_only : ℕ
store_read_only = 0x200e

abbrev pub access_denied : ℕ
access_denied = 0x200f

abbrev pub no_thumbnail_present : ℕ
no_thumbnail_present = 0x2010

abbrev pub self_test_failed : ℕ
self_test_failed = 0x2011

abbrev pub partial_deletion : ℕ
partial_deletion = 0x2012

abbrev pub store_not_available : ℕ
store_not_available = 0x2013

abbrev pub specification_by_format_unsupported : ℕ
specification_by_format_unsupported = 0x2014

abbrev pub no_valid_object_info : ℕ
no_valid_object_info = 0x2015

abbrev pub invalid_code_format : ℕ
invalid_code_format = 0x2016

abbrev pub unknown_vendor_code : ℕ
unknown_vendor_code = 0x2017

abbrev pub capture_already_terminated : ℕ
capture_already_terminated = 0x2018

abbrev pub device_busy : ℕ
device_busy = 0x2019

abbrev pub invalid_parent_object : ℕ
invalid_parent_object = 0x201a

abbrev pub invalid_device_prop_format : ℕ
invalid_device_prop_format = 0x201b

abbrev pub invalid_device_prop_value : ℕ
invalid_device_prop_value = 0x201c

abbrev pub invalid_parameter : ℕ
invalid_parameter = 0x201d

abbrev pub session_already_open : ℕ
session_already_open = 0x201e

abbrev pub transaction_cancelled : ℕ
transaction_cancelled = 0x201f

abbrev pub specification_of_destination_unsupported : ℕ
specification_of_destination_unsupported = 0x2020

abbrev pub invalid_service_id : ℕ
invalid_service_id = 0xa301

abbrev pub invalid_service_prop_code : ℕ
invalid_service_prop_code = 0xa302

abbrev pub tiny_clr_not_responding : ℕ
tiny_clr_not_responding = 0xa401

abbrev pub no_data_waiting : ℕ
no_data_waiting = 0xa402

abbrev pub invalid_object_prop_code : ℕ
invalid_object_prop_code = 0xa801

abbrev pub invalid_object_prop_format : ℕ
invalid_object_prop_format = 0xa802

abbrev pub invalid_object_prop_value : ℕ
invalid_object_prop_value = 0xa803

abbrev pub invalid_object_reference : ℕ
invalid_object_reference = 0xa804

abbrev pub group_not_supported : ℕ
group_not_supported = 0xa805

abbrev pub invalid_dataset : ℕ
invalid_dataset = 0xa806

abbrev pub unsupported_spec_by_group : ℕ
unsupported_spec_by_group = 0xa807

abbrev pub unsupported_spec_by_depth : ℕ
unsupported_spec_by_depth = 0xa808

abbrev pub object_too_large : ℕ
object_too_large = 0xa809

abbrev pub object_prop_not_supported : ℕ
object_prop_not_supported = 0xa80

-- What the macro `ENUM_VALUE` lists: name and value.
unfoldable pub enumerators : List (String × ℕ)
enumerators =
    ("OK", ok)
    ∷ ("GeneralError", general_error)
    ∷ ("SessionNotOpen", session_not_open)
    ∷ ("InvalidTransaction", invalid_transaction)
    ∷ ("OperationNotSupported", operation_not_supported)
    ∷ ("ParameterNotSupported", parameter_not_supported)
    ∷ ("IncompleteTransfer", incomplete_transfer)
    ∷ ("InvalidStorageID", invalid_storage_id)
    ∷ ("InvalidObjectHandle", invalid_object_handle)
    ∷ ("DevicePropNotSupported", device_prop_not_supported)
    ∷ ("InvalidObjectFormatCode", invalid_object_format_code)
    ∷ ("StoreFull", store_full)
    ∷ ("ObjectWriteProtected", object_write_protected)
    ∷ ("StoreReadOnly", store_read_only)
    ∷ ("AccessDenied", access_denied)
    ∷ ("NoThumbnailPresent", no_thumbnail_present)
    ∷ ("SelfTestFailed", self_test_failed)
    ∷ ("PartialDeletion", partial_deletion)
    ∷ ("StoreNotAvailable", store_not_available)
    ∷ ("SpecificationByFormatUnsupported", specification_by_format_unsupported)
    ∷ ("NoValidObjectInfo", no_valid_object_info)
    ∷ ("InvalidCodeFormat", invalid_code_format)
    ∷ ("UnknownVendorCode", unknown_vendor_code)
    ∷ ("CaptureAlreadyTerminated", capture_already_terminated)
    ∷ ("DeviceBusy", device_busy)
    ∷ ("InvalidParentObject", invalid_parent_object)
    ∷ ("InvalidDevicePropFormat", invalid_device_prop_format)
    ∷ ("InvalidDevicePropValue", invalid_device_prop_value)
    ∷ ("InvalidParameter", invalid_parameter)
    ∷ ("SessionAlreadyOpen", session_already_open)
    ∷ ("TransactionCancelled", transaction_cancelled)
    ∷ ("SpecificationOfDestinationUnsupported", specification_of_destination_unsupported)
    ∷ ("InvalidServiceID", invalid_service_id)
    ∷ ("InvalidServicePropCode", invalid_service_prop_code)
    ∷ ("TinyCLRNotResponding", tiny_clr_not_responding)
    ∷ ("NoDataWaiting", no_data_waiting)
    ∷ ("InvalidObjectPropCode", invalid_object_prop_code)
    ∷ ("InvalidObjectPropFormat", invalid_object_prop_format)
    ∷ ("InvalidObjectPropValue", invalid_object_prop_value)
    ∷ ("InvalidObjectReference", invalid_object_reference)
    ∷ ("GroupNotSupported", group_not_supported)
    ∷ ("InvalidDataset", invalid_dataset)
    ∷ ("UnsupportedSpecByGroup", unsupported_spec_by_group)
    ∷ ("UnsupportedSpecByDepth", unsupported_spec_by_depth)
    ∷ ("ObjectTooLarge", object_too_large)
    ∷ ("ObjectPropNotSupported", object_prop_not_supported)
    ∷ []
