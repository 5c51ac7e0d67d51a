-- ===== src/PropertyList/Entries.antt =====
-- The entries of the property lists that mtp/ptp/Session.cpp and mtp/metadata/Library.cpp write: an
-- object handle of 0, the property, the type and the value.
use zune_sync.Base.{ℕ, List, [], ◌∷◌, ◌++◌}
use zune_sync.Codes.ObjectProperty
use zune_sync.Codes.DataTypeCode
use zune_sync.Stream.Output.{Writer, ◌>>◌, write16, write32, write_string}

unfoldable pub string_property : ℕ → List ℕ → Writer
string_property property value = do
  write32 0
  write16 property
  write16 DataTypeCode.string
  write_string value

unfoldable pub u32_property : ℕ → ℕ → Writer
u32_property property value = do
  write32 0
  write16 property
  write16 DataTypeCode.uint32
  write32 value

unfoldable pub u16_property : ℕ → ℕ → Writer
u16_property property value = do
  write32 0
  write16 property
  write16 DataTypeCode.uint16
  write16 value

-- The list with the file name alone, of `CreateDirectory` and `SendObjectInfo`.
unfoldable pub filename_property : List ℕ → Writer
filename_property name = do write32 1; string_property ObjectProperty.object_filename name

-- The list of `Library::CreateArtist`: the name, and the name of its file.
unfoldable pub artist_properties : List ℕ → Writer
artist_properties name = do
  write32 2
  string_property ObjectProperty.name name
  string_property ObjectProperty.object_filename (name ++ (b'.' ∷ b'a' ∷ b'r' ∷ b't' ∷ []))
