-- ===== src/Request/ContainerType.antt =====
-- `enum struct ContainerType` of mtp/ptp/Response.h.
use zune_sync.Base.{ℕ, List, [], ◌∷◌}

abbrev pub command : ℕ
command = 1

abbrev pub data_block : ℕ
data_block = 2

abbrev pub response : ℕ
response = 3

abbrev pub event : ℕ
event = 4

unfoldable pub container_types : List ℕ
container_types = command ∷ data_block ∷ response ∷ event ∷ []
