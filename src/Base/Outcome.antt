-- ===== src/Base/Outcome.antt =====
-- What a C++ function returns: a value, or the exception it throws.
use Prim.Native.Nat.{ℕ}
use mathlib.Core.Path.{◌≡◌, refl}
use mathlib.Core.Bool.{Bool, true, false}

-- One constructor for each `throw` of the modelled code. `past_terminator` is a read of a
-- `std::string` behind its terminating zero, `past_end` one behind the end of an array, and
-- `invalid_iterator` the use of an erased one, for which C++ defines no result; `out_of_fuel` is the end
-- of the rounds that the model of a loop is given, which no call reaches; `terminated` is the end of
-- the program by a destructor that throws, which no handler catches.
pub data Error : Type 0 where
  out_of_range past_terminator string_too_big unexpected_length invalid_type : Error
  malformed_message no_data_stream not_an_event operation_cancelled timeout : Error
  invalid_response not_supported no_fallback : ℕ → Error
  overflow32 empty_filename wildcard_storage no_transaction : Error
  no_storages artist_required no_playlists no_library : Error
  no_token invalid_command invalid_argument_count path_not_found storage_not_found : Error
  stat_failed not_a_directory no_metadata : Error
  out_of_fuel invalid_descriptor no_interface_descriptor invalid_endpoint : Error
  not_a_storage_inode unknown_storage no_such_object uninitialised_attr : Error
  past_end invalid_iterator fuse_call_failed no_device device_not_found terminated : Error

-- The two ways out of a function.
pub data Result {ℓ} (Value : Type ℓ) : Type ℓ where
  ok : Value → Result Value
  err : Error → Result Value

-- `if (test) throw e;`
abbrev pub throw_if : Bool → Error → Result (Unit {0})
throw_if true e = err e
throw_if false e = ok tt

infixl 5 ◌>>=◌
-- What follows is skipped by an exception.
abbrev pub ◌>>=◌ {ℓ κ} : {A : Type ℓ} {B : Type κ} → Result A → (A → Result B) → Result B
err e >>= continue = err e
ok value >>= continue = continue value

pub bind_assoc {ℓ κ μ} :
    {A : Type ℓ} {B : Type κ} {C : Type μ} (m : Result A) (f : A → Result B) (g : B → Result C)
    → ((m >>= f) >>= g) ≡ (m >>= λ a. f a >>= g)
bind_assoc (ok a) f g = refl
bind_assoc (err e) f g = refl
