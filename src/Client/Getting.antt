-- ===== src/Client/Getting.antt =====
-- `Get` and `GetThumb` of cli/Session.cpp: objects of the device go to files of the host.
use zune_sync.Base.{
  ℕ, zero, suc, ◌%◌, ◌^◌, ◌==◌, if◌then◌else◌, Bool, false, List, [], ◌∷◌, ◌++◌, Error, Result, ok,
  err,
}
use zune_sync.Base.Stateful.{Stateful, ◌>>=◌, ◌>>◌, return, throw, catch, for_each}
use zune_sync.Codes.ObjectFormat
use zune_sync.Codes.ObjectProperty
use zune_sync.Client.State.{ClientSession, Client}

-- What `Get` does to the host, in order: `mkdir`, whose result is not looked at, the opening of a file,
-- which empties it, its contents, and its time.
pub data Effect : Type 0 where
  made_directory opened : List ℕ → Effect
  wrote : List ℕ → List ℕ → Effect
  timed : List ℕ → ℕ → Effect

-- What `Get` calls of the session, beside what the client calls.
pub record Downloads : Type 1 where
  pub client : ClientSession
  pub get_object : ℕ → client.base.State → Result (List ℕ) × client.base.State
  pub get_thumb : ℕ → client.base.State → Result (List ℕ) × client.base.State
  pub get_object_modification_time : ℕ → client.base.State → Result ℕ × client.base.State

-- `open` of a file for writing, and `utime`.
pub record Files : Type 0 where
  pub open_file : List ℕ → Result (Unit {0})
  pub set_time : List ℕ → ℕ → Result (Unit {0})

abbrev pub World : Downloads → Type 0
World D = List Effect × (Client × D.client.base.State)

-- A method that runs on the host and on the session.
abbrev pub Method {ℓ} : Downloads → Type ℓ → Type ℓ
Method D A = Stateful (World D) A

abbrev pub ask {ℓ} :
    {S : Type 0} {A : Type ℓ} → (S → Result A × S) → Stateful (List Effect × (Client × S)) A
ask f w = let r = f w.1.1 in (r.0, (w.0, (w.1.0, r.1)))

abbrev pub current_storage : {S : Type 0} → Stateful (List Effect × (Client × S)) ℕ
current_storage w = (ok w.1.0.cs, w)

-- A call of the host that returns has its effect.
abbrev pub perform :
    {S : Type 0} → Result (Unit {0}) → Effect → Stateful (List Effect × (Client × S)) (Unit {0})
perform r effect w = elim r [ err e ↦ (err e, w) | ok _ ↦ (ok tt, (w.0 ++ (effect ∷ []), w.1)) ]

-- `dst + "/" + info.Filename`
unfoldable pub below : List ℕ → List ℕ → List ℕ
below dst filename = dst ++ (b'/' ∷ filename)

-- `interactive` is whether the size is asked for, to show the progress; `thumb` whether the thumbnail is
-- got. The bytes of a transfer that fails are not followed into the file.
module _ (D : Downloads) (files : Files) (interactive : Bool) where
  -- The `try` around the time of the file.
  unfoldable pub copy_time : List ℕ → ℕ → Method D (Unit {0})
  copy_time dst id =
      catch
        (do
          time ← ask (D.get_object_modification_time id)
          perform (files.set_time dst time) (Effect.timed dst time))
        (return tt)

  unfoldable pub ask_size : ℕ → Method D ℕ
  ask_size id =
      if interactive
      then ask (D.client.base.get_object_integer_property id ObjectProperty.object_size)
      else return 0

  unfoldable pub get_file : Bool → List ℕ → ℕ → Method D (Unit {0})
  get_file thumb dst id = do
    perform (files.open_file dst) (Effect.opened dst)
    ask_size id
    bytes ← (if thumb then ask (D.get_thumb id) else ask (D.get_object id))
    perform (ok tt) (Effect.wrote dst bytes)
    copy_time dst id

  -- `Get`, through at most this number of directories below each other; what is in a directory is got
  -- whole, also where its thumbnail was asked for.
  unfoldable pub get : ℕ → Bool → List ℕ → ℕ → Method D (Unit {0})
  get zero thumb dst id = throw Error.out_of_fuel
  get (suc depth) thumb dst id = do
    format ← ask (D.client.base.get_object_integer_property id ObjectProperty.object_format)
    if format % 2 ^ 16 == ObjectFormat.association
        then (do
          perform (ok tt) (Effect.made_directory dst)
          cs ← current_storage
          handles ← ask (D.client.base.get_object_handles cs ObjectFormat.any id)
          for_each
              (λ child. ask (D.client.get_object_info child) >>= λ info.
                get depth false (below dst info.filename) child)
              handles.object_handles)
        else get_file thumb dst id

  -- `Get` and `GetThumb` under the name of the object.
  unfoldable pub get_here : ℕ → Bool → ℕ → Method D (Unit {0})
  get_here depth thumb id = do
    info ← ask (D.client.get_object_info id)
    get depth thumb info.filename id
