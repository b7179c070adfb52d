-- ===== src/Dblog/Registry.antt =====
-- dblog.go: `Registry`. The mutex makes each method one step on the map; a nil map and an empty
-- one behave alike. `R`, `C`, `D` and `X` are the types of readers, contexts, decoders and the
-- backends' own errors. `Driver()` is taken to answer the same on every call.
pub mod Laws
use go_dblog.Prelude.{Bool, true, false, Option, none, some, List, [], ◌⊎◌, inl, inr, if◌then◌else◌}
use go_dblog.Prelude.Text.{Bytes, is_empty}
use go_dblog.Prelude.Dict.{Dict, lookup, insert}
use go_dblog.Prelude.Result.{Result, ok, err, panic}
use go_dblog.Dblog.Open.{OpenOptions, OpenOption, new_open_options}

-- `ErrInvalidBackend`, `ErrBackendExists` and `ErrBackendNotFound`, with the driver they name.
pub data Error : Type 0 where
  invalid_backend : Error
  backend_exists : Bytes → Error
  backend_not_found : Bytes → Error

pub record Backend (R C D X : Type 0) : Type 0 where
  pub driver : Bytes
  pub open_decoder : OpenOptions R C → Result X D

-- An error of the backend passes through `Open` as it is.
abbrev pub backend_error : {D X : Type 0} → Result X D → Result (Error ⊎ X) D
backend_error (ok d) = ok d
backend_error (err e) = err (inr e)
backend_error panic = panic

module _ {R C D X : Type 0} where
  -- Beyond the guard, under the lock: the new map and the error.
  unfoldable pub register_driver :
      Dict (Backend R C D X) → Backend R C D X → Dict (Backend R C D X) × Option Error
  register_driver r b = elim (lookup b.driver r) [
    | some _ ↦ (r, some (backend_exists b.driver))
    | none ↦ (insert b.driver b r, none)
  ]

  -- `Registry.Register`; a nil backend is `none`.
  unfoldable pub register :
      Dict (Backend R C D X) → Option (Backend R C D X) → Dict (Backend R C D X) × Option Error
  unfolding register_driver
  register r none = (r, some invalid_backend)
  register r (some b) = if is_empty b.driver then (r, some invalid_backend) else register_driver r b

  -- `Registry.Open`
  unfoldable pub open_driver :
      Dict (Backend R C D X) → Bytes → List (Option (OpenOption R C)) → Result (Error ⊎ X) D
  open_driver r driver opts = elim (lookup driver r) [
    | none ↦ err (inl (backend_not_found driver))
    | some b ↦ backend_error (b.open_decoder (new_open_options opts))
  ]
