-- ===== src/Dblog/Registry/Laws.antt =====
-- What `Register` and `Open` of dblog.go promise each other.
use go_dblog.Prelude.{◌≡◌, ◌≢◌, true, false, Option, none, some, List, ◌⊎◌, arith}
use go_dblog.Prelude.Text.{Bytes, is_empty, same_iff}
use go_dblog.Prelude.Dict.{Dict, lookup, lookup-insert}
use go_dblog.Dblog.Open.{OpenOption, new_open_options}
use go_dblog.Dblog.Registry.{
  Error, invalid_backend, backend_exists, Backend, register, open_driver, backend_error,
}

module _ {R C D X : Type 0} where
  -- Every entry stands under its backend's own driver name, which is not empty.
  pub record IsValid (r : Dict (Backend R C D X)) : Type 0 where
    pub own_name : (d : Bytes) (b : Backend R C D X) → lookup d r ≡ some b → b.driver ≡ d
    pub ne_nil : (d : Bytes) (b : Backend R C D X) → lookup d r ≡ some b → is_empty d ≡ false

  -- `Register` keeps a well-formed registry well formed, whether it succeeds or not.
  pub register-IsValid :
      (r : Dict (Backend R C D X)) (b : Option (Backend R C D X))
      → IsValid r
      → IsValid (register r b).0
  unfolding register
  register-IsValid r none v = v
  register-IsValid r (some b) v = record {
    own_name =
        λ d c. ground (arith, lookup-insert b.driver d b r, same_iff b.driver d, v.own_name d c);
    ne_nil = λ d c. ground (arith, lookup-insert b.driver d b r, same_iff b.driver d, v.ne_nil d c);
  }

  -- `Register` of a backend with a driver name that is not taken succeeds. Then `Open` with that
  -- driver runs this backend on the given options, and every other driver opens as before.
  pub register-open :
      (r : Dict (Backend R C D X)) (b : Backend R C D X) (opts : List (Option (OpenOption R C)))
      → is_empty b.driver ≡ false
      → lookup b.driver r ≡ none
      → ((register r (some b)).1 ≡ none)
        × (open_driver (register r (some b)).0 b.driver opts
            ≡ backend_error (b.open_decoder (new_open_options opts)))
        × ((d : Bytes)
            → d ≢ b.driver
            → open_driver (register r (some b)).0 d opts ≡ open_driver r d opts)
  unfolding register open_driver
  register-open r b opts named free = (
    ground arith,
    ground (arith, lookup-insert b.driver b.driver b r, same_iff b.driver b.driver),
    λ d other. ground (arith, lookup-insert b.driver d b r, same_iff b.driver d),
  )

  -- A failed `Register` leaves the registry as it was, and the error says why: a nil backend or
  -- one with no name, or a name that is taken.
  pub register_error :
      (r : Dict (Backend R C D X)) (b : Backend R C D X) (e : Error)
      → (register r (some b)).1 ≡ some e
      → ((register r (some b)).0 ≡ r)
        × (((e ≡ invalid_backend) × (is_empty b.driver ≡ true))
            ⊎ ((e ≡ backend_exists b.driver) × (lookup b.driver r ≢ none)))
  unfolding register
  register_error r b e h = (ground arith, ground arith)
