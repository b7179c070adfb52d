-- ===== src/Prelude/Dict.antt =====
-- Go maps with string keys, as association lists with one entry for a key.
use mathlib.Core.Path.{◌≡◌, refl}
use mathlib.Core.Option.{Option, none, some}
use mathlib.Core.List.{List, [], ◌∷◌}
use native.Mathlib.Omega.{arith}
use go_dblog.Prelude.Tests.{if◌then◌else◌}
use go_dblog.Prelude.Text.{Bytes, same, same_iff}

abbrev pub Dict {ℓ} : Type ℓ → Type ℓ
Dict V = List (Bytes × V)

module _ {ℓ} {V : Type ℓ} where
  -- `value, ok := dict[key]`
  unfoldable pub lookup : Bytes → Dict V → Option V
  lookup key [] = none
  lookup key ((other, value) ∷ dict) = if same other key then some value else lookup key dict

  -- `dict[key] = value`
  unfoldable pub insert : Bytes → V → Dict V → Dict V
  insert key value [] = (key, value) ∷ []
  insert key value ((other, old) ∷ dict) =
      let behind = insert key value dict in
      if same other key then (key, value) ∷ dict else (other, old) ∷ behind

  pub lookup-insert :
      (key wanted : Bytes) (value : V) (dict : Dict V)
      → lookup wanted (insert key value dict)
        ≡ (if same key wanted then some value else lookup wanted dict)
  unfolding lookup insert
  lookup-insert key wanted value [] = refl
  lookup-insert key wanted value ((other, old) ∷ dict) =
      let ih = lookup-insert key wanted value dict in
      ground (arith, ih, same_iff key wanted, same_iff other key, same_iff other wanted)
