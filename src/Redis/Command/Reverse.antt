-- ===== src/Redis/Command/Reverse.antt =====
-- `Command.Reverse` against what a numeric command does to its target.
use go_dblog.Prelude.{
  ◌≡◌, refl, Option, none, some, List, [], ◌∷◌, arith, if◌then◌else◌, Bool-cases, Option-cases, ◌⊎◌,
  inl, inr,
}
use go_dblog.Prelude.Int.{ℤ, pos, negsuc, -ℤ◌, neg-neg_ℕ}
use go_dblog.Prelude.Text.{Bytes, same, same_iff}
use go_dblog.Redis.Command.{
  Command, incr, decr, incr_by, decr_by, hincr_by, hincr_by_float, zincr_by, reverse_command,
}
use go_dblog.Redis.Command.Negate.{integer_value, negate_numeric_delta_value}

abbrev by_one : ℤ → List Bytes → Option (List Bytes × ℤ)
by_one v (key ∷ []) = some (key ∷ [], v)
by_one v _ = none

abbrev amount : (ℤ → ℤ) → List Bytes → Option ℤ → Option (List Bytes × ℤ)
amount sign target none = none
amount sign target (some v) = some (target, sign v)

abbrev by_amount : (ℤ → ℤ) → List Bytes → Option (List Bytes × ℤ)
by_amount sign (key ∷ n ∷ []) = amount sign (key ∷ []) (integer_value n)
by_amount sign _ = none

abbrev hash_amount : List Bytes → Option (List Bytes × ℤ)
hash_amount (key ∷ field ∷ n ∷ []) = amount (λ v. v) (key ∷ field ∷ []) (integer_value n)
hash_amount _ = none

abbrev member_amount : List Bytes → Option (List Bytes × ℤ)
member_amount (key ∷ n ∷ member ∷ []) = amount (λ v. v) (key ∷ member ∷ []) (integer_value n)
member_amount _ = none

-- The number that a command changes, by the names that lead to it, and the integer that is added:
-- what Redis documents of the nine numeric commands at an integer argument.
unfoldable pub change_of : Bytes → List Bytes → Option (List Bytes × ℤ)
change_of name args =
    if same name incr
    then by_one (pos 1) args
    else if same name decr
    then by_one (negsuc 0) args
    else if same name incr_by
    then by_amount (λ v. v) args
    else if same name decr_by
    then by_amount -ℤ◌ args
    else if same name hincr_by
    then hash_amount args
    else if same name hincr_by_float
    then hash_amount args
    else if same name zincr_by
    then member_amount args
    else none

neg_neg : (v : ℤ) → -ℤ◌ (-ℤ◌ v) ≡ v
neg_neg (pos n) = neg-neg_ℕ n
neg_neg (negsuc n) = refl

abbrev Undone : Bytes → List Bytes → List Bytes → ℤ → Type 0
Undone name args target v =
    (c : Command) × (reverse_command (record { name = name; args = args }) ≡ some c)
    × (change_of c.name c.args ≡ some (target, -ℤ◌ v))

module _ (target : List Bytes) (v : ℤ) where
  incr-Undone :
      (args : List Bytes) → change_of incr args ≡ some (target, v) → Undone incr args target v
  unfolding change_of reverse_command same
  incr-Undone [] h = absurd (ground arith)
  incr-Undone (key ∷ []) h = (record { name = decr; args = key ∷ [] }, refl, ground arith)
  incr-Undone (key ∷ a ∷ as') h = absurd (ground arith)

  decr-Undone :
      (args : List Bytes) → change_of decr args ≡ some (target, v) → Undone decr args target v
  unfolding change_of reverse_command same
  decr-Undone [] h = absurd (ground arith)
  decr-Undone (key ∷ []) h = (record { name = incr; args = key ∷ [] }, refl, ground arith)
  decr-Undone (key ∷ a ∷ as') h = absurd (ground arith)

  incr_by-Undone :
      (args : List Bytes) → change_of incr_by args ≡ some (target, v) → Undone incr_by args target v
  unfolding change_of reverse_command same
  incr_by-Undone [] h = absurd (ground arith)
  incr_by-Undone (key ∷ []) h = absurd (ground arith)
  incr_by-Undone (key ∷ n ∷ []) h =
      (record { name = decr_by; args = key ∷ n ∷ [] }, refl, ground arith)
  incr_by-Undone (key ∷ n ∷ a ∷ as') h = absurd (ground arith)

  decr_by-Undone :
      (args : List Bytes) → change_of decr_by args ≡ some (target, v) → Undone decr_by args target v
  unfolding change_of reverse_command same
  decr_by-Undone [] h = absurd (ground arith)
  decr_by-Undone (key ∷ []) h = absurd (ground arith)
  decr_by-Undone (key ∷ n ∷ []) h = elim (Option-cases (integer_value n)) [
    | inl bad ↦ absurd (ground arith)
    | inr (k, value) ↦
        (record { name = incr_by; args = key ∷ n ∷ [] }, refl, ground (arith, value, neg_neg k))
  ]
  decr_by-Undone (key ∷ n ∷ a ∷ as') h = absurd (ground arith)

  -- The commands with the amount at index 2, and the one with it at index 1.
  hash-Undone :
      (name : Bytes)
      → (name ≡ hincr_by) ⊎ (name ≡ hincr_by_float)
      → (args : List Bytes) → hash_amount args ≡ some (target, v)
      → Undone name args target v
  hash-Undone name which (key ∷ field ∷ n ∷ []) h = elim (Option-cases (integer_value n)) [
    | inl bad ↦ absurd (ground arith)
    | inr (k, value) ↦
        let (t, negated, value') = negate_numeric_delta_value n k value in
        elim which [
          | inl e ↦ rw e (
              unfold change_of reverse_command same in
              (
                record { name = hincr_by; args = key ∷ field ∷ t ∷ [] },
                ground (arith, negated),
                ground (arith, value, value'),
              ))
          | inr e ↦ rw e (
              unfold change_of reverse_command same in
              (
                record { name = hincr_by_float; args = key ∷ field ∷ t ∷ [] },
                ground (arith, negated),
                ground (arith, value, value'),
              ))
        ]
  ]
  hash-Undone name which _ h = absurd (ground arith)

  zincr_by-Undone :
      (args : List Bytes)
      → change_of zincr_by args ≡ some (target, v)
      → Undone zincr_by args target v
  unfolding change_of reverse_command same
  zincr_by-Undone (key ∷ n ∷ member ∷ []) h = elim (Option-cases (integer_value n)) [
    | inl bad ↦ absurd (ground arith)
    | inr (k, value) ↦
        let (t, negated, value') = negate_numeric_delta_value n k value in
        (
          record { name = zincr_by; args = key ∷ t ∷ member ∷ [] },
          ground (arith, negated),
          ground (arith, value, value'),
        )
  ]
  zincr_by-Undone _ h = absurd (ground arith)

-- A command that changes a number by an integer has a compensation, and this changes the same
-- number by the negated integer.
pub reverse_command_change :
    (name : Bytes) (args : List Bytes) (target : List Bytes) (v : ℤ)
    → change_of name args ≡ some (target, v)
    → (c : Command) × (reverse_command (record { name = name; args = args }) ≡ some c)
      × (change_of c.name c.args ≡ some (target, -ℤ◌ v))
unfolding change_of
reverse_command_change name args target v h = elim (Bool-cases (same name incr)) [
  | inl e ↦ let n = (same_iff name incr).0 e in rw n (incr-Undone target v args (rw n at h))
  | inr n1 ↦ elim (Bool-cases (same name decr)) [
    | inl e ↦ let n = (same_iff name decr).0 e in rw n (decr-Undone target v args (rw n at h))
    | inr n2 ↦ elim (Bool-cases (same name incr_by)) [
      | inl e ↦
          let n = (same_iff name incr_by).0 e in rw n (incr_by-Undone target v args (rw n at h))
      | inr n3 ↦ elim (Bool-cases (same name decr_by)) [
        | inl e ↦
            let n = (same_iff name decr_by).0 e in rw n (decr_by-Undone target v args (rw n at h))
        | inr n4 ↦ elim (Bool-cases (same name hincr_by)) [
          | inl e ↦
              hash-Undone target v name (inl ((same_iff name hincr_by).0 e)) args (ground arith)
          | inr n5 ↦ elim (Bool-cases (same name hincr_by_float)) [
            | inl e ↦
                hash-Undone target v name (inr ((same_iff name hincr_by_float).0 e)) args
                  (ground arith)
            | inr n6 ↦ elim (Bool-cases (same name zincr_by)) [
              | inl e ↦
                  let n = (same_iff name zincr_by).0 e in
                  rw n (zincr_by-Undone target v args (rw n at h))
              | inr n7 ↦ absurd (ground arith)
            ]
          ]
        ]
      ]
    ]
  ]
]
