-- ===== src/Postgres/Sql/Laws.antt =====
-- What the compensating SQL is made of: values that read back, and when there is a compensation.
use go_dblog.Prelude.{
  ◌≡◌, ◌≢◌, ◌↔◌, refl, true, not, ◌&&◌, ◌||◌, Option, none, some, List, [], ◌∷◌, ◌++◌, arith,
  if◌then◌else◌, Bool-cases, inl, inr, All,
}
use go_dblog.Prelude.Text.{Bytes, same, same_iff}
use go_dblog.Prelude.Result.{ok}
use go_dblog.Postgres.Types.{text, Column, Change, operation_update}
use go_dblog.Postgres.Columns.{parse_column_value}
use go_dblog.Postgres.Columns.RoundTrip.{Ends, quoted, value-append}
use go_dblog.Postgres.Sql.{
  is_nil, sql_value, has_column, covers_columns, reverse_change, update_sql,
}

-- A column of that name.
pub data HasColumn {F : Type 0} (name : Bytes) : List (Column F) → Type 0 where
  here : (c : Column F) (cs : List (Column F)) → c.name ≡ name → HasColumn name (c ∷ cs)
  there : (c : Column F) (cs : List (Column F)) → HasColumn name cs → HasColumn name (c ∷ cs)

has_column_sound :
    {F : Type 0} (name : Bytes) (cs : List (Column F))
    → has_column name cs ≡ true
    → HasColumn name cs
unfolding has_column
has_column_sound name [] e = cc
has_column_sound name (c ∷ cs) e = elim (Bool-cases (same c.name name)) [
  | inl same' ↦ here c cs ((same_iff c.name name).0 same')
  | inr other ↦ there c cs (has_column_sound name cs (ground (arith, e, other)))
]

has_column_complete :
    {F : Type 0} (name : Bytes) (cs : List (Column F))
    → HasColumn name cs
    → has_column name cs ≡ true
unfolding has_column
has_column_complete name _ (here c cs e) = ground (arith, (same_iff c.name name).1 e)
has_column_complete name _ (there c cs h) = ground (arith, has_column_complete name cs h)

-- `coversColumns` is true exactly where every name of the new tuple is a name of the old key.
pub covers_columns_iff :
    {F : Type 0} (old_key new_tuple : List (Column F))
    → (covers_columns old_key new_tuple ≡ true) ↔ All (λ c. HasColumn c.name old_key) new_tuple
unfolding covers_columns
covers_columns_iff old_key [] = (λ e. tt, λ h. refl)
covers_columns_iff old_key (c ∷ cs) = (
  λ e. (
    has_column_sound c.name old_key (ground (arith, e)),
    (covers_columns_iff old_key cs).0 (ground (arith, e)),
  ),
  λ h.
      ground (arith, has_column_complete c.name old_key h.0, (covers_columns_iff old_key cs).1 h.1),
)

module _ {F : Type 0} (parse_float : Bytes → Option F) (show_float : F → Bytes) where
  -- The literal that the compensating SQL has for a text is read back by the parser of column values
  -- as that text, with the literal as its raw form, at the end of a line or in front of a blank.
  pub sql_value-parse :
      (v rest : Bytes)
      → Ends rest
      → parse_column_value parse_float (sql_value show_float (text v) ++ rest)
        ≡ ok (sql_value show_float (text v), text v, rest)
  unfolding sql_value
  sql_value-parse v rest e = value-append parse_float rest (quoted v) e

-- The test on the images of an update, in front of an answer `x`.
abbrev image_test : {F : Type 0} → List (Column F) → List (Column F) → Bytes → Option Bytes
image_test old_key new_tuple x =
    if not (not (is_nil old_key) && not (is_nil new_tuple))
      || not (covers_columns old_key new_tuple)
    then none
    else some x

image_test_iff :
    {F : Type 0} (old_key new_tuple : List (Column F)) (x : Bytes)
    → (image_test old_key new_tuple x ≡ some x)
      ↔ ((old_key ≢ []) × (new_tuple ≢ []) × All (λ d. HasColumn d.name old_key) new_tuple)
image_test_iff [] new_tuple x = (λ e. cc, λ (p, _, _). absurd (p refl))
image_test_iff (c ∷ cs) [] x = (λ e. cc, λ (_, p, _). absurd (p refl))
image_test_iff (c ∷ cs) (d ∷ ds) x = (
  λ e. (λ h. cc, λ h. cc, (covers_columns_iff (c ∷ cs) (d ∷ ds)).0 (ground (arith, e))),
  λ (_, _, h). ground (arith, (covers_columns_iff (c ∷ cs) (d ∷ ds)).1 h),
)

-- An update is compensated exactly where it has both images and every name of the new tuple is a
-- name of the old key, and then by the update that `updateSQL` writes.
pub reverse_update_iff :
    {F : Type 0} (show_float : F → Bytes) (c : Change F)
    → c.operation ≡ operation_update
    → (reverse_change show_float c ≡ some (update_sql show_float c))
      ↔ ((c.old_key ≢ []) × (c.new_tuple ≢ []) × All (λ d. HasColumn d.name c.old_key) c.new_tuple)
unfolding same
reverse_update_iff show_float c e =
    rw (tested c e) (image_test_iff c.old_key c.new_tuple (update_sql show_float c))
  where
    tested :
        (c : Change _)
        → c.operation ≡ operation_update
        → reverse_change show_float c ≡ image_test c.old_key c.new_tuple (update_sql show_float c)
    tested c e = unfold reverse_change in rw e refl
