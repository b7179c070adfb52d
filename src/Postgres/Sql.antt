-- ===== src/Postgres/Sql.antt =====
-- postgres/decode/events/types/sql.go and `Event.Reverse` of event.go: the compensating SQL. A
-- byte is a letter or a digit as in ASCII; `show_float` is `fmt.Sprint` on a float64.
pub mod Laws
use go_dblog.Prelude.{
  ℕ, zero, suc, Bool, true, false, not, ◌&&◌, ◌||◌, Option, none, some, List, [], ◌∷◌, ◌++◌, map,
  ◌==◌, leb, ltb, if◌then◌else◌, all,
}
use go_dblog.Prelude.Int.{ℤ, pos, negsuc}
use go_dblog.Prelude.Text.{Bytes, codes, same, is_empty, double, join}
use go_dblog.Prelude.Decimal.{itoa}
use go_dblog.Postgres.Types.{
  Value, null, boolean, integer, float, text, Column, Change, operation_insert, operation_update,
  operation_delete,
}
use go_dblog.Postgres.Types.{Body, transaction, change}

abbrev is_letter : ℕ → Bool
is_letter c = (leb 65 c && leb c 90) || (leb 97 c && leb c 122)

abbrev is_digit : ℕ → Bool
is_digit c = leb 48 c && leb c 57

-- A name that is written as it is.
unfoldable pub is_plain : Bytes → Bool
is_plain [] = false
is_plain (c ∷ s) = (is_letter c || c == b'_') && all (λ d. is_letter d || is_digit d || d == b'_') s

-- `quoteIdent`
unfoldable pub quote_ident : Bytes → Bytes
unfolding is_plain double
quote_ident s = if is_plain s then s else b'"' ∷ (double b'"' s ++ b'"' ∷ [])

-- `fmt.Sprint` on an int64.
unfoldable pub show_integer : ℤ → Bytes
show_integer (pos n) = itoa n
show_integer (negsuc n) = b'-' ∷ itoa (suc n)

module _ {F : Type 0} where
  -- Is there a column of that name?
  unfoldable pub has_column : Bytes → List (Column F) → Bool
  has_column name [] = false
  has_column name (c ∷ cs) = if same c.name name then true else has_column name cs

  -- `coversColumns`; the map of names is the list that it is built from.
  unfoldable pub covers_columns : List (Column F) → List (Column F) → Bool
  unfolding has_column
  covers_columns old_key [] = true
  covers_columns old_key (c ∷ cs) =
      if not (has_column c.name old_key) then false else covers_columns old_key cs

  abbrev is_nil : List (Column F) → Bool
  is_nil [] = true
  is_nil (c ∷ cs) = false

module _ {F : Type 0} (show_float : F → Bytes) where
  unfoldable pub sql_value : Value F → Bytes
  unfolding show_integer double
  sql_value null = codes "NULL"
  sql_value (boolean true) = codes "TRUE"
  sql_value (boolean false) = codes "FALSE"
  sql_value (text v) = b'\'' ∷ (double b'\'' v ++ b'\'' ∷ [])
  sql_value (integer n) = show_integer n
  sql_value (float f) = show_float f

  -- One conjunct of `whereSQL`.
  unfoldable pub condition : Bytes → Value F → Bytes
  unfolding sql_value
  condition name null = name ++ codes " IS NULL"
  condition name v = name ++ (codes " = " ++ sql_value v)

  unfoldable pub where_sql : List (Column F) → Bytes
  unfolding condition quote_ident
  where_sql columns =
      join (map (λ c. condition (quote_ident c.name) c.value) columns) (codes " AND ")

  unfoldable pub table_name : Change F → Bytes
  unfolding quote_ident
  table_name c =
      if is_empty c.schema
      then quote_ident c.table
      else quote_ident c.schema ++ (b'.' ∷ quote_ident c.table)

  unfoldable pub insert_sql : Change F → Bytes
  unfolding quote_ident sql_value table_name
  insert_sql c =
      codes "INSERT INTO "
      ++ (table_name c
          ++ (codes " ("
              ++ (join (map (λ d. quote_ident d.name) c.columns) (codes ", ")
                  ++ (codes ") VALUES ("
                      ++ (join (map (λ d. sql_value d.value) c.columns) (codes ", ")
                          ++ codes ");")))))

  unfoldable pub delete_sql : Change F → Bytes
  unfolding where_sql table_name
  delete_sql c =
      codes "DELETE FROM "
      ++ (table_name c ++ (codes " WHERE " ++ (where_sql c.columns ++ codes ";")))

  -- The assignments come from the old key, the condition from the new tuple.
  unfoldable pub update_sql : Change F → Bytes
  unfolding where_sql table_name quote_ident sql_value
  update_sql c =
      codes "UPDATE "
      ++ (table_name c
          ++ (codes " SET "
              ++ (join
                    (map (λ d. quote_ident d.name ++ (codes " = " ++ sql_value d.value)) c.old_key)
                    (codes ", ")
                  ++ (codes " WHERE " ++ (where_sql c.new_tuple ++ codes ";")))))

  -- The switch on the operation.
  unfoldable pub reverse_change : Change F → Option Bytes
  unfolding insert_sql delete_sql update_sql covers_columns
  reverse_change c =
      if same c.operation operation_insert
      then some (delete_sql c)
      else if same c.operation operation_update
      then (let has_images = not (is_nil c.old_key) && not (is_nil c.new_tuple) in
          if not has_images || not (covers_columns c.old_key c.new_tuple)
          then none
          else some (update_sql c))
      else if same c.operation operation_delete
      then some (insert_sql c)
      else none

  -- `Event.Reverse`, on the event's body.
  unfoldable pub reverse_body : Body F → Option Bytes
  unfolding reverse_change
  reverse_body (transaction t) = none
  reverse_body (change c) = reverse_change c
