-- ===== src/Postgres/Line.antt =====
-- postgres/decode/decoder/parser.go: a line of test_decoding output.
pub mod Safe
use go_dblog.Prelude.{Bool, not, ◌||◌, Option, none, some, List, [], ◌∷◌, ◌==◌, if◌then◌else◌}
use go_dblog.Prelude.{ℕ}
use go_dblog.Prelude.Text.{
  Bytes, codes, same, is_empty, has_prefix, trim_prefix, trim_space, to_lower, cut,
}
use go_dblog.Prelude.Result.{Result, ok, err, ◌>>=◌, or_err}
use go_dblog.Dblog.Types.{Source}
use go_dblog.Postgres.Types.{
  PgEvent, transaction, change, with_driver, new_event, Column, Change, kind_begin, kind_commit,
  operation_update,
}
use go_dblog.Postgres.Columns.{LineError, invalid_line, plugin_failed, parse_columns}

-- The text in front of the last '.', and the text behind it.
unfoldable pub last_dot : Bytes → Option (Bytes × Bytes)
last_dot [] = none
last_dot (c ∷ s) = elim (last_dot s) [
  | some (a, b) ↦ some (c ∷ a, b)
  | none ↦ if c == b'.' then some ([], s) else none
]

-- `splitTable`: the schema and the table.
unfoldable pub split_table : Bytes → Bytes × Bytes
unfolding last_dot
split_table name = elim (last_dot name) [
  | none ↦ ([], name)
  | some (schema, table) ↦ (schema, table)
]

module _ {F : Type 0} (parse_float : Bytes → Option F) where
  -- An update with an old key: the old columns, and behind " new-tuple: " the new ones.
  update_columns : Bytes → Result LineError (List (Column F) × List (Column F) × List (Column F))
  update_columns body = do
    (old_text, new_text) ← or_err (cut body (codes " new-tuple: ")) invalid_line
    old_key ← parse_columns parse_float old_text
    new_tuple ← parse_columns parse_float new_text
    ok (new_tuple, old_key, new_tuple)

  -- `parseChangeColumns`: the columns, the old key and the new tuple.
  unfoldable pub parse_change_columns :
      Bytes → Bytes → Result LineError (List (Column F) × List (Column F) × List (Column F))
  unfolding update_columns
  parse_change_columns op body =
      if not (same op operation_update) || not (has_prefix body (codes "old-key: "))
      then (do columns ← parse_columns parse_float body; ok (columns, [], []))
      else update_columns (trim_prefix body (codes "old-key: "))

  -- Behind the table name: the operation and the columns.
  change_of_table : Bytes → Bytes → Bytes → Result LineError (Change F)
  unfolding parse_change_columns
  change_of_table schema table rest = if is_empty table then err invalid_line else do
    (op_text, body) ← or_err (cut rest (codes ": ")) invalid_line
    let op = to_lower (trim_space op_text)
    if is_empty op then err invalid_line else do
      (columns, old_key, new_tuple) ← parse_change_columns op body
      ok (record {
        schema = schema;
        table = table;
        operation = op;
        columns = columns;
        old_key = old_key;
        new_tuple = new_tuple;
      })

  -- `parseChange`
  unfoldable pub parse_change : Bytes → Result LineError (Change F)
  unfolding change_of_table split_table
  parse_change line = do
    (table_text, rest) ← or_err (cut (trim_prefix line (codes "table ")) (codes ": ")) invalid_line
    let (schema, table) = split_table (trim_space table_text)
    change_of_table schema table rest

-- A plugin decodes the lines that it matches; `none` is an error of its own.
pub record EventPlugin (F : Type 0) : Type 0 where
  pub plugin_name : Bytes
  pub matches_line : Bytes → Bool
  pub decode : Source → ℕ → Bytes → Option (PgEvent F)

module _ {F : Type 0} (parse_float : Bytes → Option F) where
  -- The switch on the line's prefix.
  unfoldable pub parse_builtin : Source → ℕ → Bytes → Result LineError (PgEvent F)
  unfolding parse_change new_event
  parse_builtin source position line =
      if has_prefix line (codes "BEGIN")
      then (let id = trim_space (trim_prefix line (codes "BEGIN")) in
          ok (
            new_event source position line kind_begin
              (transaction (record { action = kind_begin; id = id }))))
      else if has_prefix line (codes "COMMIT")
      then (let id = trim_space (trim_prefix line (codes "COMMIT")) in
          ok (
            new_event source position line kind_commit
              (transaction (record { action = kind_commit; id = id }))))
      else if has_prefix line (codes "table ")
      then (do
        c ← parse_change parse_float line
        ok (new_event source position line c.operation (change c)))
      else err invalid_line

  -- The first plugin that matches decides; a nil plugin is `none`.
  unfoldable pub parse_with :
      Source → ℕ → Bytes → List (Option (EventPlugin F)) → Result LineError (PgEvent F)
  unfolding parse_builtin
  parse_with source position line [] = parse_builtin source position line
  parse_with source position line (none ∷ ps) = parse_with source position line ps
  parse_with source position line (some p ∷ ps) =
      let rest = parse_with source position line ps in
      if not (p.matches_line line)
      then rest
      else or_err (p.decode source position line) (plugin_failed p.plugin_name)

  -- `parseLine`
  unfoldable pub parse_line :
      Source → ℕ → Bytes → List (Option (EventPlugin F)) → Result LineError (PgEvent F)
  unfolding parse_with
  parse_line source position line ps = parse_with (with_driver source) position line ps
