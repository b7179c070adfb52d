-- ===== src/Tests/Postgres.antt =====
-- The theorems on postgres/ at concrete inputs.
use go_dblog.Prelude.{ℕ, ◌≡◌, refl, Bool, true, Option, none, some, List, [], ◌∷◌, ◌++◌, arith}
use go_dblog.Prelude.Text.{Bytes, codes, double}
use go_dblog.Prelude.Result as Go
use go_dblog.Prelude.Result.{Result, ok, err, panic}
use go_dblog.Dblog.Types.{Source, checkpoint_of}
use go_dblog.Dblog.Stream.{of_list}
use go_dblog.Prelude.Decimal.{itoa}
use go_dblog.Postgres.Types.{
  PgEvent, transaction, text, Column, Change, kind_begin, operation_update,
}
use go_dblog.Postgres.Columns.{parse_scalar, parse_column_value, parse_columns}
use go_dblog.Postgres.Columns.RoundTrip.{
  IsColumn, quoted, literal, at_end, columns_text, parse_columns-text,
}
use go_dblog.Postgres.Sql.{sql_value}
use go_dblog.Postgres.Sql.Laws.{sql_value-parse}
use go_dblog.Postgres.Stream.{Item, as_event, new_decoder, decoder_events, start_position}
use go_dblog.Postgres.Stream.Resume.{items_from, resume_at_line}

-- No text is a float, and no float is there to show.
abbrev no_float : Bytes → Option ℕ
no_float s = none

abbrev show_float : ℕ → Bytes
show_float = itoa

abbrev id_column : Column ℕ
id_column = record {
  name = codes "id";
  typ = codes "integer";
  value = parse_scalar no_float (codes "7");
  raw = codes "7";
}

abbrev note_column : Column ℕ
note_column = record {
  name = codes "note";
  typ = codes "text";
  value = text (codes "it's");
  raw = b'\'' ∷ (double b'\'' (codes "it's") ++ b'\'' ∷ []);
}

id_column-IsColumn : IsColumn no_float id_column
id_column-IsColumn = record {
  name_plain = omega arith;
  name_starts = omega arith;
  typ_plain = omega arith;
  is_value = literal b'7' [] (omega arith) (omega arith);
}

note_column-IsColumn : IsColumn no_float note_column
note_column-IsColumn = record {
  name_plain = omega arith;
  name_starts = omega arith;
  typ_plain = omega arith;
  is_value = quoted (codes "it's");
}

parse_columns-text_example :
    parse_columns no_float (columns_text (id_column ∷ note_column ∷ []))
    ≡ ok (id_column ∷ note_column ∷ [])
parse_columns-text_example =
    parse_columns-text no_float (id_column ∷ note_column ∷ [])
      (id_column-IsColumn, (note_column-IsColumn, tt))

sql_value-parse_example :
    parse_column_value no_float (sql_value show_float (text (codes "it's")) ++ [])
    ≡ ok (sql_value show_float (text (codes "it's")), text (codes "it's"), [])
sql_value-parse_example = sql_value-parse no_float show_float (codes "it's") [] at_end

abbrev update : Change ℕ
update = record {
  schema = codes "public";
  table = codes "t";
  operation = operation_update;
  columns = id_column ∷ [];
  old_key = id_column ∷ [];
  new_tuple = id_column ∷ [];
}

abbrev source : Source
source = record { driver = codes "pg"; name = codes "slot" }

abbrev keep : List (Item ℕ) → Item ℕ → List (Item ℕ) × Bool
keep s i = (i ∷ s, true)

abbrev begin : PgEvent ℕ
begin = record {
  source = source;
  position = 1;
  raw = codes "BEGIN 5";
  kind = kind_begin;
  body = transaction (record { action = kind_begin; id = codes "5" });
}

abbrev lines : List Bytes
lines = codes "BEGIN 5" ∷ codes "COMMIT 5" ∷ []

resume_at_line_example :
    (start_position (checkpoint_of (some (as_event show_float begin))).position ≡ Go.ok 1)
    × (decoder_events no_float show_float (some (new_decoder source [] 1)) lines none keep []
        ≡ of_list
            (items_from no_float show_float source [] 0 1 (codes "COMMIT 5" ∷ []) none)
            keep
            [])
resume_at_line_example =
    resume_at_line no_float show_float source [] 1 begin lines none keep [] refl (omega arith)
