-- ===== src/Mysql/Load.antt =====
-- mysql/decode/events/types/E_MISC_EVENTS.go: LOAD_EVENT, NEW_LOAD_EVENT and EXECUTE_LOAD_QUERY_EVENT.
-- The source's `pos` is an argument of what follows, and a part of what a piece answers.
pub mod Safe
use go_dblog.Prelude.{
  ℕ, zero, suc, ◌+◌, Bool, true, false, not, Option, none, some, List, [], ◌∷◌, length, ◌==◌,
  if◌then◌else◌,
}
use go_dblog.Prelude.Result.{Result, ok, err, panic, ◌>>=◌, ◌>>◌}
use go_dblog.Prelude.Text.{Bytes}
use go_dblog.Mysql.Bytes.{
  Decoded, byte_at, from, slice, uint, require_data, require_from, trim_nul_string,
}

abbrev pub load_event : ℕ
load_event = 6

abbrev pub new_load_event : ℕ
new_load_event = 12

-- The bytes in front of the first zero byte and those behind it: `bytes.IndexByte(data, 0)`.
unfoldable pub cut_nul : Bytes → Option (Bytes × Bytes)
cut_nul [] = none
cut_nul (c ∷ s) =
    let rest = cut_nul s in
    if c == 0 then some ([], s) else elim rest [ none ↦ none | some (a, b) ↦ some (c ∷ a, b) ]

-- `splitNULStrings`: at most `count` strings, and the bytes that they take.
unfoldable pub split_nul_strings : Bytes → ℕ → List Bytes × ℕ
unfolding cut_nul
split_nul_strings s zero = ([], 0)
split_nul_strings [] (suc count) = ([], 0)
split_nul_strings (c ∷ s) (suc count) = elim (cut_nul (c ∷ s)) [
  | none ↦ ((c ∷ s) ∷ [], length (c ∷ s))
  | some (a, r) ↦ let (out, p) = split_nul_strings r count in (a ∷ out, length a + 1 + p)
]

-- `readFixed` and `readLen`.
unfoldable pub read_fixed : Bytes → ℕ → Decoded (Bytes × ℕ)
unfolding slice
read_fixed s p = do v ← slice s p 1; ok (v, p + 1)

unfoldable pub read_len : Bytes → ℕ → Decoded (Bytes × ℕ)
unfolding require_from slice
read_len s p = do
  require_from s p 1
  n ← byte_at s p
  require_from s (p + 1) n
  v ← slice s (p + 1) n
  ok (v, p + 1 + n)

pub record Terminators : Type 0 where
  pub field_terminator : Bytes
  pub enclosed_by : Bytes
  pub line_terminator : Bytes
  pub line_start : Bytes
  pub escaped_by : Bytes

-- Five reads by `read`.
unfoldable pub read_five : (Bytes → ℕ → Decoded (Bytes × ℕ)) → Bytes → ℕ → Decoded (Terminators × ℕ)
read_five read s p = do
  (a, p1) ← read s p
  (b, p2) ← read s p1
  (c, p3) ← read s p2
  (d, p4) ← read s p3
  (e, p5) ← read s p4
  ok (
    record {
      field_terminator = a;
      enclosed_by = b;
      line_terminator = c;
      line_start = d;
      escaped_by = e;
    },
    p5,
  )

unfoldable pub load_terminators : ℕ → Bytes → ℕ → Decoded (Terminators × ℕ)
unfolding read_five read_len read_fixed require_from
load_terminators event_type s p =
    if event_type == new_load_event
    then read_five read_len s p
    else (do require_from s p 7; read_five read_fixed s p)

-- The option flags, and the empty flags of a LOAD_EVENT.
unfoldable pub load_flags : ℕ → Bytes → ℕ → ℕ → Decoded (ℕ × ℕ × ℕ)
unfolding require_from
load_flags event_type s p column_count = do
  require_from s p (1 + column_count + (if event_type == load_event then 1 else 0))
  opt_flags ← byte_at s p
  if event_type == load_event
      then (do empty_flags ← byte_at s (p + 1); ok (opt_flags, empty_flags, p + 2))
      else ok (opt_flags, 0, p + 1)

pub record LoadNames : Type 0 where
  pub field_name_lengths : Bytes
  pub field_names : List Bytes
  pub table_name : Bytes
  pub schema_name : Bytes
  pub file_name : Bytes
  pub payload : Bytes

-- The lengths of the field names and all the names.
unfoldable pub load_names : Bytes → ℕ → ℕ → ℕ → ℕ → Decoded LoadNames
unfolding require_from slice from split_nul_strings trim_nul_string
load_names s p column_count table_name_length schema_length = do
  require_from s p column_count
  lengths ← slice s p column_count
  rest ← from s (p + column_count)
  let (names, n) = split_nul_strings rest column_count
  let q = p + column_count + n
  require_from s q (table_name_length + 1 + schema_length + 1)
  table ← slice s q (table_name_length + 1)
  schema ← slice s (q + (table_name_length + 1)) (schema_length + 1)
  file ← from s (q + (table_name_length + 1) + (schema_length + 1))
  ok (record {
    field_name_lengths = lengths;
    field_names = names;
    table_name = trim_nul_string table;
    schema_name = trim_nul_string schema;
    file_name = trim_nul_string file;
    payload = file;
  })

pub record LoadEvent : Type 0 where
  pub base : Bytes
  pub event_type : ℕ
  pub slave_proxy_id : ℕ
  pub execution_time : ℕ
  pub skip_lines : ℕ
  pub table_name_length : ℕ
  pub schema_length : ℕ
  pub column_count : ℕ
  pub terminators : Terminators
  pub opt_flags : ℕ
  pub empty_flags : ℕ
  pub names : LoadNames

unfoldable pub decode_load : ℕ → Bytes → Decoded LoadEvent
unfolding require_data uint load_terminators load_flags load_names
decode_load event_type s = do
  require_data s 18
  slave_proxy_id ← uint 4 s 0
  execution_time ← uint 4 s 4
  skip_lines ← uint 4 s 8
  table_name_length ← byte_at s 12
  schema_length ← byte_at s 13
  column_count ← uint 4 s 14
  (terminators, p) ← load_terminators event_type s 18
  (opt_flags, empty_flags, q) ← load_flags event_type s p column_count
  names ← load_names s q column_count table_name_length schema_length
  ok (record {
    base = s;
    event_type = event_type;
    slave_proxy_id = slave_proxy_id;
    execution_time = execution_time;
    skip_lines = skip_lines;
    table_name_length = table_name_length;
    schema_length = schema_length;
    column_count = column_count;
    terminators = terminators;
    opt_flags = opt_flags;
    empty_flags = empty_flags;
    names = names;
  })

pub record ExecuteLoadQueryEvent : Type 0 where
  pub base : Bytes
  pub slave_proxy_id : ℕ
  pub execution_time : ℕ
  pub schema_length : ℕ
  pub error_code : ℕ
  pub status_vars : Bytes
  pub file_id : ℕ
  pub start_pos : ℕ
  pub end_pos : ℕ
  pub dup_handling_flags : ℕ
  pub schema : Bytes
  pub query : Bytes

unfoldable pub decode_execute_load_query : Bytes → Decoded ExecuteLoadQueryEvent
unfolding require_data require_from uint slice from
decode_execute_load_query s = do
  require_data s 26
  slave_proxy_id ← uint 4 s 0
  execution_time ← uint 4 s 4
  schema_length ← byte_at s 8
  error_code ← uint 2 s 9
  status_vars_length ← uint 2 s 11
  file_id ← uint 4 s 13
  start_pos ← uint 4 s 17
  end_pos ← uint 4 s 21
  dup_handling_flags ← byte_at s 25
  require_from s 26 (status_vars_length + schema_length + 1)
  status_vars ← slice s 26 status_vars_length
  schema ← slice s (26 + status_vars_length) schema_length
  query ← from s (26 + status_vars_length + (schema_length + 1))
  ok (record {
    base = s;
    slave_proxy_id = slave_proxy_id;
    execution_time = execution_time;
    schema_length = schema_length;
    error_code = error_code;
    status_vars = status_vars;
    file_id = file_id;
    start_pos = start_pos;
    end_pos = end_pos;
    dup_handling_flags = dup_handling_flags;
    schema = schema;
    query = query;
  })
