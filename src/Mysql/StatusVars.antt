-- ===== src/Mysql/StatusVars.antt =====
-- The status variables of mysql/decode/events/types/E_QUERY_EVENT.go.
pub mod Safe
use go_dblog.Prelude.{
  ℕ, zero, suc, ◌+◌, ◌*◌, ◌%◌, ◌^◌, Bool, true, false, Option, none, some, List, [], ◌∷◌, length,
  ◌==◌, leb, if◌then◌else◌,
}
use go_dblog.Prelude.Result.{Result, ok, err, panic, ◌>>=◌}
use go_dblog.Prelude.Text.{Bytes}
use go_dblog.Mysql.Bytes.{
  Decoded, no_description, unterminated_db_name, byte_at, from, slice, uint, require_data,
  require_from,
}
use go_dblog.Mysql.Util.{fixed_length_int}
use go_dblog.Mysql.Load.{cut_nul}
use go_dblog.Mysql.Rows.Event.{and_then}
use go_dblog.Mysql.Description.{FmtDescEvent}

pub record QueryStatusVars : Type 0 where
  pub flags2 : ℕ
  pub sql_mode : ℕ
  pub catalog : Bytes
  pub auto_increment_increment : ℕ
  pub auto_increment_offset : ℕ
  pub client_charset : ℕ
  pub collation_connection : ℕ
  pub collation_server : ℕ
  pub time_zone : Bytes
  pub catalog_nz : Bytes
  pub lc_time_names : ℕ
  pub charset_database : ℕ
  pub table_map_for_update : ℕ
  pub master_data_written : ℕ
  pub invoker_user : Bytes
  pub invoker_host : Bytes
  pub updated_db_names : List Bytes
  pub microseconds : ℕ
  pub unknown_status_vars_payload : Bytes

-- The zero value.
abbrev pub no_status : QueryStatusVars
no_status = record {
  flags2 = 0;
  sql_mode = 0;
  catalog = [];
  auto_increment_increment = 0;
  auto_increment_offset = 0;
  client_charset = 0;
  collation_connection = 0;
  collation_server = 0;
  time_zone = [];
  catalog_nz = [];
  lc_time_names = 0;
  charset_database = 0;
  table_map_for_update = 0;
  master_data_written = 0;
  invoker_user = [];
  invoker_host = [];
  updated_db_names = [];
  microseconds = 0;
  unknown_status_vars_payload = [];
}

-- The status variables with one more, and the position behind it.
abbrev pub Read : Type 0
Read = Decoded (QueryStatusVars × ℕ)

-- A number of `n` bytes at position `i`.
unfoldable pub read_word : ℕ → Bytes → ℕ → (ℕ → QueryStatusVars) → Read
unfolding require_from uint
read_word n s i make = do _ ← require_from s i n; v ← uint n s i; ok (make v, i + n)

-- A text behind the byte of its length, with `extra` bytes behind it that are skipped.
unfoldable pub read_short : ℕ → Bytes → ℕ → (Bytes → QueryStatusVars) → Read
unfolding require_from slice
read_short extra s i make = do
  _ ← require_from s i 1
  n ← byte_at s i
  _ ← require_from s (i + 1) (n + extra)
  text ← slice s (i + 1) n
  ok (make text, i + 1 + n + extra)

unfoldable pub read_auto_increment : Bytes → ℕ → QueryStatusVars → Read
unfolding require_from uint
read_auto_increment s i status = do
  _ ← require_from s i 4
  increment ← uint 2 s i
  offset ← uint 2 s (i + 2)
  ok (record status { auto_increment_increment = increment; auto_increment_offset = offset }, i + 4)

unfoldable pub read_charset : Bytes → ℕ → QueryStatusVars → Read
unfolding require_from uint
read_charset s i status = do
  _ ← require_from s i 6
  client ← uint 2 s i
  connection ← uint 2 s (i + 2)
  server ← uint 2 s (i + 4)
  ok (
    record status {
      client_charset = client;
      collation_connection = connection;
      collation_server = server;
    },
    i + 6,
  )

unfoldable pub read_invokers : Bytes → ℕ → QueryStatusVars → Read
unfolding require_from slice
read_invokers s i status = do
  _ ← require_from s i 1
  n ← byte_at s i
  _ ← require_from s (i + 1) (n + 1)
  user ← slice s (i + 1) n
  m ← byte_at s (i + 1 + n)
  _ ← require_from s (i + 1 + n + 1) m
  host ← slice s (i + 1 + n + 1) m
  ok (record status { invoker_user = user; invoker_host = host }, i + 1 + n + 1 + m)

-- The loop over the names of updated databases, each with a zero behind it, from position `i`.
unfoldable pub read_names : ℕ → Bytes → ℕ → Decoded (List Bytes × ℕ)
unfolding from cut_nul
read_names zero s i = ok ([], i)
read_names (suc n) s i = do
  rest ← from s i
  elim (cut_nul rest) [
    | none ↦ err unterminated_db_name
    | some (name, _) ↦ (do
      names ← read_names n s (i + length name + 1)
      ok (name ∷ names.0, names.1))
  ]

unfoldable pub read_updated_names : Bytes → ℕ → QueryStatusVars → Read
unfolding require_from read_names
read_updated_names s i status = do
  _ ← require_from s i 1
  count ← byte_at s i
  names ← read_names count s (i + 1)
  ok (record status { updated_db_names = names.0 }, names.1)

unfoldable pub read_microseconds : Bytes → ℕ → QueryStatusVars → Read
unfolding require_from slice fixed_length_int
read_microseconds s i status = do
  _ ← require_from s i 3
  bs ← slice s i 3
  ok (record status { microseconds = fixed_length_int bs % 2 ^ 32 }, i + 3)

-- The codes that are texts or lists.
unfoldable pub read_text_var : ℕ → Bytes → ℕ → QueryStatusVars → Option Read
unfolding read_short read_auto_increment read_charset read_invokers read_updated_names
    read_microseconds
read_text_var k s i status =
    if k == 2
    then some (read_short 1 s i λ v. record status { catalog = v })
    else if k == 3
    then some (read_auto_increment s i status)
    else if k == 4
    then some (read_charset s i status)
    else if k == 5
    then some (read_short 0 s i λ v. record status { time_zone = v })
    else if k == 6
    then some (read_short 0 s i λ v. record status { catalog_nz = v })
    else if k == 11
    then some (read_invokers s i status)
    else if k == 12
    then some (read_updated_names s i status)
    else if k == 13
    then some (read_microseconds s i status)
    else none

-- The switch on the code `k` of a variable, whose value is at position `i`; none where the code is
-- unknown.
unfoldable pub read_var : ℕ → Bytes → ℕ → QueryStatusVars → Option Read
unfolding read_word read_text_var
read_var k s i status =
    if k == 0
    then some (read_word 4 s i λ v. record status { flags2 = v })
    else if k == 1
    then some (read_word 8 s i λ v. record status { sql_mode = v })
    else if k == 7
    then some (read_word 2 s i λ v. record status { lc_time_names = v })
    else if k == 8
    then some (read_word 2 s i λ v. record status { charset_database = v })
    else if k == 9
    then some (read_word 8 s i λ v. record status { table_map_for_update = v })
    else if k == 10
    then some (read_word 4 s i λ v. record status { master_data_written = v })
    else read_text_var k s i status

-- The rest of the loop, with what the switch gave; `next` are the rounds that follow.
unfoldable pub status_round :
    Bytes
    → ℕ
    → QueryStatusVars
    → (ℕ → QueryStatusVars → Option (Decoded QueryStatusVars))
    → Option Read
    → Option (Decoded QueryStatusVars)
unfolding from
status_round s i status next none =
    some (from s i >>= λ rest. ok (record status { unknown_status_vars_payload = rest }))
status_round s i status next (some (ok (status', i'))) = next i' status'
status_round s i status next (some (err e)) = some (err e)
status_round s i status next (some panic) = some panic

-- One round, with the code.
unfoldable pub status_code :
    Bytes
    → ℕ
    → QueryStatusVars
    → (ℕ → QueryStatusVars → Option (Decoded QueryStatusVars))
    → Decoded ℕ
    → Option (Decoded QueryStatusVars)
unfolding status_round read_var
status_code s i status next (ok k) = status_round s i status next (read_var k s (i + 1) status)
status_code s i status next (err e) = some (err e)
status_code s i status next panic = some panic

-- The loop of `DecodeQueryStatusVars` from position `i`, on fuel; none where it is used up. Of an
-- error the status variables read so far are dropped, as both callers do.
unfoldable pub status_loop : ℕ → Bytes → ℕ → QueryStatusVars → Option (Decoded QueryStatusVars)
unfolding status_code
status_loop zero s i status = if leb (length s) i then some (ok status) else none
status_loop (suc fuel) s i status =
    if leb (length s) i
    then some (ok status)
    else status_code s i status (λ i' status'. status_loop fuel s i' status') (byte_at s i)

-- `DecodeQueryStatusVars`. A round takes a byte at least.
unfoldable pub decode_query_status_vars : Bytes → Option (Decoded QueryStatusVars)
unfolding status_loop
decode_query_status_vars s = status_loop (length s) s 0 no_status
