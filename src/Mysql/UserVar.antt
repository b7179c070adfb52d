-- ===== src/Mysql/UserVar.antt =====
-- mysql/decode/events/types/E_MISC_EVENTS.go: USER_VAR_EVENT.
pub mod RoundTrip
use go_dblog.Prelude.{
  ℕ, zero, suc, ◌+◌, Bool, true, false, not, List, [], ◌∷◌, length, ◌==◌, ltb, if◌then◌else◌,
}
use go_dblog.Prelude.Result.{Result, ok, err, panic, ◌>>=◌, ◌>>◌}
use go_dblog.Prelude.Text.{Bytes}
use go_dblog.Mysql.Bytes.{Decoded, byte_at, slice, uint, require_data, require_from}

pub record UserVarEvent : Type 0 where
  pub base : Bytes
  pub name : Bytes
  pub is_null : Bool
  pub typ : ℕ
  pub charset : ℕ
  pub value : Bytes
  pub flags : ℕ
  pub has_flags : Bool

-- The flags, where a byte is left at `p`.
unfoldable pub user_var_flags : Bytes → ℕ → Decoded (ℕ × Bool)
user_var_flags data' p =
    if ltb p (length data') then (do flags ← byte_at data' p; ok (flags, true)) else ok (0, false)

-- Behind the null byte of a value that is not NULL, from `p`.
unfoldable pub user_var_value : Bytes → Bytes → ℕ → Decoded UserVarEvent
unfolding require_from uint slice user_var_flags
user_var_value data' name p = do
  require_from data' p 9
  typ ← byte_at data' p
  charset ← uint 4 data' (p + 1)
  value_length ← uint 4 data' (p + 5)
  require_from data' (p + 9) value_length
  value ← slice data' (p + 9) value_length
  (flags, has_flags) ← user_var_flags data' (p + 9 + value_length)
  ok (record {
    base = data';
    name = name;
    is_null = false;
    typ = typ;
    charset = charset;
    value = value;
    flags = flags;
    has_flags = has_flags;
  })

unfoldable pub null_user_var : Bytes → Bytes → UserVarEvent
null_user_var data' name = record {
  base = data';
  name = name;
  is_null = true;
  typ = 0;
  charset = 0;
  value = [];
  flags = 0;
  has_flags = false;
}

unfoldable pub decode_user_var : Bytes → Decoded UserVarEvent
unfolding require_data require_from uint slice null_user_var user_var_value
decode_user_var data' = do
  require_data data' 5
  name_length ← uint 4 data' 0
  require_from data' 4 (name_length + 1)
  name ← slice data' 4 name_length
  null_byte ← byte_at data' (4 + name_length)
  if not (null_byte == 0)
      then ok (null_user_var data' name)
      else user_var_value data' name (4 + name_length + 1)
