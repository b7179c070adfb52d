-- ===== src/Mysql/Small.antt =====
-- mysql/decode/events/types: E_XID_EVENT.go, E_INTVAR_EVENT.go, E_ROTATE_EVENT.go and
-- E_METADATA_EVENT.go. `opt.Description.BinlogVersion` and the post-header length of the event
-- context are arguments; a missing context is `none`.
pub mod Short
use go_dblog.Prelude.{
  ℕ, zero, suc, ◌+◌, Bool, true, false, ◌||◌, Option, none, some, List, [], ◌∷◌, length, take, drop,
  ◌==◌, ltb, leb, if◌then◌else◌,
}
use go_dblog.Prelude.Int.{ℤ, pos, negsuc}
use go_dblog.Prelude.Result.{Result, ok, err, panic, ◌>>=◌}
use go_dblog.Prelude.Text.{Bytes, trim_space}
use go_dblog.Mysql.Bytes.{Decoded, byte_at, from, uint}

pub record XidEvent : Type 0 where
  pub xid : ℕ

unfoldable pub decode_xid : Bytes → Decoded XidEvent
unfolding uint
decode_xid s = do xid ← uint 8 s 0; ok (record { xid = xid })

pub record IntvarEvent : Type 0 where
  pub typ : ℕ
  pub value : ℕ

unfoldable pub decode_intvar : Bytes → Decoded IntvarEvent
unfolding uint
decode_intvar s = do typ ← byte_at s 0; value ← uint 8 s 1; ok (record { typ = typ; value = value })

pub record RotateEvent : Type 0 where
  pub position : ℕ
  pub file_name : Bytes

unfoldable pub decode_rotate : ℕ → Bytes → Decoded RotateEvent
unfolding uint from
decode_rotate binlog_version s =
    if leb 2 binlog_version
    then (do
      position ← uint 8 s 0
      name ← from s 8
      ok (record { position = position; file_name = trim_space name }))
    else ok (record { position = 0; file_name = trim_space s })

pub record MetadataEvent : Type 0 where
  pub base : Bytes
  pub event_type : ℕ
  pub post_header_length : ℤ
  pub post_header : Bytes
  pub payload : Bytes

-- The event whole, with a length for the post-header.
unfoldable pub whole_payload : Bytes → ℕ → ℤ → MetadataEvent
whole_payload s event_type n = record {
  base = s;
  event_type = event_type;
  post_header_length = n;
  post_header = [];
  payload = s;
}

-- Behind the choice of the event type.
unfoldable pub metadata_of : Bytes → ℕ → Option ℤ → MetadataEvent
unfolding whole_payload
metadata_of s event_type none = whole_payload s event_type (negsuc 0)
metadata_of s event_type (some (negsuc n)) = whole_payload s event_type (negsuc n)
metadata_of s event_type (some (pos n)) =
    if n == 0 || ltb (length s) n then whole_payload s event_type (pos n) else record {
      base = s;
      event_type = event_type;
      post_header_length = pos n;
      post_header = take n s;
      payload = drop n s;
    }

-- `Decode`, with the event type of the decoder, that of the options, and the function of the context
-- that gives the length of the post-header of an event type.
unfoldable pub decode_metadata : ℕ → ℕ → Option (ℕ → ℤ) → Bytes → Decoded MetadataEvent
unfolding metadata_of
decode_metadata own given context s =
    let event_type = if given == 0 then own else given in
    ok (
      metadata_of s event_type
        (elim context [ none ↦ none | some length_of ↦ some (length_of event_type) ]))
