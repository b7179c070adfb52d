-- ===== src/Mysql/Mariadb.antt =====
-- mysql/plugin/mariadb/plugin.go: the events of MariaDB and their registration. The decompression of
-- compress/zlib is the parameter `inflate`, with an error as none.
pub mod Gtids
use go_dblog.Prelude.{
  ℕ, zero, suc, ◌+◌, ◌*◌, ◌/◌, ◌%◌, ◌^◌, Bool, true, false, Option, none, some, List, [], ◌∷◌,
  length, ◌==◌, if◌then◌else◌,
}
use go_dblog.Prelude.Result.{Result, ok, err, panic, ◌>>=◌}
use go_dblog.Prelude.Text.{Bytes, codes, cut}
use go_dblog.Mysql.Bytes.{
  Decoded, inflate_failed, byte_at, from, slice, uint, require_data, require_from,
}
use go_dblog.Mysql.Description.{FmtDescEvent}
use go_dblog.Mysql.Query.{QueryEvent, decode_query}
use go_dblog.Mysql.Rows.Event.{and_then}
use go_dblog.Mysql.Registry.{EventRegistry, RegistryError, register_decoder, register_name, is_some}

-- `Match`, on a description that is not nil.
unfoldable pub mariadb_matches : FmtDescEvent → Bool
unfolding cut
mariadb_matches fde = is_some (cut fde.mysql_version_text (codes "MariaDB"))

-- The loop of `Register` over the decoders, up to the first error.
unfoldable pub register_all :
    {D : Type 0} → (D → List ℕ) → List D → EventRegistry D → EventRegistry D × Option RegistryError
unfolding register_decoder
register_all types_of [] r = (r, none)
register_all types_of (d ∷ ds) r =
    let one = register_decoder types_of (some d) r in
    let rest = register_all types_of ds one.0 in
    elim one.1 [ none ↦ rest | some e ↦ (one.0, some e) ]

unfoldable pub register_names : {D : Type 0} → List (ℕ × Bytes) → EventRegistry D → EventRegistry D
unfolding register_name
register_names [] r = r
register_names (n ∷ ns) r = register_names ns (register_name n.0 n.1 r)

abbrev pub mariadb_names : List (ℕ × Bytes)
mariadb_names =
    (160, codes "MARIADB_ANNOTATE_ROWS_EVENT")
    ∷ (161, codes "MARIADB_BINLOG_CHECKPOINT_EVENT")
    ∷ (162, codes "MARIADB_GTID_EVENT")
    ∷ (163, codes "MARIADB_GTID_LIST_EVENT")
    ∷ (164, codes "MARIADB_START_ENCRYPTION_EVENT")
    ∷ (165, codes "MARIADB_QUERY_COMPRESSED_EVENT")
    ∷ (166, codes "MARIADB_WRITE_ROWS_COMPRESSED_EVENT_V1")
    ∷ (167, codes "MARIADB_UPDATE_ROWS_COMPRESSED_EVENT_V1")
    ∷ (168, codes "MARIADB_DELETE_ROWS_COMPRESSED_EVENT_V1")
    ∷ []

-- `Register`, with the seven decoders of the plugin.
unfoldable pub mariadb_register :
    {D : Type 0} → (D → List ℕ) → List D → EventRegistry D → EventRegistry D × Option RegistryError
unfolding register_all register_names
mariadb_register types_of ds r =
    let all = register_all types_of ds r in
    elim all.1 [ none ↦ (register_names mariadb_names all.0, none) | some e ↦ (all.0, some e) ]

-- `BinlogCheckpointLogEvent.Decode`: the file name.
unfoldable pub decode_binlog_checkpoint : Bytes → Decoded Bytes
unfolding require_data require_from uint slice
decode_binlog_checkpoint s = do
  _ ← require_data s 4
  n ← uint 4 s 0
  _ ← require_from s 4 n
  slice s 4 n

pub record MariadbGtidEvent : Type 0 where
  pub sequence : ℕ
  pub domain_id : ℕ
  pub flags : ℕ
  pub commit_id : ℕ
  pub extra_data : Bytes

-- `flags & gtidFlagGroupCommitID != 0`
unfoldable pub has_commit_id : ℕ → Bool
has_commit_id flags = flags / 2 % 2 == 1

-- `GTIDLogEvent.Decode`
unfoldable pub decode_mariadb_gtid : Bytes → Decoded MariadbGtidEvent
unfolding require_data uint from has_commit_id
decode_mariadb_gtid s = do
  _ ← require_data s 19
  sequence ← uint 8 s 0
  domain ← uint 4 s 8
  flags ← byte_at s 12
  if has_commit_id flags
      then (do
        commit ← uint 8 s 13
        extra ← from s 21
        ok (record {
          sequence = sequence;
          domain_id = domain;
          flags = flags;
          commit_id = commit;
          extra_data = extra;
        }))
      else (do
        extra ← from s 13
        ok (record {
          sequence = sequence;
          domain_id = domain;
          flags = flags;
          commit_id = 0;
          extra_data = extra;
        }))

pub record Gtid : Type 0 where
  pub domain_id : ℕ
  pub server_id : ℕ
  pub sequence : ℕ

-- The loop of `GTIDListLogEvent.Decode`, from position `pos`.
unfoldable pub read_gtids : ℕ → Bytes → ℕ → Decoded (List Gtid)
unfolding uint
read_gtids zero s pos = ok []
read_gtids (suc n) s pos = do
  domain ← uint 4 s pos
  server ← uint 4 s (pos + 4)
  sequence ← uint 8 s (pos + 8)
  rest ← read_gtids n s (pos + 16)
  ok (record { domain_id = domain; server_id = server; sequence = sequence } ∷ rest)

unfoldable pub decode_gtid_list : Bytes → Decoded (List Gtid)
unfolding require_data require_from uint read_gtids
decode_gtid_list s = do
  _ ← require_data s 4
  count ← uint 4 s 0
  _ ← require_from s 4 (count * 16)
  read_gtids count s 4

pub record StartEncryptionEvent : Type 0 where
  pub scheme : ℕ
  pub key_version : ℕ
  pub nonce : Bytes

unfoldable pub decode_start_encryption : Bytes → Decoded StartEncryptionEvent
unfolding require_data uint slice
decode_start_encryption s = do
  _ ← require_data s 17
  scheme ← byte_at s 0
  key ← uint 4 s 1
  nonce ← slice s 5 12
  ok (record { scheme = scheme; key_version = key; nonce = nonce })

-- `inflateZlib` as a call that may fail.
unfoldable pub inflated : (Bytes → Option Bytes) → Bytes → Decoded Bytes
inflated inflate s = elim (inflate s) [ none ↦ err inflate_failed | some payload ↦ ok payload ]

-- `QueryCompressedLogEvent.Decode`: the query in the decompressed payload.
unfoldable pub decode_query_compressed :
    (Bytes → Option Bytes) → Option FmtDescEvent → Bytes → Option (Decoded QueryEvent)
unfolding inflated decode_query and_then
decode_query_compressed inflate fde s = and_then (inflated inflate s) (decode_query fde)
