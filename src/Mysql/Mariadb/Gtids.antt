-- ===== src/Mysql/Mariadb/Gtids.antt =====
-- The GTID events of MariaDB: lists as they are written, and a group commit that is cut short.
use go_dblog.Prelude.{
  ℕ, ◌+◌, ◌*◌, ◌^◌, ◌≤◌, ◌<◌, ◌≡◌, refl, true, List, [], ◌∷◌, ◌++◌, length, length-append, All,
  arith,
}
use go_dblog.Prelude.Result.{ok, panic}
use go_dblog.Prelude.Text.{Bytes}
use go_dblog.Mysql.Bytes.{uint, put_le}
use go_dblog.Mysql.Bytes.At.{
  At, At-start, At-move, At-past_uint, At-uint, At-require, At-slice-short, At-byte, At-past,
  length-At, length-put_le, require_data-ok,
}
use go_dblog.Mysql.Mariadb.{has_commit_id, decode_mariadb_gtid, Gtid, read_gtids, decode_gtid_list}

-- A GTID on the wire, in front of what follows.
abbrev pub gtid_data : Gtid → Bytes → Bytes
gtid_data g rest = put_le 4 g.domain_id ++ (put_le 4 g.server_id ++ (put_le 8 g.sequence ++ rest))

abbrev pub gtids_data : List Gtid → Bytes
gtids_data [] = []
gtids_data (g ∷ gs) = gtid_data g (gtids_data gs)

-- The fields are within their widths.
abbrev pub GtidFits : Gtid → Type 0
GtidFits g = (g.domain_id < 2 ^ 32) × (g.server_id < 2 ^ 32) × (g.sequence < 2 ^ 64)

length-gtids : (gs : List Gtid) → length (gtids_data gs) ≡ length gs * 16
length-gtids [] = refl
length-gtids (g ∷ gs) = ground (
  arith,
  length-append (put_le 4 g.domain_id)
      (put_le 4 g.server_id ++ (put_le 8 g.sequence ++ gtids_data gs)),
  length-append (put_le 4 g.server_id) (put_le 8 g.sequence ++ gtids_data gs),
  length-append (put_le 8 g.sequence) (gtids_data gs),
  length-put_le 4 g.domain_id,
  length-put_le 4 g.server_id,
  length-put_le 8 g.sequence,
  length-gtids gs,
)

read_gtids-data :
    (gs : List Gtid) (s : Bytes) (pos : ℕ)
    → All GtidFits gs
    → At s pos (gtids_data gs)
    → read_gtids (length gs) s pos ≡ ok gs
unfolding read_gtids
read_gtids-data [] s pos h a = refl
read_gtids-data (g ∷ gs) s pos ((f1, f2, f3), fs) a =
    let b : At s (pos + 4) _ = At-past_uint 4 g.domain_id a in
    let c : At s (pos + 8) _ = At-move (omega arith) (At-past_uint 4 g.server_id b) in
    let d : At s (pos + 16) _ = At-move (omega arith) (At-past_uint 8 g.sequence c) in
    rw
      (
        At-uint 4 g.domain_id _ (omega (arith, f1)) a,
        At-uint 4 g.server_id _ (omega (arith, f2)) b,
        At-uint 8 g.sequence _ (omega (arith, f3)) c,
        read_gtids-data gs s (pos + 16) fs d,
      )
      refl

-- The decoder of MariaDB's GTID_LIST events reads back every list of fewer than 2^32 GTIDs, each with
-- its fields within their widths, from its count and the GTIDs one behind the other.
pub decode_gtid_list-data :
    (gs : List Gtid)
    → All GtidFits gs
    → length gs < 2 ^ 32
    → decode_gtid_list (put_le 4 (length gs) ++ gtids_data gs) ≡ ok gs
unfolding decode_gtid_list
decode_gtid_list-data gs fs small =
    let s : Bytes = put_le 4 (length gs) ++ gtids_data gs in
    let a : At s 0 s = At-start s in
    let b : At s 4 (gtids_data gs) = At-past_uint 4 (length gs) a in
    let long : 4 ≤ length s =
      omega (
        arith,
        length-append (put_le 4 (length gs)) (gtids_data gs),
        length-put_le 4 (length gs),
      ) in
    let room : length gs * 16 ≤ length (gtids_data gs) = omega (arith, length-gtids gs) in
    rw
      (
        require_data-ok s 4 long,
        At-uint 4 (length gs) (gtids_data gs) (omega (arith, small)) a,
        At-require (length gs * 16) room b,
      )
      (read_gtids-data gs s 4 fs b)

uint_short : (s tail : Bytes) (i : ℕ) → length tail < 8 → At s i tail → uint 8 s i ≡ panic
unfolding uint
uint_short s tail i h a = rw (At-slice-short 8 h a) refl

-- A GTID event of 19 or 20 bytes whose flags have the bit of a group commit passes the decoder's
-- length check, and the decoder panics: the commit id ends at the 21st byte.
pub decode_mariadb_gtid-short :
    (sequence domain flags : ℕ) (tail : Bytes)
    → sequence < 2 ^ 64
    → domain < 2 ^ 32
    → has_commit_id flags ≡ true
    → 6 ≤ length tail
    → length tail < 8
    → decode_mariadb_gtid (put_le 8 sequence ++ (put_le 4 domain ++ (flags ∷ tail))) ≡ panic
unfolding decode_mariadb_gtid
decode_mariadb_gtid-short sequence domain flags tail fs fd set low high =
    let s : Bytes = put_le 8 sequence ++ (put_le 4 domain ++ (flags ∷ tail)) in
    let a : At s 0 s = At-start s in
    let b : At s 8 (put_le 4 domain ++ (flags ∷ tail)) = At-past_uint 8 sequence a in
    let c : At s 12 (flags ∷ tail) = At-past_uint 4 domain b in
    let d : At s 13 tail = At-past (flags ∷ []) 1 refl c in
    let long : 19 ≤ length s = omega (arith, length-At d, low) in
    rw
      (
        require_data-ok s 19 long,
        At-uint 8 sequence _ (omega (arith, fs)) a,
        At-uint 4 domain _ (omega (arith, fd)) b,
        At-byte c,
        set,
        uint_short s tail 13 high d,
      )
      refl
