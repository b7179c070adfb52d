-- ===== src/Mysql/PreviousGtids/RoundTrip.antt =====
-- PREVIOUS_GTIDS events as they are written.
use go_dblog.Prelude.{
  ℕ, ◌+◌, ◌*◌, ◌^◌, ◌≤◌, ◌<◌, ◌≡◌, refl, ap, Bool, true, List, [], ◌∷◌, ◌++◌, map, length,
  length-append, All, lt→ltb, arith,
}
use go_dblog.Prelude.Result.{ok}
use go_dblog.Prelude.Text.{Bytes}
use go_dblog.Mysql.Bytes.{put_le}
use go_dblog.Mysql.Bytes.At.{
  At, At-start, At-move, At-past, At-past_uint, At-slice, At-uint, At-require, length-put_le,
  require_data-ok,
}
use go_dblog.Mysql.Gtid.{sid_text}
use go_dblog.Mysql.PreviousGtids.{
  GtidInterval, PreviousGtidSet, read_intervals, make_room, read_sets, decode_previous_gtids,
}

-- Intervals on the wire, in front of what follows.
abbrev pub intervals_data : List GtidInterval → Bytes → Bytes
intervals_data [] rest = rest
intervals_data (i ∷ is) rest = put_le 8 i.start ++ (put_le 8 i.stop ++ intervals_data is rest)

-- A set with the bytes of its SID.
pub record WireSet : Type 0 where
  pub uuid : Bytes
  pub intervals : List GtidInterval

abbrev pub sets_data : List WireSet → Bytes
sets_data [] = []
sets_data (w ∷ ws) =
    w.uuid ++ (put_le 8 (length w.intervals) ++ intervals_data w.intervals (sets_data ws))

abbrev pub as_set : WireSet → PreviousGtidSet
as_set w = record { sid = sid_text w.uuid; intervals = w.intervals }

abbrev pub IntervalFits : GtidInterval → Type 0
IntervalFits i = (i.start < 2 ^ 64) × (i.stop < 2 ^ 64)

-- A SID has 16 bytes, the intervals are within their widths, and there is room for them.
abbrev pub SetFits : (ℕ → ℕ → Bool) → WireSet → Type 0
SetFits has_room w =
    (length w.uuid ≡ 16)
    × All IntervalFits w.intervals
    × (length w.intervals < 2 ^ 63)
    × (has_room 16 (length w.intervals) ≡ true)

make_room-ok :
    (has_room : ℕ → ℕ → Bool) (size n : ℕ)
    → n < 2 ^ 63
    → has_room size n ≡ true
    → make_room has_room size n ≡ ok tt
unfolding make_room
make_room-ok has_room size n h k = rw (lt→ltb n (2 ^ 63) h, k) refl

long_pair : (a b : ℕ) (rest : Bytes) → 16 ≤ length (put_le 8 a ++ (put_le 8 b ++ rest))
long_pair a b rest = omega (
  arith,
  length-append (put_le 8 a) (put_le 8 b ++ rest),
  length-append (put_le 8 b) rest,
  length-put_le 8 a,
  length-put_le 8 b,
)

read_intervals-data :
    (is : List GtidInterval) (s rest : Bytes) (pos : ℕ)
    → All IntervalFits is
    → At s pos (intervals_data is rest)
    → (read_intervals (length is) s pos ≡ ok (is, pos + length is * 16))
      × At s (pos + length is * 16) rest
unfolding read_intervals
read_intervals-data [] s rest pos h a =
    let same : pos ≡ pos + 0 = omega arith in (ap (λ (k : ℕ). ok ([], k)) same, At-move same a)
read_intervals-data (i ∷ is) s rest pos ((f1, f2), fs) a =
    let b : At s (pos + 8) _ = At-past_uint 8 i.start a in
    let c : At s (pos + 16) (intervals_data is rest) =
      At-move (omega arith) (At-past_uint 8 i.stop b) in
    let (whole, behind) = read_intervals-data is s rest (pos + 16) fs c in
    let there : pos + 16 + length is * 16 ≡ pos + length (i ∷ is) * 16 = omega arith in
    (
      rw
          (
            At-require 16 (long_pair i.start i.stop (intervals_data is rest)) a,
            At-uint 8 i.start _ (omega (arith, f1)) a,
            At-uint 8 i.stop _ (omega (arith, f2)) b,
            whole,
          )
          (ap (λ (k : ℕ). ok (i ∷ is, k)) there),
      At-move there behind,
    )

read_sets-data :
    (has_room : ℕ → ℕ → Bool) (ws : List WireSet) (s : Bytes) (pos : ℕ)
    → All (SetFits has_room) ws
    → At s pos (sets_data ws)
    → read_sets has_room (length ws) s pos ≡ ok (map as_set ws)
unfolding read_sets
read_sets-data has_room [] s pos h a = refl
read_sets-data has_room (w ∷ ws) s pos ((sixteen, fits, small, room), fs) a =
    let n = length w.intervals in
    let rest = intervals_data w.intervals (sets_data ws) in
    let b : At s (pos + 16) (put_le 8 n ++ rest) = At-past w.uuid 16 sixteen a in
    let c : At s (pos + 24) rest = At-move (omega arith) (At-past_uint 8 n b) in
    let (whole, behind) = read_intervals-data w.intervals s (sets_data ws) (pos + 24) fits c in
    let long : 24 ≤ length (w.uuid ++ (put_le 8 n ++ rest)) = omega (
      arith,
      length-append w.uuid (put_le 8 n ++ rest),
      length-append (put_le 8 n) rest,
      length-put_le 8 n,
      sixteen,
    ) in
    rw
      (
        At-require 24 long a,
        At-slice w.uuid (put_le 8 n ++ rest) 16 sixteen a,
        At-uint 8 n rest (omega (arith, small)) b,
        make_room-ok has_room 16 n small room,
        whole,
        read_sets-data has_room ws s (pos + 24 + n * 16) fs behind,
      )
      refl

-- The decoder of PREVIOUS_GTIDS events reads back every list of sets from its count and the sets one
-- behind the other, each with its SID as text and its intervals: where SIDs have 16 bytes, starts and
-- stops are below 2^64, and there is room for slices of as many sets and intervals.
pub decode_previous_gtids-data :
    (has_room : ℕ → ℕ → Bool) (ws : List WireSet)
    → All (SetFits has_room) ws
    → length ws < 2 ^ 63
    → has_room 40 (length ws) ≡ true
    → decode_previous_gtids has_room (put_le 8 (length ws) ++ sets_data ws) ≡ ok (map as_set ws)
unfolding decode_previous_gtids
decode_previous_gtids-data has_room ws fs small room =
    let s : Bytes = put_le 8 (length ws) ++ sets_data ws in
    let a : At s 0 s = At-start s in
    let b : At s 8 (sets_data ws) = At-past_uint 8 (length ws) a in
    let long : 8 ≤ length s =
      omega
        (arith, length-append (put_le 8 (length ws)) (sets_data ws), length-put_le 8 (length ws)) in
    rw
      (
        require_data-ok s 8 long,
        At-uint 8 (length ws) (sets_data ws) (omega (arith, small)) a,
        make_room-ok has_room 40 (length ws) small room,
      )
      (read_sets-data has_room ws s 8 fs b)
