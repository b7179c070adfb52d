-- ===== src/Mysql/PreviousGtids.antt =====
-- The PREVIOUS_GTIDS event of mysql/decode/events/types/E_MISC_EVENTS.go. Whether `make` has room for
-- a slice of so many elements, of so many bytes each, is the parameter `has_room`.
pub mod RoundTrip
use go_dblog.Prelude.{
  ℕ, zero, suc, ◌+◌, ◌-◌, ◌%◌, ◌^◌, Bool, ◌&&◌, List, [], ◌∷◌, ◌++◌, map, ltb, ◌==◌, if◌then◌else◌,
}
use go_dblog.Prelude.Result.{ok, panic, ◌>>=◌}
use go_dblog.Prelude.Text.{Bytes, codes, join}
use go_dblog.Prelude.Decimal.{itoa}
use go_dblog.Mysql.Bytes.{Decoded, slice, uint, require_data, require_from}
use go_dblog.Mysql.Gtid.{sid_text}

pub record GtidInterval : Type 0 where
  pub start : ℕ
  pub stop : ℕ

pub record PreviousGtidSet : Type 0 where
  pub sid : Bytes
  pub intervals : List GtidInterval

-- The loop over the intervals of a set, with the position behind them.
unfoldable pub read_intervals : ℕ → Bytes → ℕ → Decoded (List GtidInterval × ℕ)
unfolding require_from uint
read_intervals zero s pos = ok ([], pos)
read_intervals (suc n) s pos = do
  _ ← require_from s pos 16
  start ← uint 8 s pos
  stop ← uint 8 s (pos + 8)
  rest ← read_intervals n s (pos + 16)
  ok (record { start = start; stop = stop } ∷ rest.0, rest.1)

-- `make` with a capacity that is converted to `int`; it panics where that is negative.
unfoldable pub make_room : (ℕ → ℕ → Bool) → ℕ → ℕ → Decoded (Unit {0})
make_room has_room size capacity =
    if ltb capacity (2 ^ 63) && has_room size capacity then ok tt else panic

-- The loop over the sets. An interval has 16 bytes, and a set 40.
unfoldable pub read_sets : (ℕ → ℕ → Bool) → ℕ → Bytes → ℕ → Decoded (List PreviousGtidSet)
unfolding require_from slice uint sid_text make_room read_intervals
read_sets has_room zero s pos = ok []
read_sets has_room (suc n) s pos = do
  _ ← require_from s pos 24
  sid ← slice s pos 16
  count ← uint 8 s (pos + 16)
  _ ← make_room has_room 16 count
  intervals ← read_intervals count s (pos + 24)
  rest ← read_sets has_room n s intervals.1
  ok (record { sid = sid_text sid; intervals = intervals.0 } ∷ rest)

-- `PreviousGTIDsEvent.Decode`
unfoldable pub decode_previous_gtids : (ℕ → ℕ → Bool) → Bytes → Decoded (List PreviousGtidSet)
unfolding require_data uint make_room read_sets
decode_previous_gtids has_room s = do
  _ ← require_data s 8
  count ← uint 8 s 0
  _ ← make_room has_room 40 count
  read_sets has_room count s 8

-- An interval as text; the sum and the difference wrap.
unfoldable pub interval_text : GtidInterval → Bytes
unfolding itoa
interval_text i =
    if i.stop == (i.start + 1) % 2 ^ 64
    then itoa i.start
    else itoa i.start ++ (b'-' ∷ itoa ((i.stop + (2 ^ 64 - 1)) % 2 ^ 64))

-- `PreviousGTIDsEvent.String`
unfoldable pub previous_gtids_string : List PreviousGtidSet → Bytes
unfolding interval_text
previous_gtids_string sets =
    join
      (map
        (λ (set : PreviousGtidSet).
          set.sid ++ (b':' ∷ join (map interval_text set.intervals) (codes ":")))
        sets)
      (codes ",")
