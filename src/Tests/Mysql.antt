-- ===== src/Tests/Mysql.antt =====
-- The theorems on mysql/ at concrete inputs.
use go_dblog.Prelude.{
  ℕ, ◌+◌, ◌^◌, ◌<◌, ◌≡◌, ◌≢◌, refl, Bool, ltb, true, none, some, [], ◌∷◌, ◌++◌, length, arith,
}
use go_dblog.Prelude.Text.{Bytes, codes, same, join}
use go_dblog.Prelude.Result.{ok, panic}
use go_dblog.Prelude.Decimal.{itoa}
use go_dblog.Mysql.Gtid.{sid_text}
use go_dblog.Mysql.PreviousGtids.{decode_previous_gtids, previous_gtids_string}
use go_dblog.Mysql.PreviousGtids.RoundTrip.{WireSet, sets_data, as_set, decode_previous_gtids-data}
use go_dblog.Mysql.Bytes.{put_le, uint}
use go_dblog.Mysql.Util.{EventFrame, validate_data, checksum_crc32}
use go_dblog.Mysql.Util.Checksum.{validate_data-accepts, validate_data_sound}
use go_dblog.Mysql.Header.{EventHeader}
use go_dblog.Mysql.Header.RoundTrip.{Fits}
use go_dblog.Mysql.UserVar.{decode_user_var}
use go_dblog.Mysql.UserVar.RoundTrip.{given, user_var_data, user_var_event, decode_user_var-data}
use go_dblog.Mysql.Load.{decode_load, load_event}
use go_dblog.Mysql.Load.Safe.{decode_load-ne-panic}
use go_dblog.Mysql.XaPrepare.{decode_xa_prepare}
use go_dblog.Mysql.XaPrepare.Bounds.{xa_data, decode_xa_prepare-wraps}

-- A sum of bytes in the place of the CRC-32.
abbrev byte_sum : Bytes → ℕ
byte_sum [] = 0
byte_sum (b ∷ bs) = b + byte_sum bs

abbrev header : EventHeader
header = record {
  timestamp = 1;
  event_type = 3;
  server_id = 2;
  event_size = 26;
  log_pos = 30;
  flag = 0;
  base = codes "0123456789012345678";
}

abbrev frame : EventFrame
frame = record { header = some header; checksum_type = 0; checksum_val = [] }

validate_data-accepts_example :
    validate_data byte_sum frame
      (codes "abc" ++ put_le 4 (byte_sum (header.base ++ codes "abc")))
      true
    ≡ (
      record {
        header = some header;
        checksum_type = checksum_crc32;
        checksum_val = put_le 4 (byte_sum (header.base ++ codes "abc"));
      },
      codes "abc",
      none,
    )
validate_data-accepts_example =
    validate_data-accepts byte_sum frame header (codes "abc") refl (omega arith)

validate_data_sound_example :
    (h : EventHeader) × (some header ≡ some h)
    × (7 + length h.base ≡ h.event_size)
    × (codes "abc" ++ put_le 4 (byte_sum (header.base ++ codes "abc"))
        ≡ codes "abc" ++ put_le 4 (byte_sum (h.base ++ codes "abc")))
unfolding put_le same
validate_data_sound_example =
    validate_data_sound byte_sum frame
      (record {
        header = some header;
        checksum_type = checksum_crc32;
        checksum_val = put_le 4 (byte_sum (header.base ++ codes "abc"));
      })
      (codes "abc" ++ put_le 4 (byte_sum (header.base ++ codes "abc"))) (codes "abc")
      (unfold validate_data in refl)

header-Fits : Fits header
header-Fits = record {
  timestamp_fits = omega arith;
  server_id_fits = omega arith;
  event_size_fits = omega arith;
  log_pos_fits = omega arith;
  flag_fits = omega arith;
}

decode_user_var-data_example :
    decode_user_var (user_var_data (codes "v") (given 3 33 (codes "xyz") (some 1)))
    ≡ ok (
        user_var_event
          (user_var_data (codes "v") (given 3 33 (codes "xyz") (some 1)))
          (codes "v")
          (given 3 33 (codes "xyz") (some 1)))
decode_user_var-data_example =
    decode_user_var-data (codes "v") (given 3 33 (codes "xyz") (some 1)) (omega arith) (omega arith)

decode_load-ne-panic_example : decode_load load_event (codes "0123456789012345678901234567") ≢ panic
decode_load-ne-panic_example =
    decode_load-ne-panic load_event (codes "0123456789012345678901234567")

abbrev xa_good : Bytes
xa_good = 1 ∷ 1 ∷ 0 ∷ 0 ∷ 0 ∷ 1 ∷ 0 ∷ 0 ∷ 0 ∷ 2 ∷ 0 ∷ 0 ∷ 0 ∷ 7 ∷ 8 ∷ 9 ∷ []

xa_lengths : (g b : ℕ) → uint 4 xa_good 5 ≡ ok g → uint 4 xa_good 9 ≡ ok b → g + b < 2 ^ 32
unfolding uint
xa_lengths g b h k = ground arith

decode_xa_prepare-wraps_example : decode_xa_prepare (xa_data 1 1 4294967295 1 []) ≡ panic
decode_xa_prepare-wraps_example =
    decode_xa_prepare-wraps 1 1 4294967295 1 [] (omega arith) (omega arith) (omega arith)
      (omega arith) (omega arith) (omega arith)

abbrev plenty : ℕ → ℕ → Bool
plenty size capacity = ltb capacity 1000

-- The GTIDs 1 to 4 and 9 of a server.
abbrev seen : WireSet
seen = record {
  uuid = codes "0123456789abcdef";
  intervals = record { start = 1; stop = 5 } ∷ record { start = 9; stop = 10 } ∷ [];
}

decode_previous_gtids-data_example :
    decode_previous_gtids plenty (put_le 8 1 ++ sets_data (seen ∷ [])) ≡ ok (as_set seen ∷ [])
decode_previous_gtids-data_example =
    decode_previous_gtids-data plenty (seen ∷ [])
      (
        (refl, ((omega arith, omega arith), ((omega arith, omega arith), tt)), omega arith, refl),
        tt,
      )
      (omega arith) refl

seen_text :
    previous_gtids_string (as_set seen ∷ []) ≡ codes "30313233-3435-3637-3839-616263646566:1-4:9"
unfolding previous_gtids_string sid_text itoa join
seen_text = refl
