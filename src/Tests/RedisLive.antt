-- ===== src/Tests/RedisLive.antt =====
-- The theorems on live replication of Redis at concrete inputs.
use go_dblog.Prelude.{
  ℕ, suc, ◌≡◌, refl, Bool, true, Option, some, [], ◌∷◌, ◌++◌, length, ◌⊎◌, arith,
}
use go_dblog.Prelude.Text.{Bytes, codes}
use go_dblog.Prelude.Decimal.{itoa}
use go_dblog.Dblog.Types.{Event}
use go_dblog.Redis.Reader.{Error}
use go_dblog.Redis.Command.{Command}
use go_dblog.Redis.Stream.{Decoder, new_decoder, decoder_events}
use go_dblog.Redis.Live.{done, LiveError, discard_loop, handshake, live_events}
use go_dblog.Redis.Live.Discard.{behind_marker, discard_loop-behind}
use go_dblog.Redis.Live.Handshake.{
  IsLine, line, full_resync, handshake_commands, handshake-full_resync,
}
use go_dblog.Redis.Live.Events.{lift_yield, live_decoder, live_events-full_resync}

-- The marker begins twice in front of the place where it is whole.
discard_loop-behind_example :
    discard_loop (codes "aab") [] (codes "aaaabxaab")
    ≡ behind_marker (codes "aab") (codes "aaaabxaab")
discard_loop-behind_example = discard_loop-behind b'a' (codes "ab") (codes "aaaabxaab")

-- It leaves what is behind the first place.
discard_first : discard_loop (codes "aab") [] (codes "aaaabxaab") ≡ some (codes "xaab")
unfolding discard_loop
discard_first = refl

abbrev stream : Bytes
stream = codes "*1\r\n$4\r\nPING\r\n"

abbrev rdb : Bytes
rdb = codes "REDIS\n$"

-- What the server sends.
abbrev replies : Bytes
replies = line (codes "+OK") (
    line (codes "+OK")
      (line (full_resync (codes " id 0")) (line (b'$' ∷ itoa (length rdb)) (rdb ++ stream))))

ok-IsLine : IsLine (codes "+OK")
unfolding IsLine
ok-IsLine = (omega arith, (omega arith, (omega arith, tt)))

resync-IsLine : IsLine (codes " id 0")
unfolding IsLine
resync-IsLine = (omega arith, (omega arith, (omega arith, (omega arith, (omega arith, tt)))))

handshake-full_resync_example :
    handshake (record { input = replies; sent = []; writes_left = 4 })
    ≡ done tt (record { input = stream; sent = handshake_commands; writes_left = 1 })
handshake-full_resync_example =
    handshake-full_resync (codes "OK") (codes "OK") (codes " id 0") rdb stream [] 1 ok-IsLine
      ok-IsLine resync-IsLine (omega arith)

abbrev decoder : Decoder
decoder = new_decoder (record { driver = codes "redis"; name = codes "r" }) [] 0

-- A consumer that counts.
abbrev count : ℕ → Option (Event Command Command) × Option (LiveError ⊎ Error) → ℕ × Bool
count n item = (suc n, true)

live_events-full_resync_example :
    (live_events
      (live_decoder decoder (record { input = replies; sent = []; writes_left = 3 }))
      count
      0).1
    ≡ decoder_events (some decoder) stream (lift_yield count) 0
live_events-full_resync_example =
    live_events-full_resync decoder (codes "OK") (codes "OK") (codes " id 0") rdb stream 0 count 0
      ok-IsLine ok-IsLine resync-IsLine (omega arith)
