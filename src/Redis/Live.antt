-- ===== src/Redis/Live.antt =====
-- redis/decode/decoder/live.go: the handshake of a replica with a server, and the events behind it.
-- The connection is what the server will have sent, what was written to it, and the number of writes
-- that it still takes. The context is not cancelled.
pub mod Discard
pub mod Handshake
pub mod Events
use go_dblog.Prelude.{
  ℕ, zero, suc, ◌+◌, ◌-◌, Bool, true, false, not, Option, none, some, List, [], ◌∷◌, ◌++◌, length,
  drop, ltb, leb, ◌==◌, if◌then◌else◌, ◌⊎◌, inl, inr,
}
use go_dblog.Prelude.Text.{Bytes, codes, same, has_prefix, cut_prefix, trim_prefix, is_empty}
use go_dblog.Prelude.Int.{ℤ, pos, negsuc}
use go_dblog.Prelude.Decimal.{atoi}
use go_dblog.Dblog.Types.{Event}
use go_dblog.Redis.Reader.{Reader, Error, Outcome, ok, err, panic, read_line, split_at}
use go_dblog.Redis.Command.{Command}
use go_dblog.Redis.Resp.{encode_command, parse_command}
use go_dblog.Redis.Stream.{Decoder, apply_command_plugins, new_event, as_event, is_eof}
use go_dblog.Prelude.Result as Go
use go_dblog.Prelude.Result.{Result}

pub record Conn : Type 0 where
  pub input : Bytes
  pub sent : Bytes
  pub writes_left : ℕ

-- Where an error comes from.
pub data Stage : Type 0 where
  reply : Stage
  psync : Stage
  rdb_header : Stage
  rdb_length : Stage

pub data LiveError : Type 0 where
  write_failed : LiveError
  read_failed : Stage → Error → LiveError
  refused : Stage → Bytes → LiveError
  invalid : Stage → Bytes → LiveError
  rdb_cut_short : LiveError
  diskless_cut_short : LiveError
  empty_marker : LiveError

-- What a step leaves behind, whatever its result.
pub data Step (A : Type 0) : Type 0 where
  done : A → Conn → Step A
  failed : LiveError → Conn → Step A
  crashed : Step A

abbrev pub continue : {A B : Type 0} → Step A → (A → Conn → Step B) → Step B
continue (done a c) next = next a c
continue (failed e c) next = failed e c
continue crashed next = crashed

abbrev pub Live : Type 0 → Type 0
Live A = Conn → Step A

infixl 5 ◌>>=◌
abbrev pub ◌>>=◌ : {A B : Type 0} → Live A → (A → Live B) → Live B
◌>>=◌ m next c = continue (m c) next

-- `send`
unfoldable pub send : List Bytes → Live (Unit {0})
unfolding encode_command
send parts c = elim c.writes_left [
  | zero ↦ failed write_failed c
  | suc n ↦ done tt (record c { sent = c.sent ++ encode_command parts; writes_left = n })
]

-- `readLine(d.reader, new(bytes.Buffer))`
unfoldable pub read_text : Stage → Live Bytes
unfolding read_line
read_text stage c = elim (read_line (record { input = c.input; raw = [] })) [
  | ok line r ↦ done line (record c { input = r.input })
  | err e r ↦ failed (read_failed stage e) (record c { input = r.input })
  | panic ↦ crashed
]

-- `readOK`, of the line.
unfoldable pub check_reply : Bytes → Live (Unit {0})
unfolding has_prefix trim_prefix
check_reply line c =
    if has_prefix line (codes "+")
    then done tt c
    else if has_prefix line (codes "-")
    then failed (refused reply (trim_prefix line (codes "-"))) c
    else failed (invalid reply line) c

unfoldable pub read_ok : Live (Unit {0})
unfolding read_text check_reply
read_ok = read_text reply >>= check_reply

-- `window = append(window, b)`, with the first byte dropped where it is longer than the marker.
unfoldable pub slide : ℕ → Bytes → ℕ → Bytes
slide size window b =
    let longer = window ++ (b ∷ []) in if ltb size (length longer) then drop 1 longer else longer

-- The loop of `discardUntil`: what is behind the marker, none where the input ends before it.
unfoldable pub discard_loop : Bytes → Bytes → Bytes → Option Bytes
unfolding slide same
discard_loop marker window [] = none
discard_loop marker window (b ∷ s) =
    let window' = slide (length marker) window b in
    let rest = discard_loop marker window' s in if same window' marker then some s else rest

unfoldable pub discard_until : Bytes → Live (Unit {0})
unfolding discard_loop
discard_until [] c = failed empty_marker c
discard_until (m ∷ ms) c = elim (discard_loop (m ∷ ms) [] c.input) [
  | none ↦ failed diskless_cut_short (record c { input = [] })
  | some rest ↦ done tt (record c { input = rest })
]

-- `io.CopyN(io.Discard, reader, n)`
unfoldable pub discard_bytes : ℕ → Live (Unit {0})
unfolding split_at
discard_bytes n c = elim (split_at n c.input) [
  | none ↦ failed rdb_cut_short (record c { input = [] })
  | some (_, rest) ↦ done tt (record c { input = rest })
]

-- `skipRDB`, of a header line with its prefix.
unfoldable pub skip_sized : Bytes → Live (Unit {0})
unfolding atoi trim_prefix discard_bytes
skip_sized line c = elim (atoi (trim_prefix line (codes "$"))) [
  | some (pos n) ↦ discard_bytes n c
  | _ ↦ failed (invalid rdb_length line) c
]

unfoldable pub skip_headed : Bytes → Live (Unit {0})
unfolding has_prefix cut_prefix discard_until skip_sized
skip_headed line c =
    if has_prefix line (codes "$")
    then (elim (cut_prefix line (codes "$EOF:")) [
      | some marker ↦ discard_until marker c
      | none ↦ skip_sized line c
    ])
    else failed (invalid rdb_header line) c

unfoldable pub skip_rdb : Live (Unit {0})
unfolding read_text skip_headed
skip_rdb = read_text rdb_header >>= skip_headed

-- The switch on the answer to PSYNC.
unfoldable pub psync_answer : Bytes → Live (Unit {0})
unfolding has_prefix trim_prefix skip_rdb
psync_answer line c =
    if has_prefix line (codes "+FULLRESYNC")
    then skip_rdb c
    else if has_prefix line (codes "+CONTINUE")
    then done tt c
    else if has_prefix line (codes "-")
    then failed (refused psync (trim_prefix line (codes "-"))) c
    else failed (invalid psync line) c

-- The commands of the handshake.
abbrev pub replconf_port : List Bytes
replconf_port = codes "REPLCONF" ∷ codes "listening-port" ∷ codes "0" ∷ []

abbrev pub replconf_capa : List Bytes
replconf_capa = codes "REPLCONF" ∷ codes "capa" ∷ codes "psync2" ∷ []

abbrev pub psync_any : List Bytes
psync_any = codes "PSYNC" ∷ codes "?" ∷ codes "-1" ∷ []

unfoldable pub handshake : Live (Unit {0})
unfolding send read_ok read_text psync_answer
handshake = do
  _ ← send replconf_port
  _ ← read_ok
  _ ← send replconf_capa
  _ ← read_ok
  _ ← send psync_any
  line ← read_text psync
  psync_answer line

-- The part of `NewLiveDecoder` that authenticates.
unfoldable pub authenticate : Bytes → Bytes → Live (Unit {0})
unfolding send read_ok
authenticate username password c =
    if is_empty username
    then (if is_empty password
        then done tt c
        else ((send (codes "AUTH" ∷ password ∷ []) >>= λ _. read_ok) c))
    else ((send (codes "AUTH" ∷ username ∷ password ∷ []) >>= λ _. read_ok) c)

-- `LiveDecoder`: the decoder of commands, its connection, and how far it is.
pub record LiveDecoder : Type 0 where
  pub decoder : Decoder
  pub conn : Conn
  pub position : ℕ
  pub handshook : Bool

-- The consumer of a live decoder.
abbrev pub LiveYield : Type 0 → Type 0
LiveYield S = S → Option (Event Command Command) × Option (LiveError ⊎ Error) → S × Bool

-- The decoder with what is left to read.
abbrev pub with_input : LiveDecoder → Bytes → LiveDecoder
with_input d input = record d { conn = record d.conn { input = input } }

-- `d.position++`, behind a command.
abbrev pub advanced : LiveDecoder → Bytes → LiveDecoder
advanced d input = record (with_input d input) { position = d.position + 1 }

-- An error of the parser. The input ends with io.EOF, or with net.ErrClosed where the connection is
-- closed on this side; the loop takes both alike, and `eof` stands for both.
unfoldable pub live_stop : {S : Type 0} → LiveYield S → Error → S → S
live_stop yield e s = if not (is_eof e) then (yield s (none, some (inr e))).0 else s

-- The loop's body for a command behind the start position, with what the plugins answered.
unfoldable pub live_command :
    {S : Type 0}
    → LiveYield S
    → (LiveDecoder → S → LiveDecoder × S)
    → LiveDecoder
    → S
    → Bytes
    → Result Error Command
    → LiveDecoder × S
live_command yield next d s raw Go.panic = (d, s)
live_command yield next d s raw (Go.err e) = (d, (yield s (none, some (inr e))).0)
live_command yield next d s raw (Go.ok c) =
    let r = yield s (some (as_event (new_event d.decoder.source d.position raw c)), none) in
    if r.1 then next d r.0 else (d, r.0)

-- The loop's body, with what `parseCommand` returned.
unfoldable pub live_round :
    {S : Type 0}
    → LiveYield S
    → (LiveDecoder → S → LiveDecoder × S)
    → LiveDecoder
    → S
    → Outcome Command
    → LiveDecoder × S
unfolding live_stop apply_command_plugins live_command
live_round yield next d s panic = (d, s)
live_round yield next d s (err e r) = (with_input d r.input, live_stop yield e s)
live_round yield next d s (ok c r) =
    let d' = advanced d r.input in
    if leb d'.position d.decoder.start_position
    then next d' s
    else live_command yield next d' s r.raw (apply_command_plugins c d.decoder.plugins)

-- The loop of `Events` over what the server has sent, on fuel, and the decoder that it leaves. A
-- command takes a byte at least, so one round more than there are bytes is enough.
unfoldable pub live_loop : {S : Type 0} → LiveYield S → ℕ → LiveDecoder → S → LiveDecoder × S
unfolding parse_command live_round
live_loop yield zero d s = (d, s)
live_loop yield (suc fuel) d s =
    live_round yield (λ d' s'. live_loop yield fuel d' s') d s
      (parse_command (record { input = d.conn.input; raw = [] }))

-- `Events` behind the handshake.
unfoldable pub after_handshake :
    {S : Type 0} → LiveYield S → LiveDecoder → Step (Unit {0}) → S → LiveDecoder × S
unfolding live_loop
after_handshake yield d (done _ c) s =
    live_loop yield (suc (length c.input)) (record d { conn = c; handshook = true }) s
after_handshake yield d (failed e c) s = (record d { conn = c }, (yield s (none, some (inl e))).0)
after_handshake yield d crashed s = (d, s)

-- `Events`, with the decoder that it leaves behind.
unfoldable pub live_events : {S : Type 0} → LiveDecoder → LiveYield S → S → LiveDecoder × S
unfolding handshake live_loop after_handshake
live_events d yield s =
    if d.handshook
    then live_loop yield (suc (length d.conn.input)) d s
    else after_handshake yield d (handshake d.conn) s
