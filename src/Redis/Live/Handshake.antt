-- ===== src/Redis/Live/Handshake.antt =====
-- The handshake with a server that answers as replication wants it.
use go_dblog.Prelude.{
  ℕ, suc, ◌≤◌, ◌<◌, ◌≡◌, ◌≢◌, refl, ap, ◌∙◌, true, none, some, List, [], ◌∷◌, ◌++◌, length, All,
  append_assoc, arith,
}
use go_dblog.Prelude.Text.{Bytes, codes, has_prefix, has_prefix-append, cut_prefix, trim_prefix}
use go_dblog.Prelude.Decimal.{itoa, atoi-itoa, itoa-All, itoa_head, max_int}
use go_dblog.Redis.Reader.{read_line, split_line, strip_cr, split_at}
use go_dblog.Redis.Resp.{encode_command}
use go_dblog.Redis.Live.{
  Conn, Live, Step, done, continue, ◌>>=◌, Stage, reply, psync, rdb_header, send, read_text,
  check_reply, read_ok, discard_bytes, skip_sized, skip_headed, skip_rdb, psync_answer, handshake,
  replconf_port, replconf_capa, psync_any,
}

-- A text of one line.
unfoldable pub IsLine : Bytes → Type 0
IsLine l = All (λ c. c ≢ b'\n') l

-- A line of the server, in front of what it sends next.
abbrev pub line : Bytes → Bytes → Bytes
line l rest = l ++ b'\r' ∷ b'\n' ∷ rest

split_line-line :
    (l rest : Bytes) → IsLine l → split_line (line l rest) ≡ some (l ++ b'\r' ∷ [], rest)
unfolding split_line IsLine
split_line-line [] rest h = refl
split_line-line (c ∷ l) rest h = ground (arith, split_line-line l rest)

strip_cr-line : (l : Bytes) → strip_cr (l ++ b'\r' ∷ []) ≡ some l
unfolding strip_cr
strip_cr-line [] = refl
strip_cr-line (c ∷ []) = refl
strip_cr-line (c ∷ d ∷ l) = rw (strip_cr-line (d ∷ l))

bind_done :
    {A B : Type 0} (m : Live A) (next : A → Live B) (c : Conn) {c' : Conn} {a : A} {r : Step B}
    → m c ≡ done a c'
    → next a c' ≡ r
    → ◌>>=◌ m next c ≡ r
bind_done m next c e h = ap (λ o. continue o next) e ∙ h

abbrev conn : Bytes → Bytes → ℕ → Conn
conn input sent n = record { input = input; sent = sent; writes_left = n }

read_text-line :
    (stage : Stage) (l rest sent : Bytes) (n : ℕ)
    → IsLine l
    → read_text stage (conn (line l rest) sent n) ≡ done l (conn rest sent n)
unfolding read_text read_line
read_text-line stage l rest sent n h =
    rw (split_line-line l rest h, read_text, read_line, strip_cr-line l) refl

send-done :
    (parts : List Bytes) (input sent : Bytes) (n : ℕ)
    → send parts (conn input sent (suc n)) ≡ done tt (conn input (sent ++ encode_command parts) n)
unfolding send
send-done parts input sent n = refl

read_ok-line :
    (l rest sent : Bytes) (n : ℕ)
    → IsLine (b'+' ∷ l)
    → read_ok (conn (line (b'+' ∷ l) rest) sent n) ≡ done tt (conn rest sent n)
unfolding read_ok check_reply has_prefix
read_ok-line l rest sent n h =
    bind_done (read_text reply) check_reply (conn (line (b'+' ∷ l) rest) sent n)
      (read_text-line reply (b'+' ∷ l) rest sent n h) refl

split_at-front : (a b : Bytes) → split_at (length a) (a ++ b) ≡ some (a, b)
unfolding split_at
split_at-front [] b = refl
split_at-front (c ∷ a) b = rw (split_at-front a b)

discard-front :
    (a rest sent : Bytes) (n : ℕ)
    → discard_bytes (length a) (conn (a ++ rest) sent n) ≡ done tt (conn rest sent n)
unfolding discard_bytes
discard-front a rest sent n = rw (split_at-front a rest, discard_bytes) refl

digits-IsLine : (l : Bytes) → All (λ c. b'0' ≤ c) l → IsLine l
unfolding IsLine
digits-IsLine [] h = tt
digits-IsLine (c ∷ l) (h, hs) = (above c h, digits-IsLine l hs)
  where
    above : (c : ℕ) → b'0' ≤ c → c ≢ b'\n'
    above c h e = omega (arith, h, e)

size-IsLine : (n : ℕ) → IsLine (b'$' ∷ itoa n)
unfolding IsLine
size-IsLine n = (λ e. omega (arith, e), digits-IsLine (itoa n) (itoa-All n))

size_no_marker : (n : ℕ) → cut_prefix (b'$' ∷ itoa n) (codes "$EOF:") ≡ none
unfolding cut_prefix
size_no_marker n = let (d, cs, e, lo, hi) = itoa_head n in ground (arith, e, lo, hi)

size_text : (n : ℕ) → trim_prefix (b'$' ∷ itoa n) (codes "$") ≡ itoa n
unfolding trim_prefix cut_prefix
size_text n = let (d, cs, e, lo, hi) = itoa_head n in rw e refl

skip_sized-done :
    (rdb rest sent : Bytes) (n : ℕ)
    → length rdb < max_int
    → skip_sized (b'$' ∷ itoa (length rdb)) (conn (rdb ++ rest) sent n) ≡ done tt (conn rest sent n)
unfolding skip_sized
skip_sized-done rdb rest sent n h =
    rw (size_text (length rdb), atoi-itoa (length rdb) h, skip_sized)
      (discard-front rdb rest sent n)

skip_headed-sized :
    (l : Bytes) (c : Conn)
    → has_prefix l (codes "$") ≡ true
    → cut_prefix l (codes "$EOF:") ≡ none
    → skip_headed l c ≡ skip_sized l c
unfolding skip_headed
skip_headed-sized l c p e = rw (p, skip_headed, e) refl

skip_rdb-sized :
    (rdb rest sent : Bytes) (n : ℕ)
    → length rdb < max_int
    → skip_rdb (conn (line (b'$' ∷ itoa (length rdb)) (rdb ++ rest)) sent n)
      ≡ done tt (conn rest sent n)
unfolding skip_rdb
skip_rdb-sized rdb rest sent n h =
    bind_done (read_text rdb_header) skip_headed
      (conn (line (b'$' ∷ itoa (length rdb)) (rdb ++ rest)) sent n)
      (read_text-line rdb_header (b'$' ∷ itoa (length rdb)) (rdb ++ rest) sent n
        (size-IsLine (length rdb)))
      (skip_headed-sized (b'$' ∷ itoa (length rdb)) (conn (rdb ++ rest) sent n)
          (has_prefix-append (codes "$") (itoa (length rdb))) (size_no_marker (length rdb))
        ∙ skip_sized-done rdb rest sent n h)

psync_answer-full :
    (l : Bytes) (c : Conn)
    → has_prefix l (codes "+FULLRESYNC") ≡ true
    → psync_answer l c ≡ skip_rdb c
unfolding psync_answer
psync_answer-full l c h = rw (h, psync_answer) refl

-- What the replica sends in a handshake.
unfoldable pub handshake_commands : Bytes
unfolding encode_command
handshake_commands =
    encode_command replconf_port ++ (encode_command replconf_capa ++ encode_command psync_any)

joined : (s x y z : Bytes) → ((s ++ x) ++ y) ++ z ≡ s ++ (x ++ (y ++ z))
joined s x y z = append_assoc (s ++ x) y z ∙ append_assoc s x (y ++ z)

-- Up to the answer to PSYNC, with two replies that begin with a plus sign.
handshake-psync :
    (a b answer rest sent : Bytes) (n : ℕ)
    → IsLine (b'+' ∷ a)
    → IsLine (b'+' ∷ b)
    → IsLine answer
    → handshake
        (conn (line (b'+' ∷ a) (line (b'+' ∷ b) (line answer rest))) sent (suc (suc (suc n))))
      ≡ psync_answer answer (conn rest (sent ++ handshake_commands) n)
unfolding handshake handshake_commands
handshake-psync a b answer rest sent n ha hb hp =
    let s1 : Bytes = sent ++ encode_command replconf_port in
    let s2 : Bytes = s1 ++ encode_command replconf_capa in
    let s3 : Bytes = s2 ++ encode_command psync_any in
    let in3 : Bytes = line answer rest in
    let in2 : Bytes = line (b'+' ∷ b) in3 in
    let in1 : Bytes = line (b'+' ∷ a) in2 in
    let k5 : Unit {0} → Live (Unit {0}) = λ _. read_text psync >>= psync_answer in
    let k4 : Unit {0} → Live (Unit {0}) = λ _. send psync_any >>= k5 in
    let k3 : Unit {0} → Live (Unit {0}) = λ _. read_ok >>= k4 in
    let k2 : Unit {0} → Live (Unit {0}) = λ _. send replconf_capa >>= k3 in
    let k1 : Unit {0} → Live (Unit {0}) = λ _. read_ok >>= k2 in
    bind_done (send replconf_port) k1 (conn in1 sent (suc (suc (suc n))))
      (send-done replconf_port in1 sent (suc (suc n)))
      (bind_done read_ok k2 (conn in1 s1 (suc (suc n))) (read_ok-line a in2 s1 (suc (suc n)) ha) (
        bind_done (send replconf_capa) k3 (conn in2 s1 (suc (suc n)))
          (send-done replconf_capa in2 s1 (suc n))
          (bind_done read_ok k4 (conn in2 s2 (suc n)) (read_ok-line b in3 s2 (suc n) hb) (
            bind_done (send psync_any) k5 (conn in3 s2 (suc n)) (send-done psync_any in3 s2 n) (
              bind_done (read_text psync) psync_answer (conn in3 s3 n)
                (read_text-line psync answer rest s3 n hp)
                (ap (λ (s : Bytes). psync_answer answer (conn rest s n))
                  (joined sent (encode_command replconf_port) (encode_command replconf_capa)
                    (encode_command psync_any))))))))

-- The answer of the server to PSYNC that begins a full resynchronisation.
abbrev pub full_resync : Bytes → Bytes
full_resync l = codes "+FULLRESYNC" ++ l

full_resync-IsLine : (l : Bytes) → IsLine l → IsLine (full_resync l)
unfolding IsLine
full_resync-IsLine l h = ground (arith, h)

-- Where the server answers the two REPLCONF commands with a plus sign, and PSYNC with +FULLRESYNC and
-- a database of so many bytes, the handshake succeeds: it has sent exactly the three commands, in
-- order, and has read exactly these replies and the database, whatever bytes that holds, and the
-- stream of commands is what is left.
pub handshake-full_resync :
    (a b l rdb stream sent : Bytes) (n : ℕ)
    → IsLine (b'+' ∷ a)
    → IsLine (b'+' ∷ b)
    → IsLine l
    → length rdb < max_int
    → handshake (record {
      input = line (b'+' ∷ a) (
          line (b'+' ∷ b) (line (full_resync l) (line (b'$' ∷ itoa (length rdb)) (rdb ++ stream))));
      sent = sent;
      writes_left = suc (suc (suc n));
    })
      ≡ done tt (record { input = stream; sent = sent ++ handshake_commands; writes_left = n })
handshake-full_resync a b l rdb stream sent n ha hb hl small =
    let rest : Bytes = line (b'$' ∷ itoa (length rdb)) (rdb ++ stream) in
    handshake-psync a b (full_resync l) rest sent n ha hb (full_resync-IsLine l hl)
    ∙ psync_answer-full (full_resync l) (conn rest (sent ++ handshake_commands) n)
        (has_prefix-append (codes "+FULLRESYNC") l)
    ∙ skip_rdb-sized rdb stream (sent ++ handshake_commands) n small
