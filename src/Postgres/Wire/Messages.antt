-- ===== src/Postgres/Wire/Messages.antt =====
-- The messages of the replication protocol as the server writes them, and what is read of them.
use go_dblog.Prelude.{
  ℕ, ◌+◌, ◌^◌, ◌≤◌, ◌<◌, ◌≡◌, refl, ap, false, not, [], ◌∷◌, length, take, drop, ◌==◌, ltb_ge,
  le→leb, arith,
}
use go_dblog.Prelude.Result.{ok}
use go_dblog.Prelude.Text.{Bytes}
use go_dblog.Postgres.Wire.{be_from, be_uint64, put_be, parse_wire_data}

-- Eight big-endian bytes of a number below 2^64 give the number back.
pub be_put : (v : ℕ) → v < 2 ^ 64 → be_from 0 (put_be 8 v []) ≡ v
unfolding be_from put_be
be_put v h = omega (arith, h)

be_at :
    (s : Bytes) (i v : ℕ)
    → v < 2 ^ 64
    → i + 8 ≤ length s
    → take 8 (drop i s) ≡ put_be 8 v []
    → be_uint64 s i ≡ ok v
unfolding be_uint64
be_at s i v h fits e = rw (le→leb (i + 8) (length s) fits, e) (ap ok (be_put v h))

-- XLogData: the start, the end, the clock and the line. What is read of it is the end of the WAL
-- and the line, whatever the others are, and no reply is asked for.
pub parse_wire_data-xlog :
    (start lsn clock : ℕ) (line : Bytes)
    → lsn < 2 ^ 64
    → parse_wire_data (b'w' ∷ put_be 8 start (put_be 8 lsn (put_be 8 clock line)))
      ≡ ok (record { line = line; lsn = lsn; reply = false })
unfolding parse_wire_data put_be
parse_wire_data-xlog start lsn clock line h =
    let s : Bytes = b'w' ∷ put_be 8 start (put_be 8 lsn (put_be 8 clock line)) in
    rw (ltb_ge (length s) 25 (omega arith), be_at s 9 lsn h (omega arith) refl) refl

-- A keepalive: the end of the WAL, the clock and a flag that asks for a reply. What is read of it is
-- the end of the WAL and the flag.
pub parse_wire_data-keepalive :
    (lsn clock flag : ℕ) (rest : Bytes)
    → lsn < 2 ^ 64
    → parse_wire_data (b'k' ∷ put_be 8 lsn (put_be 8 clock (flag ∷ rest)))
      ≡ ok (record { line = []; lsn = lsn; reply = not (flag == 0) })
unfolding parse_wire_data put_be
parse_wire_data-keepalive lsn clock flag rest h =
    let s : Bytes = b'k' ∷ put_be 8 lsn (put_be 8 clock (flag ∷ rest)) in
    rw (ltb_ge (length s) 18 (omega arith), be_at s 1 lsn h (omega arith) refl) refl
