-- ===== src/Redis/Resp/Wire.antt =====
-- `parseCommand` reads back what `send` writes.
use go_dblog.Prelude.{
  ℕ, suc, ◌+◌, ◌≤◌, ◌<◌, ◌≡◌, ◌≢◌, refl, ap, ◌∙◌, some, List, [], ◌∷◌, ◌++◌, append_assoc,
  append-nil, All, length, take-append, drop-append, arith, length-append,
}
use go_dblog.Prelude.Text.{Bytes, same_refl, to_lower}
use go_dblog.Prelude.Decimal.{itoa, atoi-itoa, itoa-All, max_int}
use go_dblog.Redis.Reader.{ok, read_line, read_full, split_line, strip_cr, split_at}
use go_dblog.Redis.Resp.{
  header_length, payload, read_bulk_string, read_parts, parse_command, encode_part, encode_parts,
  encode_command, max_bulk_bytes, max_array_elements,
}

abbrev crlf : Bytes
crlf = b'\r' ∷ b'\n' ∷ []

split_line-append :
    (l rest : Bytes)
    → All (λ c. b'0' ≤ c) l
    → split_line (l ++ b'\r' ∷ b'\n' ∷ rest) ≡ some (l ++ b'\r' ∷ [], rest)
unfolding split_line
split_line-append [] rest h = refl
split_line-append (c ∷ l) rest h = ground (arith, split_line-append l rest)

strip_cr-append : (l : Bytes) → strip_cr (l ++ b'\r' ∷ []) ≡ some l
unfolding strip_cr
strip_cr-append [] = refl
strip_cr-append (c ∷ []) = refl
strip_cr-append (c ∷ d ∷ l) = rw (strip_cr-append (d ∷ l))

split_at-append : (a b : Bytes) → split_at (length a) (a ++ b) ≡ some (a, b)
unfolding split_at
split_at-append [] b = refl
split_at-append (c ∷ a) b = rw (split_at-append a b)

-- A header line of digits and the like.
read_line-append :
    (l rest w : Bytes)
    → All (λ c. b'0' ≤ c) l
    → (p : ℕ) → p ≢ b'\n'
    → read_line (record { input = p ∷ (l ++ b'\r' ∷ b'\n' ∷ rest); raw = w })
      ≡ ok (p ∷ l) (record { input = rest; raw = w ++ (p ∷ (l ++ crlf)) })
unfolding read_line
read_line-append l rest w h p ne = ground (
  arith,
  split_line-append l rest h,
  strip_cr-append (p ∷ l),
  append_assoc l (b'\r' ∷ []) (b'\n' ∷ []),
)

header_length-itoa :
    (p lo hi n : ℕ) → lo ≤ n → n ≤ hi → hi < max_int → header_length p lo hi (p ∷ itoa n) ≡ some n
unfolding header_length
header_length-itoa p lo hi n h k fits = ground (arith, atoi-itoa n)

payload-append : (p : Bytes) → payload (length p) (p ++ crlf) ≡ some p
unfolding payload
payload-append p = rw (drop-append p crlf, same_refl crlf, take-append p crlf)

read_full-append :
    (p rest w : Bytes)
    → read_full (length p + 2) (record { input = p ++ b'\r' ∷ b'\n' ∷ rest; raw = w })
      ≡ ok (p ++ crlf) (record { input = rest; raw = w ++ (p ++ crlf) })
unfolding read_full
read_full-append p rest w =
    ground (arith, split_at-append (p ++ crlf) rest, append_assoc p crlf rest, length-append p crlf)

encode_part-append :
    (p rest : Bytes)
    → encode_part p ++ rest
      ≡ b'$' ∷ (itoa (length p) ++ b'\r' ∷ b'\n' ∷ (p ++ b'\r' ∷ b'\n' ∷ rest))
unfolding encode_part
encode_part-append p rest = simp append_assoc

-- What is noted in two steps.
noted :
    (w p : Bytes) → (w ++ (b'$' ∷ (itoa (length p) ++ crlf))) ++ (p ++ crlf) ≡ w ++ encode_part p
unfolding encode_part
noted w p = simp append_assoc

-- `readBulkString` on one part.
read_bulk_string-encode :
    (p rest w : Bytes)
    → length p ≤ max_bulk_bytes
    → read_bulk_string (record { input = encode_part p ++ rest; raw = w })
      ≡ ok p (record { input = rest; raw = w ++ encode_part p })
unfolding read_bulk_string
read_bulk_string-encode p rest w h =
    let size : Bytes = itoa (length p) in
    let body : Bytes = p ++ b'\r' ∷ b'\n' ∷ rest in
    let w' : Bytes = w ++ (b'$' ∷ (size ++ crlf)) in
    let n = header_length-itoa b'$' 0 max_bulk_bytes (length p) (omega arith) h (omega arith) in
    ap (λ i. read_bulk_string (record { input = i; raw = w })) (encode_part-append p rest)
    ∙ ground (
      arith,
      read_line-append size body w (itoa-All (length p)) b'$',
      n,
      read_full-append p rest w',
      payload-append p,
      noted w p,
    )

read_parts-encode :
    (ps : List Bytes) (rest w : Bytes)
    → All (λ p. length p ≤ max_bulk_bytes) ps
    → read_parts (length ps) (record { input = encode_parts ps ++ rest; raw = w })
      ≡ ok ps (record { input = rest; raw = w ++ encode_parts ps })
unfolding read_parts encode_parts
read_parts-encode [] rest w h = rw append-nil
read_parts-encode (p ∷ ps) rest w (hp, h) =
    ap (λ i. read_parts (suc (length ps)) (record { input = i; raw = w }))
      (append_assoc (encode_part p) (encode_parts ps) rest)
    ∙ ground (
      arith,
      read_bulk_string-encode p (encode_parts ps ++ rest) w hp,
      read_parts-encode ps rest (w ++ encode_part p) h,
      append_assoc w (encode_part p) (encode_parts ps),
    )

-- `parseCommand` on what `send` writes for a command whose name is not empty, with at most 8192
-- parts of at most 8 MiB each, whatever follows: the command comes back, with its name in lower
-- case and its arguments as they were; exactly the bytes of the command are taken and noted.
pub parse_command-encode :
    (c : ℕ) (cs : Bytes) (args : List Bytes) (rest : Bytes)
    → length args < max_array_elements
    → All (λ p. length p ≤ max_bulk_bytes) ((c ∷ cs) ∷ args)
    → parse_command (record { input = encode_command ((c ∷ cs) ∷ args) ++ rest; raw = [] })
      ≡ ok
          (record { name = to_lower (c ∷ cs); args = args })
          (record { input = rest; raw = encode_command ((c ∷ cs) ∷ args) })
parse_command-encode c cs args rest few small =
    unfold parse_command encode_command in
    let ps : List Bytes = (c ∷ cs) ∷ args in
    let size : Bytes = itoa (length ps) in
    let n =
      header_length-itoa b'*' 1 max_array_elements (length ps) (omega arith) few (omega arith) in
    ap (λ i. parse_command (record { input = b'*' ∷ i; raw = [] }))
      (append_assoc size (b'\r' ∷ b'\n' ∷ encode_parts ps) rest)
    ∙ ground (
      arith,
      read_line-append size (encode_parts ps ++ rest) [] (itoa-All (length ps)) b'*',
      n,
      read_parts-encode ps rest (b'*' ∷ (size ++ crlf)) small,
      append_assoc size crlf (encode_parts ps),
    )
