-- ===== src/Mysql/Util/LengthEncoded.antt =====
-- Length-encoded integers and strings as the server writes them, and their way back.
use go_dblog.Prelude.{
  ℕ, suc, ◌+◌, ◌^◌, ◌≤◌, ◌<◌, ◌≡◌, refl, ap, sym, false, [], ◌∷◌, ◌++◌, length, length-append,
  take-append, drop-append, ltb, if◌then◌else◌, arith, Bool-cases, inl, inr,
}
use go_dblog.Prelude.Result.{ok}
use go_dblog.Prelude.Text.{Bytes}
use go_dblog.Mysql.Bytes.{uint, put_le}
use go_dblog.Mysql.Bytes.At.{At-start, At-past, At-uint, length-put_le}
use go_dblog.Mysql.Util.{length_encoded_int, length_encoded_body, length_encoded_string}

-- The shortest form of a number below 2^64.
unfoldable pub put_length_encoded : ℕ → Bytes
unfolding put_le
put_length_encoded v =
    if ltb v 251
    then v ∷ []
    else if ltb v (2 ^ 16)
    then 252 ∷ put_le 2 v
    else if ltb v (2 ^ 24)
    then 253 ∷ put_le 3 v
    else 254 ∷ put_le 8 v

wide : (tag n v : ℕ) (rest : Bytes) → v < 256 ^ n → uint n (tag ∷ (put_le n v ++ rest)) 1 ≡ ok v
wide tag n v rest h =
    At-uint n v rest h (At-past (tag ∷ []) 1 refl (At-start (tag ∷ (put_le n v ++ rest))))

-- A number below 2^64 in its length-encoded form, whatever bytes are behind it, is read back as that
-- number, not as NULL, and takes exactly the bytes of that form.
pub length_encoded_int-put :
    (v : ℕ) (rest : Bytes)
    → v < 2 ^ 64
    → length_encoded_int (put_length_encoded v ++ rest)
      ≡ ok (v, false, length (put_length_encoded v))
unfolding length_encoded_int put_length_encoded
length_encoded_int-put v rest h = elim (Bool-cases (ltb v 251)) [
  | inl e ↦ rw e (ground arith)
  | inr e ↦ elim (Bool-cases (ltb v (2 ^ 16))) [
    | inl e' ↦
        rw (e, e', wide 252 2 v rest (ground arith))
          (ap (λ (k : ℕ). ok (v, false, suc k)) (sym (length-put_le 2 v)))
    | inr e' ↦ elim (Bool-cases (ltb v (2 ^ 24))) [
      | inl e'' ↦
          rw (e, e', e'', wide 253 3 v rest (ground arith))
            (ap (λ (k : ℕ). ok (v, false, suc k)) (sym (length-put_le 3 v)))
      | inr e'' ↦
          rw (e, e', e'', wide 254 8 v rest (omega (arith, h)))
            (ap (λ (k : ℕ). ok (v, false, suc k)) (sym (length-put_le 8 v)))
    ]
  ]
]

length-put_le_9 : (v : ℕ) → length (put_length_encoded v) ≤ 9
unfolding put_length_encoded
length-put_le_9 v = ground (arith, length-put_le 2 v, length-put_le 3 v, length-put_le 8 v)

body_at :
    (front s rest : Bytes)
    → length front + length s < 2 ^ 63
    → length_encoded_body (front ++ (s ++ rest)) (length s, false, length front)
      ≡ ok (s, false, length front + length s)
unfolding length_encoded_body
body_at front [] rest h = ground arith
body_at front (c ∷ s) rest h = ground (
  arith,
  h,
  length-append front ((c ∷ s) ++ rest),
  length-append (c ∷ s) rest,
  drop-append front ((c ∷ s) ++ rest),
  take-append (c ∷ s) rest,
)

-- A string behind its length-encoded length is read back as it was, whatever bytes are behind it,
-- and takes the bytes of both, where its length is below 2^63 - 9, so that they fit in an `int`.
pub length_encoded_string-put :
    (s rest : Bytes)
    → length s + 9 < 2 ^ 63
    → length_encoded_string (put_length_encoded (length s) ++ (s ++ rest))
      ≡ ok (s, false, length (put_length_encoded (length s)) + length s)
unfolding length_encoded_string
length_encoded_string-put s rest h =
    rw (length_encoded_int-put (length s) (s ++ rest) (omega (arith, h))) (
      body_at (put_length_encoded (length s)) s rest (omega (arith, h, length-put_le_9 (length s))))
