-- ===== src/Mysql/Bytes/At.antt =====
-- Reads at a position where the rest of the data is known.
use go_dblog.Prelude.{
  ℕ, zero, suc, ◌+◌, ◌/◌, ◌^◌, ◌≤◌, ◌<◌, ◌≡◌, refl, sym, ap, ◌∙◌, some, [], ◌∷◌, ◌++◌, length,
  length-append, length-drop, drop, take, take-append, drop-append, drop-nil, get_elem?, arith,
}
use go_dblog.Prelude.Result.{ok, panic}
use go_dblog.Prelude.Text as T
use go_dblog.Mysql.Bytes.{byte_at, from, slice, uint, le, put_le, require_data, require_from}

-- Position `i` of `s` is in range, and `t` is what begins there.
pub record At (s : T.Bytes) (i : ℕ) (t : T.Bytes) : Type 0 where
  pub within : i ≤ length s
  pub begins : drop i s ≡ t

pub length-put_le : (n v : ℕ) → length (put_le n v) ≡ n
unfolding put_le
length-put_le zero v = refl
length-put_le (suc n) v = ap suc (length-put_le n (v / 256))

-- The little-endian digits of a number give the number back.
pub le-put_le : (n v : ℕ) → v < 256 ^ n → le (put_le n v) ≡ v
unfolding le put_le
le-put_le zero v h = omega arith
le-put_le (suc n) v h = omega (arith, le-put_le n (v / 256) (omega arith))

pub drop-drop : (i n : ℕ) (s : T.Bytes) → drop (i + n) s ≡ drop n (drop i s)
drop-drop zero n s = ap (λ (k : ℕ). drop k s) (omega arith)
drop-drop (suc i) n [] = drop-nil (suc i + n) ∙ sym (drop-nil n)
drop-drop (suc i) n (b ∷ s) = ap (λ (k : ℕ). drop k (b ∷ s)) (suc_sum i n) ∙ drop-drop i n s
  where
    suc_sum : (i n : ℕ) → suc i + n ≡ suc (i + n)
    suc_sum i n = omega arith

pub At-start : (s : T.Bytes) → At s 0 s
At-start s = record { within = omega arith; begins = refl }

pub length-At : {s t : T.Bytes} {i : ℕ} → At s i t → length s ≡ i + length t
length-At {s} {t} {i} a = omega (arith, a.within, length-drop i s, ap length a.begins)

pub At-move : {s t : T.Bytes} {i j : ℕ} → i ≡ j → At s i t → At s j t
At-move {s} {t} {i} {j} e a = record {
  within = omega (arith, e, a.within);
  begins = ap (λ (k : ℕ). drop k s) (sym e) ∙ a.begins;
}

pub At-past :
    {s ys : T.Bytes} {i : ℕ} (xs : T.Bytes) (n : ℕ)
    → length xs ≡ n
    → At s i (xs ++ ys)
    → At s (i + n) ys
At-past {s} {ys} {i} xs n e a = record {
  within = omega (arith, length-At a, length-append xs ys);
  begins =
      drop-drop i n s
      ∙ ap (drop n) a.begins
      ∙ ap (λ (k : ℕ). drop k (xs ++ ys)) (sym e)
      ∙ drop-append xs ys;
}

pub At-slice :
    {s : T.Bytes} {i : ℕ} (xs ys : T.Bytes) (n : ℕ)
    → length xs ≡ n
    → At s i (xs ++ ys)
    → slice s i n ≡ ok xs
unfolding slice
At-slice {s} {i} xs ys n e a =
    let front : take n (drop i s) ≡ xs =
      ap (take n) a.begins ∙ ap (λ (k : ℕ). take k (xs ++ ys)) (sym e) ∙ take-append xs ys in
    let fits : i + n ≤ length s = omega (arith, length-At a, length-append xs ys) in
    ground (arith, front, fits)

pub At-uint :
    {s : T.Bytes} {i : ℕ} (n v : ℕ) (ys : T.Bytes)
    → v < 256 ^ n
    → At s i (put_le n v ++ ys)
    → uint n s i ≡ ok v
unfolding uint
At-uint n v ys h a = rw (At-slice (put_le n v) ys n (length-put_le n v) a) (ap ok (le-put_le n v h))

pub At-past_uint : {s ys : T.Bytes} {i : ℕ} (n v : ℕ) → At s i (put_le n v ++ ys) → At s (i + n) ys
At-past_uint n v a = At-past (put_le n v) n (length-put_le n v) a

get_elem?-drop :
    (i : ℕ) (s : T.Bytes) {b : ℕ} {t : T.Bytes} → drop i s ≡ b ∷ t → get_elem? s i ≡ some b
get_elem?-drop zero [] h = cc
get_elem?-drop zero (c ∷ s) h = ground arith
get_elem?-drop (suc i) [] h = cc
get_elem?-drop (suc i) (c ∷ s) h = get_elem?-drop i s h

pub At-byte : {s ys : T.Bytes} {i b : ℕ} → At s i (b ∷ ys) → byte_at s i ≡ ok b
At-byte {s} {ys} {i} a = rw (get_elem?-drop i s a.begins) refl

pub At-require :
    {s t : T.Bytes} {i : ℕ} (n : ℕ) → n ≤ length t → At s i t → require_from s i n ≡ ok tt
unfolding require_from require_data from
At-require {s} {t} {i} n h a = ground (arith, a.within, a.begins)

-- Behind position `i` there are too few bytes.
pub At-slice-short : {s t : T.Bytes} {i : ℕ} (n : ℕ) → length t < n → At s i t → slice s i n ≡ panic
unfolding slice
At-slice-short {s} {t} {i} n h a = ground (arith, length-At a)

pub require_data-ok : (s : T.Bytes) (n : ℕ) → n ≤ length s → require_data s n ≡ ok tt
unfolding require_data
require_data-ok s n h = ground arith
