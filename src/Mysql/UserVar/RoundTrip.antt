-- ===== src/Mysql/UserVar/RoundTrip.antt =====
-- A USER_VAR event as the server writes it, and its way back.
use go_dblog.Prelude.{
  ℕ, ◌+◌, ◌^◌, ◌<◌, ◌≡◌, refl, true, false, Option, none, some, [], ◌∷◌, ◌++◌, length,
  length-append, le→leb, arith,
}
use go_dblog.Prelude.Result.{ok}
use go_dblog.Prelude.Text.{Bytes}
use go_dblog.Mysql.Bytes.{put_le, require_data}
use go_dblog.Mysql.Bytes.At.{
  At, At-start, At-past, At-past_uint, At-slice, At-uint, At-byte, At-require, At-move, length-At,
  length-put_le,
}
use go_dblog.Mysql.UserVar.{
  UserVarEvent, user_var_flags, user_var_value, null_user_var, decode_user_var,
}

-- The value of a variable: NULL, or a type, a charset, the bytes and perhaps the flags.
pub data VarValue : Type 0 where
  null_value : VarValue
  given : ℕ → ℕ → Bytes → Option ℕ → VarValue

abbrev flags_data : Option ℕ → Bytes
flags_data none = []
flags_data (some f) = f ∷ []

-- What is behind the name.
unfoldable pub value_data : VarValue → Bytes
unfolding put_le
value_data null_value = 1 ∷ []
value_data (given typ charset value flags) =
    0 ∷ typ ∷ (put_le 4 charset ++ (put_le 4 (length value) ++ (value ++ flags_data flags)))

unfoldable pub user_var_data : Bytes → VarValue → Bytes
unfolding value_data put_le
user_var_data name v = put_le 4 (length name) ++ (name ++ value_data v)

-- The lengths and the charset fit in 32 bits.
abbrev pub Fits : VarValue → Type 0
Fits null_value = Unit {0}
Fits (given typ charset value flags) = (charset < 2 ^ 32) × (length value < 2 ^ 32)

unfoldable pub user_var_event : Bytes → Bytes → VarValue → UserVarEvent
unfolding null_user_var
user_var_event base name null_value = null_user_var base name
user_var_event base name (given typ charset value flags) = record {
  base = base;
  name = name;
  is_null = false;
  typ = typ;
  charset = charset;
  value = value;
  flags = elim flags [ none ↦ 0 | some f ↦ f ];
  has_flags = elim flags [ none ↦ false | some f ↦ true ];
}

flags-At :
    (s : Bytes) (p : ℕ) (flags : Option ℕ)
    → At s p (flags_data flags)
    → user_var_flags s p
      ≡ ok (elim flags [ none ↦ 0 | some f ↦ f ], elim flags [ none ↦ false | some f ↦ true ])
unfolding user_var_flags
flags-At s p none a = ground (arith, length-At a)
flags-At s p (some f) a = ground (arith, length-At a, At-byte a)

value-At :
    (s name : Bytes) (p typ charset : ℕ) (value : Bytes) (flags : Option ℕ)
    → charset < 2 ^ 32
    → length value < 2 ^ 32
    → At s p (typ ∷ (put_le 4 charset ++ (put_le 4 (length value) ++ (value ++ flags_data flags))))
    → user_var_value s name p ≡ ok (user_var_event s name (given typ charset value flags))
unfolding user_var_value user_var_event
value-At s name p typ charset value flags h k a =
    let b = At-past (typ ∷ []) 1 refl a in
    let c = At-past_uint 4 charset b in
    let c' : At s (p + 5) _ = At-move (omega arith) c in
    let d : At s (p + 9) _ = At-move (omega arith) (At-past_uint 4 (length value) c') in
    let long =
      length-append (put_le 4 charset) (put_le 4 (length value) ++ (value ++ flags_data flags)) in
    let long' = length-append (put_le 4 (length value)) (value ++ flags_data flags) in
    rw (
      At-require 9
          (omega (arith, long, long', length-put_le 4 charset, length-put_le 4 (length value))) a,
      At-byte a,
      At-uint 4 charset _ (omega arith) b,
      At-uint 4 (length value) _ (omega arith) c',
      At-require (length value) (omega (arith, length-append value (flags_data flags))) d,
      At-slice value _ (length value) refl d,
      flags-At s (p + 9 + length value) flags (At-past value (length value) refl d),
    )

decode-At :
    (s name : Bytes) (v : VarValue)
    → length name < 2 ^ 32
    → Fits v
    → At s 0 (put_le 4 (length name) ++ (name ++ value_data v))
    → decode_user_var s ≡ ok (user_var_event s name v)
unfolding decode_user_var require_data
decode-At s name null_value h k a =
    let b : At s 4 (name ++ 1 ∷ []) = unfold value_data in At-past_uint 4 (length name) a in
    let c : At s (4 + length name) (1 ∷ []) = At-past name (length name) refl b in
    let fits : 1 + (4 + length name) ≡ length s = omega (arith, length-At c) in
    rw
      (
        le→leb 5 (length s) (omega (arith, fits)),
        At-uint 4 (length name) _ (omega (arith, h)) a,
        At-require (length name + 1) (omega (arith, length-append name (1 ∷ []))) b,
        At-slice name _ (length name) refl b,
        At-byte c,
      )
      (unfold user_var_event in refl)
decode-At s name (given typ charset value flags) h (k, l) a =
    let tail : Bytes =
      typ ∷ (put_le 4 charset ++ (put_le 4 (length value) ++ (value ++ flags_data flags))) in
    let b : At s 4 (name ++ 0 ∷ tail) = unfold value_data in At-past_uint 4 (length name) a in
    let c : At s (4 + length name) (0 ∷ tail) = At-past name (length name) refl b in
    let d : At s (4 + length name + 1) tail = At-past (0 ∷ []) 1 refl c in
    rw
      (
        le→leb 5 (length s) (omega (arith, length-At c)),
        At-uint 4 (length name) _ (omega (arith, h)) a,
        At-require (length name + 1) (omega (arith, length-append name (0 ∷ tail))) b,
        At-slice name _ (length name) refl b,
        At-byte c,
      )
      (value-At s name (4 + length name + 1) typ charset value flags k l d)

-- The decoder reads back the name and the value of every USER_VAR event as the server writes it,
-- with NULL and the flags that may be missing, where the lengths and the charset fit in 32 bits.
pub decode_user_var-data :
    (name : Bytes) (v : VarValue)
    → length name < 2 ^ 32
    → Fits v
    → decode_user_var (user_var_data name v) ≡ ok (user_var_event (user_var_data name v) name v)
unfolding user_var_data
decode_user_var-data name v h k = decode-At (user_var_data name v) name v h k (At-start _)
