-- ===== src/Mysql/XaPrepare/Bounds.antt =====
-- The lengths of an XA_PREPARE_LOG event: where their 32-bit sum is right, and where it wraps.
use go_dblog.Prelude.{ℕ, ◌+◌, ◌^◌, ◌≤◌, ◌<◌, ◌≡◌, ◌≢◌, refl, [], ◌∷◌, ◌++◌, length, arith}
use go_dblog.Prelude.Result.{ok, panic, ◌>>=◌}
use go_dblog.Prelude.Text.{Bytes}
use go_dblog.Mysql.Bytes.{byte_at, slice, Decoded, uint, put_le, require_data, require_from}
use go_dblog.Mysql.Bytes.Safe.{
  bind-safe, ok-safe, byte_at-safe, slice-safe, uint-safe, require_data-safe, require_data-le,
  require_from-safe, require_from-le,
}
use go_dblog.Mysql.Bytes.At.{
  At, At-start, At-past, At-past_uint, At-uint, At-byte, At-require, require_data-ok, length-At,
}
use go_dblog.Mysql.XaPrepare.{xa_total, decode_xa_prepare}

xa_total_eq : (g b : ℕ) → g + b < 2 ^ 32 → xa_total g b ≡ g + b
unfolding xa_total
xa_total_eq g b h = omega arith

-- Where the two lengths at bytes 5 and 9 have a sum below 2^32, the decoder of an XA_PREPARE_LOG
-- event reads no byte out of range.
pub decode_xa_prepare-ne-panic :
    (s : Bytes)
    → ((g b : ℕ) → uint 4 s 5 ≡ ok g → uint 4 s 9 ≡ ok b → g + b < 2 ^ 32)
    → decode_xa_prepare s ≢ panic
unfolding decode_xa_prepare
decode_xa_prepare-ne-panic s small = bind-safe (require_data s 13) _ (require_data-safe s 13) λ _ e.
    let h = require_data-le s 13 e in
    bind-safe (byte_at s 0) _ (byte_at-safe s 0 (omega (arith, h))) λ _ _.
      bind-safe (uint 4 s 1) _ (uint-safe 4 s 1 (omega (arith, h))) λ _ _.
        bind-safe (uint 4 s 5) _ (uint-safe 4 s 5 (omega (arith, h))) λ g at_g.
          bind-safe (uint 4 s 9) _ (uint-safe 4 s 9 (omega (arith, h))) λ b at_b.
            let total = xa_total_eq g b (small g b at_g at_b) in
            bind-safe (require_from s 13 (xa_total g b)) _ (require_from-safe s 13 _ h) λ _ e'.
              let k = require_from-le s 13 (xa_total g b) h e' in
              bind-safe (slice s 13 g) _ (slice-safe s 13 g (omega (arith, k, total))) λ _ _.
                bind-safe (slice s (13 + g) b) _ (slice-safe s (13 + g) b (omega (arith, k, total)))
                  λ _ _. ok-safe _

-- The data of such an event.
abbrev pub xa_data : ℕ → ℕ → ℕ → ℕ → Bytes → Bytes
xa_data phase format g b rest = phase ∷ (put_le 4 format ++ (put_le 4 g ++ (put_le 4 b ++ rest)))

slices_panic :
    {A : Type 0} (s : Bytes) (i g b : ℕ) (rest : Bytes) (k : Bytes → Bytes → Decoded A)
    → length rest < g + b
    → At s i rest
    → (slice s i g >>= λ x. slice s (i + g) b >>= k x) ≡ panic
unfolding slice
slices_panic s i g b rest k h a = ground (arith, length-At a)

xa-At :
    (s : Bytes) (phase format g b : ℕ) (rest : Bytes)
    → format < 2 ^ 32
    → g < 2 ^ 32
    → b < 2 ^ 32
    → xa_total g b ≤ length rest
    → length rest < g + b
    → At s 0 (xa_data phase format g b rest)
    → decode_xa_prepare s ≡ panic
unfolding decode_xa_prepare
xa-At s phase format g b rest small_f small_g small_b fits short a =
    let at_f : At s 1 _ = At-past (phase ∷ []) 1 refl a in
    let at_g : At s 5 _ = At-past_uint 4 format at_f in
    let at_b : At s 9 _ = At-past_uint 4 g at_g in
    let at_rest : At s 13 rest = At-past_uint 4 b at_b in
    rw
      (
        require_data-ok s 13 (omega (arith, length-At at_rest)),
        At-byte a,
        At-uint 4 format _ (omega (arith, small_f)) at_f,
        At-uint 4 g _ (omega (arith, small_g)) at_g,
        At-uint 4 b _ (omega (arith, small_b)) at_b,
        At-require (xa_total g b) fits at_rest,
      )
      (slices_panic s 13 g b rest _ short at_rest)

-- Where the two lengths, each below 2^32, have a sum of 2^32 or more, it wraps: an XA_PREPARE_LOG event that
-- has as many bytes behind its header as the wrapped sum says, and fewer than 2^32, passes the
-- check on its length, and the decoder panics on a slice out of range.
pub decode_xa_prepare-wraps :
    (phase format g b : ℕ) (rest : Bytes)
    → format < 2 ^ 32
    → g < 2 ^ 32
    → b < 2 ^ 32
    → 2 ^ 32 ≤ g + b
    → g + b ≤ 2 ^ 32 + length rest
    → length rest < 2 ^ 32
    → decode_xa_prepare (xa_data phase format g b rest) ≡ panic
decode_xa_prepare-wraps phase format g b rest small_f small_g small_b wraps fits short =
    xa-At (xa_data phase format g b rest) phase format g b rest small_f small_g small_b
      (unfold xa_total in omega arith) (omega arith) (At-start _)
