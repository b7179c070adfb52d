-- ===== src/Mysql/Small/Short.antt =====
-- The events that are decoded with no check on the length, at data that is too short.
use go_dblog.Prelude.{
  ℕ, ◌+◌, ◌≤◌, ◌<◌, ◌≡◌, ◌≢◌, ◌↔◌, refl, some, ◌++◌, length, take-append-drop, leb, leb_lt, arith,
  Bool-cases, inl, inr,
}
use go_dblog.Prelude.Int.{ℤ, pos, negsuc}
use go_dblog.Prelude.Result.{panic}
use go_dblog.Prelude.Text.{Bytes}
use go_dblog.Mysql.Bytes.{slice, uint}
use go_dblog.Mysql.Bytes.Safe.{bind-safe, ok-safe, uint-safe}
use go_dblog.Mysql.Small.{decode_xid, metadata_of}

uint-short : (n : ℕ) (s : Bytes) (i : ℕ) → length s < i + n → uint n s i ≡ panic
unfolding uint slice
uint-short n s i h = rw (leb_lt (i + n) (length s) h) refl

-- The decoder of XID events panics exactly where it is given fewer than 8 bytes.
pub decode_xid-panic_iff : (s : Bytes) → (decode_xid s ≡ panic) ↔ (length s < 8)
decode_xid-panic_iff s = elim (Bool-cases (leb 8 (length s))) [
  | inl long ↦ (λ e. absurd (enough (ground arith) e), λ h. absurd (ground arith))
  | inr short ↦ (λ e. ground arith, λ h. unfold decode_xid in rw (uint-short 8 s 0 h) refl)
]
  where
    enough : 8 ≤ length s → decode_xid s ≢ panic
    enough h =
        unfold decode_xid in
        bind-safe (uint 8 s 0) _ (uint-safe 8 s 0 (omega (arith, h))) λ v _. ok-safe _

-- The post-header and the payload of a metadata event are the data that it was decoded from, in
-- that order, whatever length the context gives for the post-header.
pub metadata_of-data :
    (s : Bytes) (typ : ℕ) (n : ℤ)
    → (metadata_of s typ (some n)).post_header ++ (metadata_of s typ (some n)).payload ≡ s
unfolding metadata_of
metadata_of-data s typ (negsuc n) = refl
metadata_of-data s typ (pos n) = ground (arith, take-append-drop n s)
