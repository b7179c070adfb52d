-- ===== src/Mysql/Load/Safe.antt =====
-- The decoders of LOAD, NEW_LOAD and EXECUTE_LOAD_QUERY events do not panic.
use go_dblog.Prelude.{
  ℕ, zero, suc, ◌+◌, ◌≤◌, ◌≡◌, ◌≢◌, refl, none, some, [], ◌∷◌, length, arith, ◌==◌, Bool-cases,
  Option-cases, inl, inr,
}
use go_dblog.Prelude.Result.{panic}
use go_dblog.Prelude.Text.{Bytes}
use go_dblog.Mysql.Bytes.{Decoded, byte_at, from, slice, uint, require_data, require_from}
use go_dblog.Mysql.Bytes.Safe.{byte_at-safe, from-safe, slice-safe, uint-safe}
use go_dblog.Mysql.Bytes.Post.{
  Post, Post-ok, Post-bind, Post-intro, Post-Any, Any, data-Post, from-Post, rest-Post, Within,
}
use go_dblog.Mysql.Load.{
  load_event, new_load_event, cut_nul, split_nul_strings, read_fixed, read_len, read_five,
  load_terminators, load_flags, load_names, decode_load, decode_execute_load_query,
}

read_len-Post : (s : Bytes) (p : ℕ) → p ≤ length s → Post (Within s) (read_len s p)
unfolding read_len
read_len-Post s p h =
    Post-bind (λ _. p + 1 ≤ length s) (require_from s p 1) (from-Post s p 1 h)
      λ _ k. Post-bind Any (byte_at s p) (Post-Any _ (byte_at-safe s p (omega (arith, k)))) λ n _.
        Post-bind (λ _. p + 1 + n ≤ length s) (require_from s (p + 1) n) (from-Post s (p + 1) n k)
          λ _ l.
            Post-bind Any (slice s (p + 1) n) (Post-Any _ (slice-safe s (p + 1) n l))
              λ v _. Post-ok _ l

read_fixed-Post :
    (s : Bytes) (p k : ℕ) → p + suc k ≤ length s → Post (λ r. r.1 + k ≤ length s) (read_fixed s p)
unfolding read_fixed
read_fixed-Post s p k h =
    Post-bind Any (slice s p 1) (Post-Any _ (slice-safe s p 1 (omega (arith, h))))
      λ v _. Post-ok _ (omega (arith, h))

-- Five reads in a row; `I k p` holds at position `p` with `k` reads still to come.
read_five-Post :
    (read : Bytes → ℕ → Decoded (Bytes × ℕ)) (s : Bytes) (I : ℕ → ℕ → Type 0)
    → ((k p : ℕ) → I (suc k) p → Post (λ r. I k r.1) (read s p))
    → (p : ℕ) → I 5 p
    → Post (λ r. I 0 r.1) (read_five read s p)
unfolding read_five
read_five-Post read s I step p h =
    Post-bind (λ r. I 4 r.1) (read s p) (step 4 p h)
      λ a h1.
        Post-bind (λ r. I 3 r.1) (read s a.1) (step 3 a.1 h1)
          λ b h2.
            Post-bind (λ r. I 2 r.1) (read s b.1) (step 2 b.1 h2)
              λ c h3.
                Post-bind (λ r. I 1 r.1) (read s c.1) (step 1 c.1 h3)
                  λ d h4. Post-bind (λ r. I 0 r.1) (read s d.1) (step 0 d.1 h4) λ e h5. Post-ok _ h5

fixed_five-Post :
    (s : Bytes) (p : ℕ) → p + 7 ≤ length s → Post (λ r. r.1 ≤ length s) (read_five read_fixed s p)
fixed_five-Post s p h =
    Post-intro (read_five read_fixed s p) reads.safe λ r e. omega (arith, reads.holds r e)
  where
    reads : Post (λ r. r.1 + 0 ≤ length s) (read_five read_fixed s p)
    reads =
        read_five-Post read_fixed s (λ k q. q + k ≤ length s) (λ k q. read_fixed-Post s q k) p
          (omega (arith, h))

load_terminators-Post :
    (typ : ℕ) (s : Bytes) (p : ℕ)
    → p ≤ length s
    → Post (λ r. r.1 ≤ length s) (load_terminators typ s p)
unfolding load_terminators
load_terminators-Post typ s p h = elim (Bool-cases (typ == new_load_event)) [
  | inl new ↦
      rw new (read_five-Post read_len s (λ k q. q ≤ length s) (λ k q. read_len-Post s q) p h)
  | inr old ↦ rw old (
      Post-bind (λ _. p + 7 ≤ length s) (require_from s p 7) (from-Post s p 7 h)
        λ _ k. fixed_five-Post s p k)
]

load_flags-Post :
    (typ : ℕ) (s : Bytes) (p n : ℕ)
    → p ≤ length s
    → Post (λ r. r.2 ≤ length s) (load_flags typ s p n)
unfolding load_flags
load_flags-Post typ s p n h = elim (Bool-cases (typ == load_event)) [
  | inl load ↦ rw load (
      Post-bind (λ _. p + (1 + n + 1) ≤ length s) (require_from s p (1 + n + 1)) (from-Post s p _ h)
        λ _ k. Post-bind Any (byte_at s p) (Post-Any _ (byte_at-safe s p (omega (arith, k)))) λ _ _.
          Post-bind Any (byte_at s (p + 1)) (Post-Any _ (byte_at-safe s (p + 1) (omega (arith, k))))
            λ _ _. Post-ok _ (omega (arith, k)))
  | inr other ↦ rw other (
      Post-bind (λ _. p + (1 + n + 0) ≤ length s) (require_from s p (1 + n + 0)) (from-Post s p _ h)
        λ _ k.
          Post-bind Any (byte_at s p) (Post-Any _ (byte_at-safe s p (omega (arith, k))))
            λ _ _. Post-ok _ (omega (arith, k)))
]

pub length-cut_nul : (s a r : Bytes) → cut_nul s ≡ some (a, r) → length s ≡ length a + 1 + length r
unfolding cut_nul
length-cut_nul [] a r h = cc
length-cut_nul (c ∷ s) a r h = elim (Option-cases (cut_nul s)) [
  | inl e ↦ ground (arith, e)
  | inr ((b, t), e) ↦ ground (arith, e, length-cut_nul s b t e)
]

split_none :
    (n c : ℕ) (s : Bytes)
    → cut_nul (c ∷ s) ≡ none
    → (split_nul_strings (c ∷ s) (suc n)).1 ≡ length (c ∷ s)
unfolding split_nul_strings
split_none n c s e = rw (e, split_nul_strings, cut_nul) refl

split_some :
    (n c : ℕ) (s a r : Bytes)
    → cut_nul (c ∷ s) ≡ some (a, r)
    → (split_nul_strings (c ∷ s) (suc n)).1 ≡ length a + 1 + (split_nul_strings r n).1
unfolding split_nul_strings
split_some n c s a r e = rw (e, split_nul_strings, cut_nul) refl

split_le : (n : ℕ) (s : Bytes) → (split_nul_strings s n).1 ≤ length s
split_le zero s = unfold split_nul_strings in omega arith
split_le (suc n) [] = unfold split_nul_strings in omega arith
split_le (suc n) (c ∷ s) = elim (Option-cases (cut_nul (c ∷ s))) [
  | inl e ↦ omega (arith, split_none n c s e)
  | inr ((a, r), e) ↦
      omega (arith, split_some n c s a r e, split_le n r, length-cut_nul (c ∷ s) a r e)
]

load_names-Post : (s : Bytes) (p n t k : ℕ) → p ≤ length s → Post Any (load_names s p n t k)
unfolding load_names
load_names-Post s p n t k h =
    Post-bind (λ _. p + n ≤ length s) (require_from s p n) (from-Post s p n h)
      λ _ fits. Post-bind Any (slice s p n) (Post-Any _ (slice-safe s p n fits)) λ lengths _.
        Post-bind (λ rest. p + n + length rest ≤ length s) (from s (p + n))
          (rest-Post s (p + n) fits)
          λ rest left.
            let q : ℕ = p + n + (split_nul_strings rest n).1 in
            let within : q ≤ length s = omega (arith, left, split_le n rest) in
            Post-bind (λ _. q + (t + 1 + k + 1) ≤ length s) (require_from s q (t + 1 + k + 1))
              (from-Post s q _ within)
              λ _ room.
                Post-bind Any (slice s q (t + 1))
                  (Post-Any _ (slice-safe s q (t + 1) (omega (arith, room))))
                  λ _ _.
                    Post-bind Any (slice s (q + (t + 1)) (k + 1))
                      (Post-Any _ (slice-safe s (q + (t + 1)) (k + 1) (omega (arith, room))))
                      λ _ _.
                        Post-bind Any (from s (q + (t + 1) + (k + 1)))
                          (Post-Any _ (from-safe s _ (omega (arith, room)))) λ _ _. Post-ok _ tt

decode_load-Post : (typ : ℕ) (s : Bytes) → Post Any (decode_load typ s)
unfolding decode_load
decode_load-Post typ s =
    Post-bind (λ _. 18 ≤ length s) (require_data s 18) (data-Post s 18)
      λ _ h. Post-bind Any (uint 4 s 0) (Post-Any _ (uint-safe 4 s 0 (omega (arith, h)))) λ _ _.
        Post-bind Any (uint 4 s 4) (Post-Any _ (uint-safe 4 s 4 (omega (arith, h)))) λ _ _.
          Post-bind Any (uint 4 s 8) (Post-Any _ (uint-safe 4 s 8 (omega (arith, h)))) λ _ _.
            Post-bind Any (byte_at s 12) (Post-Any _ (byte_at-safe s 12 (omega (arith, h)))) λ t _.
              Post-bind Any (byte_at s 13) (Post-Any _ (byte_at-safe s 13 (omega (arith, h))))
                λ k _.
                  Post-bind Any (uint 4 s 14) (Post-Any _ (uint-safe 4 s 14 (omega (arith, h))))
                    λ n _.
                      Post-bind (λ r. r.1 ≤ length s) (load_terminators typ s 18)
                        (load_terminators-Post typ s 18 h)
                        λ r within.
                          Post-bind (λ f. f.2 ≤ length s) (load_flags typ s r.1 n)
                            (load_flags-Post typ s r.1 n within)
                            λ f within'.
                              Post-bind Any (load_names s f.2 n t k)
                                (load_names-Post s f.2 n t k within') λ _ _. Post-ok _ tt

-- The decoder of LOAD and NEW_LOAD events reads no byte out of range, whatever event type it is
-- called with and whatever lengths its data claims.
pub decode_load-ne-panic : (typ : ℕ) (s : Bytes) → decode_load typ s ≢ panic
decode_load-ne-panic typ s = (decode_load-Post typ s).safe

query-Post : (s : Bytes) → Post Any (decode_execute_load_query s)
unfolding decode_execute_load_query
query-Post s =
    Post-bind (λ _. 26 ≤ length s) (require_data s 26) (data-Post s 26)
      λ _ h. Post-bind Any (uint 4 s 0) (Post-Any _ (uint-safe 4 s 0 (omega (arith, h)))) λ _ _.
        Post-bind Any (uint 4 s 4) (Post-Any _ (uint-safe 4 s 4 (omega (arith, h)))) λ _ _.
          Post-bind Any (byte_at s 8) (Post-Any _ (byte_at-safe s 8 (omega (arith, h)))) λ k _.
            Post-bind Any (uint 2 s 9) (Post-Any _ (uint-safe 2 s 9 (omega (arith, h)))) λ _ _.
              Post-bind Any (uint 2 s 11) (Post-Any _ (uint-safe 2 s 11 (omega (arith, h)))) λ n _.
                Post-bind Any (uint 4 s 13) (Post-Any _ (uint-safe 4 s 13 (omega (arith, h))))
                  λ _ _.
                    Post-bind Any (uint 4 s 17) (Post-Any _ (uint-safe 4 s 17 (omega (arith, h))))
                      λ _ _.
                        Post-bind Any (uint 4 s 21)
                          (Post-Any _ (uint-safe 4 s 21 (omega (arith, h))))
                          λ _ _.
                            Post-bind Any (byte_at s 25)
                              (Post-Any _ (byte_at-safe s 25 (omega (arith, h))))
                              λ _ _.
                                Post-bind (λ _. 26 + (n + k + 1) ≤ length s)
                                  (require_from s 26 (n + k + 1)) (from-Post s 26 _ h)
                                  λ _ room.
                                    Post-bind Any (slice s 26 n)
                                      (Post-Any _ (slice-safe s 26 n (omega (arith, room))))
                                      λ _ _.
                                        Post-bind Any (slice s (26 + n) k)
                                          (Post-Any _
                                            (slice-safe s (26 + n) k (omega (arith, room))))
                                          λ _ _.
                                            Post-bind Any (from s (26 + n + (k + 1)))
                                              (Post-Any _ (from-safe s _ (omega (arith, room))))
                                              λ _ _. Post-ok _ tt

-- The decoder of an EXECUTE_LOAD_QUERY event reads no byte out of range, whatever its data claims.
pub decode_execute_load_query-ne-panic : (s : Bytes) → decode_execute_load_query s ≢ panic
decode_execute_load_query-ne-panic s = (query-Post s).safe
