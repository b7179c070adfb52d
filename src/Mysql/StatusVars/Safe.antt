-- ===== src/Mysql/StatusVars/Safe.antt =====
-- The ends and the panics of the decoder of status variables.
use go_dblog.Prelude.{
  ℕ, zero, suc, ◌+◌, ◌≤◌, ◌≡◌, ◌≢◌, refl, Bool, true, false, Option, none, some, length, leb, ◌==◌,
  if◌then◌else◌, arith, Option-cases, inl, inr,
}
use go_dblog.Prelude.Result.{ok, err, panic}
use go_dblog.Prelude.Text.{Bytes}
use go_dblog.Mysql.Bytes.{Decoded, unterminated_db_name, byte_at, from, slice, uint, require_from}
use go_dblog.Mysql.Bytes.Safe.{byte_at-safe, from-safe}
use go_dblog.Mysql.Bytes.Post.{
  Post, Post-ok, Post-bind, Post-err, Post-Any, Any, from-Post, rest-Post, byte_at-Post, slice-Post,
  uint-Post,
}
use go_dblog.Mysql.Load.{cut_nul}
use go_dblog.Mysql.Load.Safe.{length-cut_nul}
use go_dblog.Mysql.StatusVars.{
  QueryStatusVars, no_status, Read, read_word, read_short, read_auto_increment, read_charset,
  read_invokers, read_names, read_updated_names, read_microseconds, read_text_var, read_var,
  status_round, status_code, status_loop, decode_query_status_vars,
}

abbrev Past : {A : Type 0} → Bytes → ℕ → A × ℕ → Type 0
Past s i r = (i ≤ r.1) × (r.1 ≤ length s)

read_word-Post :
    (n : ℕ) (s : Bytes) (i : ℕ) (make : ℕ → QueryStatusVars)
    → i ≤ length s
    → Post (Past s i) (read_word n s i make)
unfolding read_word
read_word-Post n s i make h =
    Post-bind (λ _. i + n ≤ length s) (require_from s i n) (from-Post s i n h)
      λ _ k. Post-bind Any (uint n s i) (uint-Post n s i k) λ v _. Post-ok _ (omega arith, k)

read_short-Post :
    (extra : ℕ) (s : Bytes) (i : ℕ) (make : Bytes → QueryStatusVars)
    → i ≤ length s
    → Post (Past s i) (read_short extra s i make)
unfolding read_short
read_short-Post extra s i make h =
    Post-bind (λ _. i + 1 ≤ length s) (require_from s i 1) (from-Post s i 1 h)
      λ _ k. Post-bind Any (byte_at s i) (byte_at-Post s i k) λ n _.
        Post-bind (λ _. i + 1 + (n + extra) ≤ length s) (require_from s (i + 1) (n + extra))
          (from-Post s (i + 1) (n + extra) k)
          λ _ l.
            Post-bind Any (slice s (i + 1) n) (slice-Post s (i + 1) n (omega (arith, l)))
              λ _ _. Post-ok _ (omega arith, omega (arith, l))

auto_increment-Post :
    (s : Bytes) (i : ℕ) (v : QueryStatusVars)
    → i ≤ length s
    → Post (Past s i) (read_auto_increment s i v)
unfolding read_auto_increment
auto_increment-Post s i v h =
    Post-bind (λ _. i + 4 ≤ length s) (require_from s i 4) (from-Post s i 4 h)
      λ _ k. Post-bind Any (uint 2 s i) (uint-Post 2 s i (omega (arith, k))) λ _ _.
        Post-bind Any (uint 2 s (i + 2)) (uint-Post 2 s (i + 2) (omega (arith, k)))
          λ _ _. Post-ok _ (omega arith, k)

charset-Post :
    (s : Bytes) (i : ℕ) (v : QueryStatusVars) → i ≤ length s → Post (Past s i) (read_charset s i v)
unfolding read_charset
charset-Post s i v h =
    Post-bind (λ _. i + 6 ≤ length s) (require_from s i 6) (from-Post s i 6 h)
      λ _ k. Post-bind Any (uint 2 s i) (uint-Post 2 s i (omega (arith, k))) λ _ _.
        Post-bind Any (uint 2 s (i + 2)) (uint-Post 2 s (i + 2) (omega (arith, k))) λ _ _.
          Post-bind Any (uint 2 s (i + 4)) (uint-Post 2 s (i + 4) (omega (arith, k)))
            λ _ _. Post-ok _ (omega arith, k)

invokers-Post :
    (s : Bytes) (i : ℕ) (v : QueryStatusVars) → i ≤ length s → Post (Past s i) (read_invokers s i v)
unfolding read_invokers
invokers-Post s i v h =
    Post-bind (λ _. i + 1 ≤ length s) (require_from s i 1) (from-Post s i 1 h)
      λ _ k. Post-bind Any (byte_at s i) (byte_at-Post s i k) λ n _.
        Post-bind (λ _. i + 1 + (n + 1) ≤ length s) (require_from s (i + 1) (n + 1))
          (from-Post s (i + 1) (n + 1) k)
          λ _ l.
            Post-bind Any (slice s (i + 1) n) (slice-Post s (i + 1) n (omega (arith, l))) λ _ _.
              Post-bind Any (byte_at s (i + 1 + n)) (byte_at-Post s (i + 1 + n) (omega (arith, l)))
                λ m _.
                  let q : ℕ = i + 1 + n + 1 in
                  Post-bind (λ _. q + m ≤ length s) (require_from s q m)
                    (from-Post s q m (omega (arith, l)))
                    λ _ w.
                      Post-bind Any (slice s q m) (slice-Post s q m w)
                        λ _ _. Post-ok _ (omega arith, w)

microseconds-Post :
    (s : Bytes) (i : ℕ) (v : QueryStatusVars)
    → i ≤ length s
    → Post (Past s i) (read_microseconds s i v)
unfolding read_microseconds
microseconds-Post s i v h =
    Post-bind (λ _. i + 3 ≤ length s) (require_from s i 3) (from-Post s i 3 h)
      λ _ k. Post-bind Any (slice s i 3) (slice-Post s i 3 k) λ _ _. Post-ok _ (omega arith, k)

names-Post : (n : ℕ) (s : Bytes) (i : ℕ) → i ≤ length s → Post (Past s i) (read_names n s i)
unfolding read_names
names-Post zero s i h = Post-ok _ (omega arith, h)
names-Post (suc n) s i h =
    Post-bind (λ rest. i + length rest ≤ length s) (from s i) (rest-Post s i h)
      λ rest room. elim (Option-cases (cut_nul rest)) [
        | inl e ↦ rw e (Post-err unterminated_db_name)
        | inr ((name, left), e) ↦
            let cut : length rest ≡ length name + 1 + length left =
              length-cut_nul rest name left e in
            let next : i + length name + 1 ≤ length s = omega (arith, cut, room) in
            rw e (
              Post-bind (Past s (i + length name + 1)) (read_names n s (i + length name + 1))
                (names-Post n s (i + length name + 1) next)
                λ r (low, high). Post-ok _ (omega (arith, low), high))
      ]

updated_names-Post :
    (s : Bytes) (i : ℕ) (v : QueryStatusVars)
    → i ≤ length s
    → Post (Past s i) (read_updated_names s i v)
unfolding read_updated_names
updated_names-Post s i v h =
    Post-bind (λ _. i + 1 ≤ length s) (require_from s i 1) (from-Post s i 1 h)
      λ _ k. Post-bind Any (byte_at s i) (byte_at-Post s i k) λ n _.
        Post-bind (Past s (i + 1)) (read_names n s (i + 1)) (names-Post n s (i + 1) k)
          λ r (low, high). Post-ok _ (omega (arith, low), high)

-- What the switch gives, if anything, stays within the data.
data Each (s : Bytes) (i : ℕ) : Option Read → Type 0 where
  missing : Each s i none
  found : {m : Read} → Post (Past s i) m → Each s i (some m)

Each-if :
    {s : Bytes} {i : ℕ} (b : Bool) {m k : Option Read}
    → Each s i m
    → Each s i k
    → Each s i (if b then m else k)
Each-if true p q = p
Each-if false p q = q

text_var-Each :
    (k : ℕ) (s : Bytes) (i : ℕ) (v : QueryStatusVars)
    → i ≤ length s
    → Each s i (read_text_var k s i v)
unfolding read_text_var
text_var-Each k s i v h = Each-if (k == 2) (found (read_short-Post 1 s i _ h)) (
    Each-if (k == 3) (found (auto_increment-Post s i v h)) (
      Each-if (k == 4) (found (charset-Post s i v h)) (
        Each-if (k == 5) (found (read_short-Post 0 s i _ h)) (
          Each-if (k == 6) (found (read_short-Post 0 s i _ h)) (
            Each-if (k == 11) (found (invokers-Post s i v h)) (
              Each-if (k == 12) (found (updated_names-Post s i v h))
                (Each-if (k == 13) (found (microseconds-Post s i v h)) missing)))))))

var-Each :
    (k : ℕ) (s : Bytes) (i : ℕ) (v : QueryStatusVars) → i ≤ length s → Each s i (read_var k s i v)
unfolding read_var
var-Each k s i v h = Each-if (k == 0) (found (read_word-Post 4 s i _ h)) (
    Each-if (k == 1) (found (read_word-Post 8 s i _ h)) (
      Each-if (k == 7) (found (read_word-Post 2 s i _ h)) (
        Each-if (k == 8) (found (read_word-Post 2 s i _ h)) (
          Each-if (k == 9) (found (read_word-Post 8 s i _ h))
            (Each-if (k == 10) (found (read_word-Post 4 s i _ h)) (text_var-Each k s i v h))))))

-- A call that ends, without a panic.
pub record Returns {A : Type 0} (o : Option (Decoded A)) : Type 0 where
  pub ends : o ≢ none
  pub safe : o ≢ some panic

pub Returns-some : {A : Type 0} (m : Decoded A) → m ≢ panic → Returns (some m)
Returns-some {A = A} m h = record { ends = λ e. absurd cc; safe = λ e. h (unwrap e) }
  where
    unwrap : {m k : Decoded A} → some m ≡ some k → m ≡ k
    unwrap e = cc

round-Returns :
    (s : Bytes) (i : ℕ) (v : QueryStatusVars)
    (next : ℕ → QueryStatusVars → Option (Decoded QueryStatusVars)) (o : Option Read)
    → i ≤ length s
    → Each s (i + 1) o
    → ((i' : ℕ) (v' : QueryStatusVars) → i + 1 ≤ i' → i' ≤ length s → Returns (next i' v'))
    → Returns (status_round s i v next o)
unfolding status_round
round-Returns s i v next none h missing k =
    Returns-some _ (Post-bind Any (from s i) (Post-Any _ (from-safe s i h)) λ rest _. end rest).safe
  where
    end : (rest : Bytes) → Post Any (ok (record v { unknown_status_vars_payload = rest }))
    end rest = Post-ok _ tt
round-Returns s i v next (some (ok (v', i'))) h (found e) k =
    let (low, high) = e.holds (v', i') refl in k i' v' low high
round-Returns s i v next (some (err w)) h (found e) k = Returns-some (err w) (λ q. cc)
round-Returns s i v next (some panic) h (found e) k = absurd (e.safe refl)

code-Returns :
    (s : Bytes) (i : ℕ) (v : QueryStatusVars)
    (next : ℕ → QueryStatusVars → Option (Decoded QueryStatusVars)) (m : Decoded ℕ)
    → i + 1 ≤ length s
    → m ≢ panic
    → ((i' : ℕ) (v' : QueryStatusVars) → i + 1 ≤ i' → i' ≤ length s → Returns (next i' v'))
    → Returns (status_code s i v next m)
unfolding status_code
code-Returns s i v next (ok c) h p k =
    round-Returns s i v next (read_var c s (i + 1) v) (omega (arith, h)) (var-Each c s (i + 1) v h)
      k
code-Returns s i v next (err w) h p k = Returns-some (err w) (λ q. cc)
code-Returns s i v next panic h p k = absurd (p refl)

Returns-if :
    {A : Type 0} (b : Bool) {m k : Option (Decoded A)}
    → (b ≡ true → Returns m)
    → (b ≡ false → Returns k)
    → Returns (if b then m else k)
Returns-if true p q = p refl
Returns-if false p q = q refl

loop-Returns :
    (fuel : ℕ) (s : Bytes) (i : ℕ) (v : QueryStatusVars)
    → length s ≤ i + fuel
    → Returns (status_loop fuel s i v)
unfolding status_loop
loop-Returns zero s i v h =
    Returns-if (leb (length s) i) (λ _. Returns-some (ok v) (λ q. cc))
      λ e. absurd (ground (arith, e, h))
loop-Returns (suc fuel) s i v h =
    Returns-if (leb (length s) i) (λ _. Returns-some (ok v) (λ q. cc))
      λ e.
        let inside : i + 1 ≤ length s = ground (arith, e) in
        code-Returns s i v _ (byte_at s i) inside (byte_at-safe s i (omega (arith, inside)))
          λ i' v' low high. loop-Returns fuel s i' v' (omega (arith, h, low))

-- `DecodeQueryStatusVars` ends on all data, and reads no byte out of range.
pub status_vars-Returns : (s : Bytes) → Returns (decode_query_status_vars s)
unfolding decode_query_status_vars
status_vars-Returns s = loop-Returns (length s) s 0 no_status (omega arith)
