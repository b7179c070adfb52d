-- ===== src/Redis/Resp/Safe.antt =====
-- `parseCommand` never panics.
use go_dblog.Prelude.{
  ℕ, zero, suc, ◌+◌, ◌≤◌, ◌≡◌, ◌≢◌, refl, Option, none, some, List, [], ◌∷◌, length, arith,
}
use go_dblog.Prelude.Text.{Bytes}
use go_dblog.Redis.Reader.{
  Reader, Parser, Outcome, and_then, and_then-eq-ok, ok, err, panic, pure, valid, ◌>>=◌, read_line,
  read_full,
}
use go_dblog.Redis.Resp.{
  header_length, read_bulk_string, read_parts, command_of, parse_command, max_bulk_bytes,
  max_array_elements,
}
use go_dblog.Redis.Resp.Consume.{after_line, parse_command-eq}

-- No panic.
abbrev Safe : {A : Type 0} → Parser A → Type 0
Safe m = (r : Reader) → m r ≢ panic

and_then-Safe :
    {A B : Type 0} (o : Outcome A) (f : A → Parser B)
    → o ≢ panic
    → ((a : A) (s : Reader) → o ≡ ok a s → f a s ≢ panic)
    → and_then o f ≢ panic
and_then-Safe (ok a s) f p q = q a s refl
and_then-Safe (err e s) f p q = λ h. cc
and_then-Safe panic f p q = absurd (p refl)

valid-Safe : {A : Type 0} (o : Option A) → Safe (valid o)
valid-Safe none r h = cc
valid-Safe (some a) r h = cc

read_line-Safe : Safe read_line
unfolding read_line
read_line-Safe r = ground arith

read_full-Safe : (n : ℕ) → Safe (read_full n)
unfolding read_full
read_full-Safe n r = ground arith

read_bulk_string-Safe : Safe read_bulk_string
unfolding read_bulk_string
read_bulk_string-Safe r = and_then-Safe (read_line r) _ (read_line-Safe r) λ header s _.
    and_then-Safe (valid (header_length b'$' 0 max_bulk_bytes header) s) _ (valid-Safe _ s) λ n t _.
      and_then-Safe (read_full (n + 2) t) _ (read_full-Safe (n + 2) t) λ block u _. valid-Safe _ u

-- `parts` is not empty where `count` is not 0.
read_parts-Safe :
    (n : ℕ) (r : Reader)
    → (read_parts n r ≢ panic)
      × ((ps : List Bytes) (s : Reader) → read_parts n r ≡ ok ps s → length ps ≡ n)
unfolding read_parts
read_parts-Safe zero r = (λ h. cc, λ ps s h. ground arith)
read_parts-Safe (suc n) r =
    let ih = read_parts-Safe n in
    (
      and_then-Safe (read_bulk_string r) _ (read_bulk_string-Safe r)
          (λ part s _. and_then-Safe (read_parts n s) _ (ih s).0 λ parts t _ h. cc),
      λ ps s h.
          let (part, t, _, later) =
            and_then-eq-ok (read_bulk_string r)
              (λ part. do parts ← read_parts n; pure (part ∷ parts)) h in
          let (parts, u, e, last) =
            and_then-eq-ok (read_parts n t) (λ parts. pure (part ∷ parts)) later in
          ground (arith, (ih t).1 parts u e),
    )

header_length_ge : (p hi n : ℕ) (s : Bytes) → header_length p 1 hi s ≡ some n → 1 ≤ n
unfolding header_length
header_length_ge p hi n [] h = cc
header_length_ge p hi n (c ∷ s) h = ground arith

command_of-Safe : (ps : List Bytes) → 1 ≤ length ps → Safe (command_of ps)
unfolding command_of
command_of-Safe [] h r = absurd (omega arith)
command_of-Safe ([] ∷ args) h r = λ e. cc
command_of-Safe ((c ∷ cs) ∷ args) h r = λ e. cc

valid-eq-ok :
    {A : Type 0} (o : Option A) {a : A} (r : Reader) {s : Reader} → valid o r ≡ ok a s → o ≡ some a
valid-eq-ok none r h = cc
valid-eq-ok (some b) r h = cc

-- `parseCommand` never panics: `parts[0]` is there, since the count is not 0, and the terminator of
-- a bulk string is within what was read.
pub parse_command-ne-panic : (r : Reader) → parse_command r ≢ panic
parse_command-ne-panic r = rw parse_command-eq (
    and_then-Safe (read_line r) after_line (read_line-Safe r) λ line s _.
      unfold after_line in
      and_then-Safe (valid (header_length b'*' 1 max_array_elements line) s) _ (valid-Safe _ s)
        λ n t e. and_then-Safe (read_parts n t) _ (read_parts-Safe n t).0 λ ps u e'.
          command_of-Safe ps
            (omega (
              arith,
              header_length_ge b'*' max_array_elements n line (valid-eq-ok _ s e),
              (read_parts-Safe n t).1 ps u e',
            ))
            u)
