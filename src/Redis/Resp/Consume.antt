-- ===== src/Redis/Resp/Consume.antt =====
-- What a successful `parseCommand` has taken from the reader.
use go_dblog.Prelude.{
  ℕ, zero, suc, ◌+◌, ◌≤◌, ◌<◌, ◌≡◌, refl, sym, ap, ◌∙◌, Option, none, some, List, [], ◌∷◌, ◌++◌,
  append_assoc, append-nil, length, length-append, arith, Option-cases, inl, inr,
}
use go_dblog.Prelude.Text.{Bytes, to_lower}
use go_dblog.Redis.Reader.{
  Reader, Parser, and_then, and_then-eq-ok, ok, pure, valid, ◌>>=◌, read_line, read_full,
  split_line, strip_cr, split_at,
}
use go_dblog.Redis.Command.{Command}
use go_dblog.Redis.Resp.{
  header_length, payload, read_bulk_string, read_parts, command_of, parse_command, max_bulk_bytes,
  max_array_elements,
}

-- From `r` to `r'` the bytes `taken` were read, and noted.
pub record Took (r r' : Reader) : Type 0 where
  pub taken : Bytes
  pub was_input : r.input ≡ taken ++ r'.input
  pub was_noted : r'.raw ≡ r.raw ++ taken

Took-refl : (r : Reader) → Took r r
Took-refl r = record { taken = []; was_input = refl; was_noted = sym (append-nil r.raw) }

Took-trans : {r s t : Reader} → Took r s → Took s t → Took r t
Took-trans {r} p q = record {
  taken = p.taken ++ q.taken;
  was_input = p.was_input ∙ ap (◌++◌ p.taken) q.was_input ∙ sym (append_assoc p.taken q.taken _);
  was_noted = q.was_noted ∙ ap (λ w. w ++ q.taken) p.was_noted ∙ append_assoc r.raw p.taken q.taken;
}

record Takes {A : Type 0} (m : Parser A) : Type 0 where
  at : (r : Reader) (a : A) (r' : Reader) → m r ≡ ok a r' → Took r r'

Takes-bind :
    {A B : Type 0} (m : Parser A) (f : A → Parser B)
    → Takes m
    → ((a : A) → Takes (f a))
    → Takes (m >>= f)
Takes-bind m f p q = record {
  at = λ r b t h.
      let (a, s, e, later) = and_then-eq-ok (m r) f h in
      Took-trans (p.at r a s e) ((q a).at s b t later);
}

Takes-valid : {A : Type 0} (o : Option A) → Takes (valid o)
Takes-valid none = record { at = λ r a t h. cc }
Takes-valid (some b) = record { at = λ r a t h. subst_end r t (ground (arith, h)) }
  where
    subst_end : (r t : Reader) → r ≡ t → Took r t
    subst_end r t e = rw (← e) (Took-refl r)

Takes-pure : {A : Type 0} (b : A) → Takes (pure b)
Takes-pure b = Takes-valid (some b)

-- The line end is where the line was split.
split_line-eq :
    (s : Bytes) (p : Bytes × Bytes) → split_line s ≡ some p → s ≡ (p.0 ++ b'\n' ∷ []) ++ p.1
unfolding split_line
split_line-eq [] p h = cc
split_line-eq (c ∷ s) p h = elim (Option-cases (split_line s)) [
  | inl e ↦ ground arith
  | inr (q, e) ↦ ground (arith, split_line-eq s q e)
]

split_at-eq : (n : ℕ) (s : Bytes) (p : Bytes × Bytes) → split_at n s ≡ some p → s ≡ p.0 ++ p.1
unfolding split_at
split_at-eq zero s p h = ground arith
split_at-eq (suc n) [] p h = cc
split_at-eq (suc n) (c ∷ s) p h = elim (Option-cases (split_at n s)) [
  | inl e ↦ ground arith
  | inr (q, e) ↦ ground (arith, split_at-eq n s q e)
]

Takes-read_line : Takes read_line
unfolding read_line
Takes-read_line = record {
  at = λ r a t h. elim (Option-cases (split_line r.input)) [
    | inl e ↦ absurd (ground arith)
    | inr (p, e) ↦ elim (Option-cases (strip_cr p.0)) [
      | inl no_cr ↦ absurd (ground arith)
      | inr (l, cr) ↦ record {
        taken = p.0 ++ b'\n' ∷ [];
        was_input = ground (arith, split_line-eq r.input p e);
        was_noted = ground arith;
      }
    ]
  ];
}

Takes-read_full : (n : ℕ) → Takes (read_full n)
unfolding read_full
Takes-read_full n = record {
  at = λ r a t h. elim (Option-cases (split_at n r.input)) [
    | inl e ↦ absurd (ground arith)
    | inr (p, e) ↦ record {
      taken = p.0;
      was_input = ground (arith, split_at-eq n r.input p e);
      was_noted = ground arith;
    }
  ];
}

Takes-read_bulk_string : Takes read_bulk_string
unfolding read_bulk_string
Takes-read_bulk_string = Takes-bind _ _ Takes-read_line λ header.
    Takes-bind _ _ (Takes-valid (header_length b'$' 0 max_bulk_bytes header))
      λ n. Takes-bind _ _ (Takes-read_full (n + 2)) λ block. Takes-valid (payload n block)

Takes-read_parts : (n : ℕ) → Takes (read_parts n)
unfolding read_parts
Takes-read_parts zero = Takes-pure []
Takes-read_parts (suc n) =
    let rest = Takes-read_parts n in
    Takes-bind _ _ Takes-read_bulk_string
      λ part. Takes-bind _ _ rest λ parts. Takes-pure (part ∷ parts)

Takes-command_of : (ps : List Bytes) → Takes (command_of ps)
unfolding command_of
Takes-command_of [] = record { at = λ r a t h. cc }
Takes-command_of ([] ∷ args) = Takes-valid none
Takes-command_of ((c ∷ cs) ∷ args) = Takes-pure (record { name = to_lower (c ∷ cs); args = args })

-- `parseCommand` behind its first line.
unfoldable pub after_line : Bytes → Parser Command
after_line line = do
  count ← valid (header_length b'*' 1 max_array_elements line)
  parts ← read_parts count
  command_of parts

Takes-after_line : (line : Bytes) → Takes (after_line line)
unfolding after_line
Takes-after_line line =
    Takes-bind _ _ (Takes-valid (header_length b'*' 1 max_array_elements line))
      λ count. Takes-bind _ _ (Takes-read_parts count) λ parts. Takes-command_of parts

pub parse_command-eq : (r : Reader) → parse_command r ≡ and_then (read_line r) after_line
unfolding parse_command after_line
parse_command-eq r = refl

read_line_shrinks :
    (r t : Reader) (a : Bytes) → read_line r ≡ ok a t → length t.input < length r.input
unfolding read_line
read_line_shrinks r t a h = elim (Option-cases (split_line r.input)) [
  | inl e ↦ absurd (ground arith)
  | inr (p, e) ↦ elim (Option-cases (strip_cr p.0)) [
    | inl no_cr ↦ absurd (ground arith)
    | inr (l, cr) ↦ ground (
      arith,
      split_line-eq r.input p e,
      length-append (p.0 ++ b'\n' ∷ []) p.1,
      length-append p.0 (b'\n' ∷ []),
    )
  ]
]

Took-le : {r t : Reader} → Took r t → length t.input ≤ length r.input
Took-le {r} {t} k = omega (arith, ap (length {0}) k.was_input, length-append k.taken t.input)

-- A command that `parseCommand` returns comes with exactly the bytes that it took from the
-- reader, and these are not none: what was noted behind them is what is gone from the input.
pub parse_command_takes :
    (r r' : Reader) (c : Command)
    → parse_command r ≡ ok c r'
    → Took r r' × (length r'.input < length r.input)
parse_command_takes r r' c h =
    let (line, s, first, later) =
      and_then-eq-ok (read_line r) after_line (rw parse_command-eq at h) in
    let front = Takes-read_line.at r line s first in
    let back = (Takes-after_line line).at s c r' later in
    (Took-trans front back, omega (arith, read_line_shrinks r s line first, Took-le back))
