-- ===== src/Postgres/Stream/Resume.antt =====
-- Resuming a text of logical decoding from the checkpoint of an event.
use go_dblog.Prelude.{
  ℕ, zero, suc, ◌+◌, ◌≤◌, ◌<◌, ◌≡◌, refl, ap, ◌∙◌, Bool, Option, none, some, List, [], ◌∷◌, le→leb,
  leb_lt, drop, arith, Bool-cases, inl, inr,
}
use go_dblog.Prelude.Text.{Bytes, is_empty, trim_space}
use go_dblog.Prelude.Decimal.{max_int}
use go_dblog.Prelude.Result as Go
use go_dblog.Dblog.Types.{Source, checkpoint_of}
use go_dblog.Dblog.Start.{start_position_for-itoa}
use go_dblog.Dblog.Stream.{of_list}
use go_dblog.Postgres.Types.{driver, PgEvent, with_driver}
use go_dblog.Postgres.Columns.{LineError}
use go_dblog.Postgres.Line.{EventPlugin, parse_line}
use go_dblog.Postgres.Stream.{Item, as_event, decoder_events, start_position, new_decoder}
use go_dblog.Postgres.Stream.Spec.{items, decoder_events-items}

module _ {F : Type 0} (parse_float : Bytes → Option F) (show_float : F → Bytes) (source : Source)
    (plugins : List (Option (EventPlugin F))) where
  -- The items of a decoder that starts behind line `n`.
  abbrev pub items_from : ℕ → ℕ → List Bytes → Option LineError → List (Item F)
  items_from n = items parse_float show_float (new_decoder source plugins n)

  skip_lines :
      (m n k : ℕ) (lines : List Bytes) (failure : Option LineError)
      → k + m ≡ n
      → items_from n k lines failure ≡ items_from n (k + m) (drop m lines) failure
  unfolding items new_decoder
  skip_lines zero n k lines failure h = ap (λ (j : ℕ). items_from n j lines failure) (omega arith)
  skip_lines (suc m) n k [] failure h = refl
  skip_lines (suc m) n k (line ∷ lines) failure h = rw (le→leb (k + 1) n (omega (arith, h))) (
      skip_lines m n (k + 1) lines failure (omega (arith, h))
      ∙ ap (λ (j : ℕ). items_from n j (drop m lines) failure) (omega arith))

  same_items :
      (n k : ℕ) (lines : List Bytes) (failure : Option LineError)
      → n ≤ k
      → items_from n k lines failure ≡ items_from 0 k lines failure
  unfolding items new_decoder as_event
  same_items n k [] failure h = refl
  same_items n k (line ∷ lines) failure h =
      let above = leb_lt (k + 1) n (omega (arith, h)) in
      let above' = leb_lt (k + 1) 0 (omega arith) in
      let ih = same_items n (k + 1) lines failure (omega (arith, h)) in
      elim (Bool-cases (is_empty (trim_space line))) [
        | inl blank ↦ rw (above, above', blank) ih
        | inr full ↦
            elim (Go.view (parse_line parse_float (with_driver source) (k + 1) line plugins)) [
              | Go.is_panic e ↦ rw (above, above', full, e) refl
              | Go.is_err x e ↦ rw (above, above', full, e) refl
              | Go.is_ok x e ↦
                  let item : Item F = (some (as_event show_float x), none) in
                  rw (above, above', full, e) (ap (λ is. item ∷ is) ih)
            ]
      ]

  -- The position of an event of line `n`, in the range of `int`, is read back from its checkpoint as
  -- `n`, and a decoder that starts there yields, over the same lines, exactly what a decoder from
  -- the beginning yields of the lines behind the first `n`, with the numbers that they had.
  pub resume_at_line :
      {S : Type 0} (n : ℕ) (e : PgEvent F) (lines : List Bytes) (failure : Option LineError)
      (yield : S → Item F → S × Bool) (s : S)
      → e.position ≡ n
      → n < max_int
      → (start_position (checkpoint_of (some (as_event show_float e))).position ≡ Go.ok n)
        × (decoder_events parse_float show_float
              (some (new_decoder source plugins n))
              lines
              failure
              yield
              s
            ≡ of_list (items_from 0 n (drop n lines) failure) yield s)
  resume_at_line n e lines failure yield s at_n h = (
    unfold start_position checkpoint_of as_event in rw at_n (start_position_for-itoa driver n h),
    decoder_events-items parse_float show_float (new_decoder source plugins n) lines failure yield s
        ∙ ap (λ is. of_list is yield s)
            (skip_lines n n 0 lines failure (omega arith)
              ∙ ap (λ (j : ℕ). items_from n j (drop n lines) failure) (omega arith)
              ∙ same_items n n (drop n lines) failure (omega arith)),
  )
