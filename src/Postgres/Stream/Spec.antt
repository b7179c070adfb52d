-- ===== src/Postgres/Stream/Spec.antt =====
-- The events of a text of logical decoding, without the yield function: what `Events` yields.
use go_dblog.Prelude.{
  ℕ, ◌+◌, ◌≡◌, refl, Bool, Option, none, some, List, [], ◌∷◌, leb, if◌then◌else◌, arith, Bool-cases,
  inl, inr,
}
use go_dblog.Prelude.Text.{Bytes, is_empty, trim_space}
use go_dblog.Prelude.Result as Go
use go_dblog.Dblog.Stream.{of_list}
use go_dblog.Postgres.Columns.{LineError}
use go_dblog.Postgres.Line.{parse_line}
use go_dblog.Postgres.Stream.{Decoder, Item, as_event, events_loop, decoder_events}

module _ {F : Type 0} (parse_float : Bytes → Option F) (show_float : F → Bytes)
    (d : Decoder F) where
  abbrev failed : Option LineError → List (Item F)
  failed none = []
  failed (some e) = (none, some e) ∷ []

  -- An item for each line behind the start position that is not blank, numbered by its line, up to
  -- the first line that is refused; then the scanner's error.
  unfoldable pub items : ℕ → List Bytes → Option LineError → List (Item F)
  unfolding as_event
  items k [] failure = failed failure
  items k (line ∷ lines) failure =
      let rest = items (k + 1) lines failure in
      if leb (k + 1) d.start_position
      then rest
      else if is_empty (trim_space line)
      then rest
      else elim (parse_line parse_float d.source (k + 1) line d.plugins) [
        | Go.panic ↦ []
        | Go.err e ↦ (none, some e) ∷ []
        | Go.ok e ↦ (some (as_event show_float e), none) ∷ rest
      ]

  loop-items :
      {S : Type 0} (yield : S → Item F → S × Bool) (k : ℕ) (lines : List Bytes)
      (failure : Option LineError) (s : S)
      → events_loop parse_float show_float d yield k lines failure s
        ≡ of_list (items k lines failure) yield s
  unfolding events_loop items of_list
  loop-items yield k [] none s = refl
  loop-items yield k [] (some e) s = ground arith
  loop-items yield k (line ∷ lines) failure s = elim (Bool-cases (leb (k + 1) d.start_position)) [
    | inl below ↦ rw below (loop-items yield (k + 1) lines failure s)
    | inr above ↦ elim (Bool-cases (is_empty (trim_space line))) [
      | inl blank ↦ rw (above, blank) (loop-items yield (k + 1) lines failure s)
      | inr full ↦ elim (Go.view (parse_line parse_float d.source (k + 1) line d.plugins)) [
        | Go.is_panic h ↦ rw (above, full, h) refl
        | Go.is_err e h ↦ rw (above, full, h) (ground arith)
        | Go.is_ok e h ↦
            let item : Item F = (some (as_event show_float e), none) in
            rw (above, full, h)
              (elim (Bool-cases (yield s item).1) [
                | inl go ↦ rw go (loop-items yield (k + 1) lines failure (yield s item).0)
                | inr stop ↦ rw stop refl
              ])
      ]
    ]
  ]

  -- `Events` yields the items of the lines, and stops when the consumer does.
  pub decoder_events-items :
      {S : Type 0} (lines : List Bytes) (failure : Option LineError) (yield : S → Item F → S × Bool)
      (s : S)
      → decoder_events parse_float show_float (some d) lines failure yield s
        ≡ of_list (items 0 lines failure) yield s
  unfolding decoder_events
  decoder_events-items lines failure yield s = loop-items yield 0 lines failure s
