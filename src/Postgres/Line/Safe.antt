-- ===== src/Postgres/Line/Safe.antt =====
-- That the parser of lines ends: its loops over the columns have enough fuel, whose lack is `panic`.
use go_dblog.Prelude.{
  ℕ, ◌≢◌, refl, Bool, true, false, not, ◌||◌, Option, none, some, List, [], ◌∷◌, if◌then◌else◌,
}
use go_dblog.Prelude.Text.{
  Bytes, codes, same, is_empty, has_prefix, trim_prefix, trim_space, to_lower, cut,
}
use go_dblog.Prelude.Result.{Result, ok, err, panic, ◌>>=◌, or_err}
use go_dblog.Dblog.Types.{Source}
use go_dblog.Postgres.Types.{operation_update, with_driver}
use go_dblog.Postgres.Columns.{invalid_line}
use go_dblog.Postgres.Columns.Fuel.{parse_columns-ne-panic}
use go_dblog.Postgres.Line.{
  split_table, update_columns, parse_change_columns, change_of_table, parse_change, EventPlugin,
  parse_builtin, parse_with, parse_line,
}

bind-ne-panic :
    {E : Type 0} {A B : Type 0} (m : Result E A) (f : A → Result E B)
    → m ≢ panic
    → ((a : A) → f a ≢ panic)
    → (m >>= f) ≢ panic
bind-ne-panic panic f h k = absurd (h refl)
bind-ne-panic (err e) f h k = λ e'. cc
bind-ne-panic (ok a) f h k = k a

if-ne-panic :
    {E : Type 0} {A : Type 0} (b : Bool) (m n : Result E A)
    → m ≢ panic
    → n ≢ panic
    → (if b then m else n) ≢ panic
if-ne-panic true m n h k = h
if-ne-panic false m n h k = k

or_err-ne-panic : {E : Type 0} {A : Type 0} (o : Option A) (e : E) → or_err o e ≢ panic
or_err-ne-panic none e = λ h. cc
or_err-ne-panic (some a) e = λ h. cc

ok-ne-panic : {E : Type 0} {A : Type 0} (a : A) → ◌≢◌ {A = Result E A} (ok a) panic
ok-ne-panic a h = cc

err-ne-panic : {E : Type 0} {A : Type 0} (e : E) → ◌≢◌ {A = Result E A} (err e) panic
err-ne-panic e h = cc

module _ {F : Type 0} (parse_float : Bytes → Option F) where
  update_columns-ne-panic : (body : Bytes) → update_columns parse_float body ≢ panic
  unfolding update_columns
  update_columns-ne-panic body =
      bind-ne-panic _ _ (or_err-ne-panic (cut body (codes " new-tuple: ")) invalid_line) (λ p.
        bind-ne-panic _ _ (parse_columns-ne-panic parse_float p.0) (λ old.
          bind-ne-panic _ _ (parse_columns-ne-panic parse_float p.1) (λ new. ok-ne-panic _)))

  change_columns-ne-panic : (op body : Bytes) → parse_change_columns parse_float op body ≢ panic
  unfolding parse_change_columns
  change_columns-ne-panic op body =
      if-ne-panic (not (same op operation_update) || not (has_prefix body (codes "old-key: "))) _ _
        (bind-ne-panic _ _ (parse_columns-ne-panic parse_float body) (λ cs. ok-ne-panic _))
        (update_columns-ne-panic (trim_prefix body (codes "old-key: ")))

  change_of_table-ne-panic :
      (schema table rest : Bytes) → change_of_table parse_float schema table rest ≢ panic
  unfolding change_of_table
  change_of_table-ne-panic schema table rest =
      if-ne-panic (is_empty table) _ _ (err-ne-panic invalid_line) (
        bind-ne-panic _ _ (or_err-ne-panic (cut rest (codes ": ")) invalid_line) (λ p.
          if-ne-panic (is_empty (to_lower (trim_space p.0))) _ _ (err-ne-panic invalid_line) (
            bind-ne-panic _ _ (change_columns-ne-panic (to_lower (trim_space p.0)) p.1)
              (λ cs. ok-ne-panic _))))

  parse_change-ne-panic : (line : Bytes) → parse_change parse_float line ≢ panic
  unfolding parse_change
  parse_change-ne-panic line =
      bind-ne-panic _ _
        (or_err-ne-panic (cut (trim_prefix line (codes "table ")) (codes ": ")) invalid_line)
        (λ p.
          change_of_table-ne-panic (split_table (trim_space p.0)).0 (split_table (trim_space p.0)).1
            p.1)

  parse_builtin-ne-panic :
      (source : Source) (position : ℕ) (line : Bytes)
      → parse_builtin parse_float source position line ≢ panic
  unfolding parse_builtin
  parse_builtin-ne-panic source position line =
      if-ne-panic (has_prefix line (codes "BEGIN")) _ _ (ok-ne-panic _) (
        if-ne-panic (has_prefix line (codes "COMMIT")) _ _ (ok-ne-panic _) (
          if-ne-panic (has_prefix line (codes "table ")) _ _
            (bind-ne-panic _ _ (parse_change-ne-panic line) (λ c. ok-ne-panic _))
            (err-ne-panic invalid_line)))

  parse_with-ne-panic :
      (source : Source) (position : ℕ) (line : Bytes) (plugins : List (Option (EventPlugin F)))
      → parse_with parse_float source position line plugins ≢ panic
  unfolding parse_with
  parse_with-ne-panic source position line [] = parse_builtin-ne-panic source position line
  parse_with-ne-panic source position line (none ∷ ps) = parse_with-ne-panic source position line ps
  parse_with-ne-panic source position line (some p ∷ ps) =
      if-ne-panic (not (p.matches_line line)) _ _ (parse_with-ne-panic source position line ps)
        (or_err-ne-panic (p.decode source position line) _)

  -- `parseLine` ends on every line with an event or an error, whatever the plugins answer: the loops
  -- over the columns have enough fuel.
  pub parse_line-ne-panic :
      (source : Source) (position : ℕ) (line : Bytes) (plugins : List (Option (EventPlugin F)))
      → parse_line parse_float source position line plugins ≢ panic
  unfolding parse_line
  parse_line-ne-panic source position line plugins =
      parse_with-ne-panic (with_driver source) position line plugins
