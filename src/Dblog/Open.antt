-- ===== src/Dblog/Open.antt =====
-- dblog.go: open options. `R` is the type of the readers and `C` that of the contexts; nil
-- interface values are `none`.
use go_dblog.Prelude.{Bool, not, ◌&&◌, Option, none, some, List, [], ◌∷◌, if◌then◌else◌}
use go_dblog.Prelude.Text.{Bytes, same}
use go_dblog.Dblog.Types.{Source, Position, Checkpoint, no_source, no_position}

pub record OpenOptions (R C : Type 0) : Type 0 where
  pub source : Source
  pub path : Bytes
  pub dsn : Bytes
  pub reader : Option R
  pub ctx : Option C
  pub start_position : Position

-- `a != b` on sources
abbrev same_source : Source → Source → Bool
same_source a b = same a.driver b.driver && same a.name b.name

-- `OpenOption`; nil options are `none` in the lists below.
abbrev pub OpenOption : Type 0 → Type 0 → Type 0
OpenOption R C = OpenOptions R C → OpenOptions R C

module _ {R C : Type 0} where
  unfoldable pub with_source : Source → OpenOptions R C → OpenOptions R C
  with_source s o = record o { source = s }

  unfoldable pub with_path : Bytes → OpenOptions R C → OpenOptions R C
  with_path p o = record o { path = p }

  unfoldable pub with_dsn : Bytes → OpenOptions R C → OpenOptions R C
  with_dsn d o = record o { dsn = d }

  unfoldable pub with_reader : Option R → OpenOptions R C → OpenOptions R C
  with_reader r o = record o { reader = r }

  unfoldable pub with_context : Option C → OpenOptions R C → OpenOptions R C
  with_context c o = record o { ctx = c }

  -- An empty checkpoint source keeps the source that is set.
  unfoldable pub with_checkpoint : Checkpoint → OpenOptions R C → OpenOptions R C
  with_checkpoint c o =
      let o' = if not (same_source c.source no_source) then record o { source = c.source } else o in
      record o' { start_position = c.position }

  abbrev pub zero_options : OpenOptions R C
  zero_options = record {
    source = no_source;
    path = [];
    dsn = [];
    reader = none;
    ctx = none;
    start_position = no_position;
  }

  -- The loop of `newOpenOptions`; a nil option is skipped.
  unfoldable pub apply_options : OpenOptions R C → List (Option (OpenOption R C)) → OpenOptions R C
  apply_options o [] = o
  apply_options o (none ∷ opts) = apply_options o opts
  apply_options o (some f ∷ opts) = apply_options (f o) opts

  unfoldable pub new_open_options : List (Option (OpenOption R C)) → OpenOptions R C
  unfolding apply_options
  new_open_options = apply_options zero_options

  -- The method `Context`, with `background` for `context.Background()`.
  unfoldable pub context : C → OpenOptions R C → C
  context background o = elim o.ctx [ none ↦ background | some c ↦ c ]

  -- `StartPositionOf`; the options are an interface value that has the method `StartPosition`.
  unfoldable pub start_position_of : Option (OpenOptions R C) → Position
  start_position_of none = no_position
  start_position_of (some o) = o.start_position

  unfoldable pub context_of : C → Option (OpenOptions R C) → C
  unfolding context
  context_of background none = background
  context_of background (some o) = context background o
