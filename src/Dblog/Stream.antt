-- ===== src/Dblog/Stream.antt =====
-- dblog.go: event iterators and their adapters. A `iter.Seq2` is a function of the loop body
-- `yield`, which takes the consumer's state and says whether the loop goes on; `S` is the type of
-- that state. A nil event is `none`. Predicates, `Body` and `Reverse` are functions of the event.
pub mod Spec
pub mod Laws
use go_dblog.Prelude.{
  Bool, true, false, ◌&&◌, not, Option, none, some, List, [], ◌∷◌, if◌then◌else◌,
}
use go_dblog.Prelude.Text.{Bytes, same}
use go_dblog.Dblog.Types.{Event, Checkpoint, checkpoint_of, no_checkpoint}

-- `func(yield func(A, error) bool)`; `X` is the type of errors.
abbrev pub Seq : Type 0 → Type 0 → Type 0 → Type 0
Seq S A X = (S → A × Option X → S × Bool) → S → S

-- A producer that holds the items `is`, and stops when `yield` says so.
unfoldable pub of_list : {S A X : Type 0} → List (A × Option X) → Seq S A X
of_list [] yield s = s
of_list (i ∷ is) yield s =
    let rest = of_list is yield (yield s i).0 in if (yield s i).1 then rest else (yield s i).0

-- What one round of an adapter's loop does: `continue`, `yield` and go on if the consumer does,
-- or `yield` and `return`.
pub data Round (J : Type 0) : Type 0 where
  skip : Round J
  emit : J → Round J
  last : J → Round J

unfoldable pub take_round : {S J : Type 0} → (S → J → S × Bool) → S → Round J → S × Bool
take_round yield s skip = (s, true)
take_round yield s (emit j) = yield s j
take_round yield s (last j) = ((yield s j).0, false)

-- `for event, err := range seq { … }`
unfoldable pub adapt :
    {S A B X Y : Type 0} → (A × Option X → Round (B × Option Y)) → Seq S A X → Seq S B Y
unfolding take_round
adapt round seq yield = seq (λ s item. take_round yield s (round item))

-- `Predicate`; nil predicates are `none` in the lists below.
abbrev pub Predicate : Type 0 → Type 0 → Type 0
Predicate B O = Option (Event B O) → Bool

module _ {B O : Type 0} where
  -- The driver tests; a nil event matches nothing.
  unfoldable pub by_driver : Bytes → Option (Event B O) → Bool
  by_driver driver none = false
  by_driver driver (some e) = same e.source_driver driver

  unfoldable pub by_source : Bytes → Bytes → Option (Event B O) → Bool
  by_source driver name none = false
  by_source driver name (some e) = same e.source_driver driver && same e.source_name name

  unfoldable pub by_kind : Bytes → Option (Event B O) → Bool
  by_kind kind none = false
  by_kind kind (some e) = same e.kind kind

  -- `match`; a nil predicate is passed over.
  unfoldable pub matches : Option (Event B O) → List (Option (Predicate B O)) → Bool
  matches e [] = true
  matches e (none ∷ ps) = matches e ps
  matches e (some p ∷ ps) = if not (p e) then false else matches e ps

  -- `reverseOperation`, with the `ok` of the pair as `some`.
  unfoldable pub reverse_operation : Option (Event B O) → Option O
  reverse_operation none = none
  reverse_operation (some e) = elim e.reverse [ none ↦ none | some op ↦ op ]

pub record RecoveryStep (O : Type 0) : Type 0 where
  pub checkpoint : Checkpoint
  pub operation : Option O

module _ {B O X : Type 0} where
  filter_round :
      List (Option (Predicate B O))
      → Option (Event B O) × Option X
      → Round (Option (Event B O) × Option X)
  filter_round ps (e, some x) = last (none, some x)
  filter_round ps (none, none) = skip
  filter_round ps (some e, none) = if not (matches (some e) ps) then skip else emit (some e, none)

  -- `Filter`
  unfoldable pub filter_events :
      {S : Type 0}
      → List (Option (Predicate B O))
      → Seq S (Option (Event B O)) X
      → Seq S (Option (Event B O)) X
  unfolding filter_round
  filter_events ps = adapt (filter_round ps)

  bodies_round :
      {T : Type 0} → T → (B → Option T) → Option (Event B O) × Option X → Round (T × Option X)
  bodies_round zero as_body (e, some x) = last (zero, some x)
  bodies_round zero as_body (none, none) = skip
  bodies_round zero as_body (some e, none) = elim (as_body e.body) [
    | none ↦ skip
    | some body ↦ emit (body, none)
  ]

  -- `Bodies[T]`, with `zero` the zero value of `T` and `as_body` the type assertion `.(T)`.
  unfoldable pub bodies :
      {S T : Type 0} → T → (B → Option T) → Seq S (Option (Event B O)) X → Seq S T X
  unfolding bodies_round
  bodies zero as_body = adapt (bodies_round zero as_body)

  flashbacks_round : Option (Event B O) × Option X → Round (Option O × Option X)
  flashbacks_round (e, some x) = last (none, some x)
  flashbacks_round (e, none) = elim (reverse_operation e) [
    | none ↦ skip
    | some op ↦ emit (some op, none)
  ]

  -- `Flashbacks`
  unfoldable pub flashbacks : {S : Type 0} → Seq S (Option (Event B O)) X → Seq S (Option O) X
  unfolding flashbacks_round
  flashbacks = adapt flashbacks_round

  recovery_round : Option (Event B O) × Option X → Round (RecoveryStep O × Option X)
  recovery_round (e, some x) =
      last (record { checkpoint = no_checkpoint; operation = none }, some x)
  recovery_round (e, none) = elim (reverse_operation e) [
    | none ↦ skip
    | some op ↦ emit (record { checkpoint = checkpoint_of e; operation = some op }, none)
  ]

  -- `RecoveryPlan`
  unfoldable pub recovery_plan :
      {S : Type 0} → Seq S (Option (Event B O)) X → Seq S (RecoveryStep O) X
  unfolding recovery_round
  recovery_plan = adapt recovery_round

  events_round : Option (Event B O) × Option X → Round (Option (Event B O) × Option X)
  events_round (e, some x) = last (e, some x)
  events_round (e, none) = emit (e, none)

  -- `Events`, over a decoder that may be nil.
  unfoldable pub events :
      {S : Type 0} → Option (Seq S (Option (Event B O)) X) → Seq S (Option (Event B O)) X
  unfolding events_round
  events none yield s = s
  events (some seq) yield s = adapt events_round seq yield s

-- `SeqDecoder`: an iterator and a close function, either of which may be nil.
pub record SeqDecoder (S A X : Type 0) : Type 0 where
  pub seq : Option (Seq S A X)
  pub close_fn : Option (Option X)

module _ {S A X : Type 0} where
  unfoldable pub new_seq_decoder : Option (Seq S A X) → Option (Option X) → SeqDecoder S A X
  new_seq_decoder seq close = record { seq = seq; close_fn = close }

  unfoldable pub decoder_events : Option (SeqDecoder S A X) → Seq S A X
  decoder_events none yield s = s
  decoder_events (some d) yield s = elim d.seq [ none ↦ s | some seq ↦ seq yield s ]

  -- `SeqDecoder.Close`: the error that comes back.
  unfoldable pub decoder_close : Option (SeqDecoder S A X) → Option X
  decoder_close none = none
  decoder_close (some d) = elim d.close_fn [ none ↦ none | some error ↦ error ]
