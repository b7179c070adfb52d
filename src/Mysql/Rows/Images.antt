-- ===== src/Mysql/Rows/Images.antt =====
-- Which of its lists of rows an event of each type has, and what this means for its compensation.
use go_dblog.Prelude.{
  ℕ, zero, suc, ◌+◌, ◌%◌, ◌≡◌, ◌≢◌, refl, ap, ◌∙◌, sym, Bool, true, false, not, ◌||◌, Option, none,
  some, List, [], ◌∷◌, ◌++◌, length, length-append, drop, ltb, ◌==◌, arith, if◌then◌else◌,
  Bool-cases, inl, inr,
}
use mathlib.Core.Path.{subst}
use go_dblog.Prelude.Result.{ok, err, panic}
use go_dblog.Prelude.Text.{Bytes}
use go_dblog.Mysql.Bytes.{Decoded, from, slice, uint}
use go_dblog.Mysql.Bytes.Post.{Yields, Yields-bind, Yields-ok}
use go_dblog.Mysql.Util.{length_encoded_int}
use go_dblog.Mysql.Column as C
use go_dblog.Mysql.TableMap.{TableMapEvent, Tables, table_id_length}
use go_dblog.Mysql.Rows.Event.{
  Row, BinRowsEvent, is_update_rows_event, rows_version, need_bytes, rows_extra, columns_bitmap,
  bitmap_size_of, decode_rows_head, next_row, rows_round, rows_loop, rows_of, table_at, and_then,
  decode_rows_event, decode_rows,
}
use go_dblog.Mysql.Rows.Reverse.{opposite_type, is_update_type, reverse, reverse_as, reverse_update}
use go_dblog.Mysql.Rows.Undo.{HoldsRows, reverse_inv, unless_some, when_option}

-- Pairs of images for the update types that the decoder knows, rows for the others.
pub data Images (typ : ℕ) (e : BinRowsEvent) : Type 0 where
  pairs :
      is_update_rows_event typ ≡ true
      → e.rows ≡ []
      → length e.before_rows ≡ length e.after_rows
      → Images typ e
  singles : is_update_rows_event typ ≡ false → e.before_rows ≡ [] → e.after_rows ≡ [] → Images typ e

no-Images :
    (typ : ℕ) (e : BinRowsEvent)
    → e.rows ≡ []
    → e.before_rows ≡ []
    → e.after_rows ≡ []
    → Images typ e
no-Images typ e x y z = elim (Bool-cases (is_update_rows_event typ)) [
  | inl b ↦ pairs b x (ap length y ∙ sym (ap length z))
  | inr b ↦ singles b y z
]

head-Images :
    (h s : Bytes) (typ : ℕ)
    → Yields (λ (r : BinRowsEvent × ℕ). Images typ r.0) (decode_rows_head h s typ)
unfolding decode_rows_head
head-Images h s typ = Yields-bind (table_id_length h ((typ + 255) % 256)) λ id_len _.
    Yields-bind (need_bytes s (id_len + 2)) λ _ _. Yields-bind (slice s 0 id_len) λ id _.
      Yields-bind (uint 2 s id_len) λ flags _.
        Yields-bind (rows_extra (rows_version typ) s (id_len + 2)) λ extra _.
          Yields-bind (need_bytes s (extra.1 + 1)) λ _ _. Yields-bind (from s extra.1) λ rest _.
            Yields-bind (length_encoded_int rest) λ count _.
              Yields-bind (columns_bitmap s (extra.1 + count.2) (bitmap_size_of count.0))
                λ present _.
                  Yields-bind
                    (if is_update_rows_event typ
                      then columns_bitmap s present.1 (bitmap_size_of count.0)
                      else ok ([], present.1))
                    λ images _. Yields-ok _ (no-Images typ _ refl refl refl)

round-Images :
    (typ : ℕ) (t : TableMapEvent) (e : BinRowsEvent) (s : Bytes)
    → Images typ e
    → Yields (λ (r : BinRowsEvent × Bytes). Images typ r.0) (rows_round typ t e s)
unfolding rows_round
round-Images typ t e s (pairs b x y) =
    Yields-bind (next_row s t e.column_count e.columns_bitmap1) λ r _. rw b (
      Yields-bind (next_row r.1 t e.column_count e.columns_bitmap2)
        λ q _. Yields-ok _ (pairs b x (grow e.before_rows e.after_rows r.0 q.0 y)))
  where
    grow :
        (xs ys : List Row) (x y : Row)
        → length xs ≡ length ys
        → length (xs ++ (x ∷ [])) ≡ length (ys ++ (y ∷ []))
    grow xs ys x y h = ground (arith, h, length-append xs (x ∷ []), length-append ys (y ∷ []))
round-Images typ t e s (singles b y z) =
    Yields-bind (next_row s t e.column_count e.columns_bitmap1)
      λ r _. rw b (Yields-ok _ (singles b y z))

and_then-holds :
    {A B : Type 0} (Q : B → Type 0) (m : Decoded A) (next : A → Option (Decoded B)) {b : B}
    → ((a : A) → m ≡ ok a → next a ≡ some (ok b) → Q b)
    → and_then m next ≡ some (ok b)
    → Q b
unfolding and_then
and_then-holds Q (ok a) next h e = h a refl e
and_then-holds Q (err w) next h e = absurd cc
and_then-holds Q panic next h e = absurd cc

ok_eq : {A : Type 0} {a b : A} → ◌≡◌ {A = Option (Decoded A)} (some (ok a)) (some (ok b)) → a ≡ b
ok_eq e = cc

loop-Images :
    (fuel typ : ℕ) (t : TableMapEvent) (e : BinRowsEvent) (s : Bytes) {e' : BinRowsEvent}
    → Images typ e
    → rows_loop fuel typ t e s ≡ some (ok e')
    → Images typ e'
unfolding rows_loop
loop-Images fuel typ t e [] i h = subst (Images typ) (ok_eq h) i
loop-Images zero typ t e (b ∷ s) i h = absurd cc
loop-Images (suc fuel) typ t e (b ∷ s) i h =
    and_then-holds (Images typ) (rows_round typ t e (b ∷ s)) _
      (λ r e1 h1. loop-Images fuel typ t r.0 r.1 ((round-Images typ t e (b ∷ s) i).value r e1) h1) h

named-Images :
    (typ : ℕ) (e : BinRowsEvent) (x y : Bytes) (u : Option ℕ)
    → Images typ e
    → Images typ (record e { schema = x; table = y; unknown_table = u })
named-Images typ e x y u (pairs b p q) = pairs b p q
named-Images typ e x y u (singles b p q) = singles b p q

unless_ok :
    {A : Type 0} (b : Bool) {w : Decoded A} {m : Option (Decoded A)} {a : A}
    → (b ≡ true → w ≢ ok a)
    → (if b then some w else m) ≡ some (ok a)
    → m ≡ some (ok a)
unless_ok true k e = absurd (k refl cc)
unless_ok false k e = e

rows_of-Images :
    (typ : ℕ) (s : Bytes) (e : BinRowsEvent) (p : ℕ) (t : Option TableMapEvent) {e' : BinRowsEvent}
    → Images typ e
    → rows_of typ s e p t ≡ some (ok e')
    → Images typ e'
unfolding rows_of
rows_of-Images typ s e p none i h =
    subst (Images typ) (ok_eq h) (named-Images typ e e.schema e.table (some e.table_id) i)
rows_of-Images typ s e p (some t) i h =
    loop-Images (length s) typ t (record e { schema = t.schema; table = t.table }) (drop p s)
      (named-Images typ e t.schema t.table e.unknown_table i)
      (unless_ok (ltb t.column_count e.column_count) (λ _ k. cc) h)

pub decode_rows-Images :
    (h : Option Bytes) (tables : Option Tables) (typ : ℕ) (s : Bytes) {e : BinRowsEvent}
    → decode_rows h tables typ s ≡ some (ok e)
    → Images typ e
unfolding decode_rows decode_rows_event
decode_rows-Images none tables typ s k = absurd cc
decode_rows-Images (some h) tables typ s {e} k =
    and_then-holds (Images typ) (decode_rows_head h s typ) _
      (λ head e1 k1.
        rows_of-Images typ s head.0 head.1 (table_at tables head.0.table_id)
          ((head-Images h s typ).value head e1) k1)
      (unless_ok (typ == 0) (λ _ k. cc) k)

-- A type that `Reverse` takes as an update, and the decoder does not, is UPDATE_ROWS_EVENTv0.
update_v0 :
    (typ : ℕ)
    → is_update_type typ ≡ true
    → is_update_rows_event typ ≡ false
    → typ ≡ C.update_rows_v0
unfolding is_update_type is_update_rows_event
update_v0 typ h k = ground (arith, h, k)

no_before :
    (e : BinRowsEvent) (typ : ℕ) {r : BinRowsEvent × ℕ}
    → e.before_rows ≡ []
    → reverse_update e typ ≢ some r
unfolding reverse_update
no_before e typ b h =
    let bs = e.before_rows in
    let (long, _) = unless_some (length bs == 0 || not (length bs == length e.after_rows)) h in
    empty (length bs) (ap length b) (not (length bs == length e.after_rows)) long
  where
    empty : (n : ℕ) → n ≡ 0 → (q : Bool) → (n == 0 || q) ≡ false → ⊥
    empty n e q h = ground (arith, e, h)

none_of : {A : Type 0} (o : Option A) → ((a : A) → o ≢ some a) → o ≡ none
none_of none h = refl
none_of (some a) h = absurd (h a refl)

pair_type : (typ : ℕ) → is_update_rows_event typ ≡ true → opposite_type typ ≡ none
unfolding is_update_rows_event opposite_type
pair_type typ b = ground (arith, b)

old_type : (typ : ℕ) → typ ≡ C.update_rows_v0 → opposite_type typ ≡ none
unfolding opposite_type
old_type typ o = ground (arith, o)

old-Images : (e : BinRowsEvent) → Images C.update_rows_v0 e → e.before_rows ≡ []
unfolding is_update_rows_event
old-Images e (pairs b x y) = absurd cc
old-Images e (singles b x y) = x

old_update :
    (e : BinRowsEvent) (typ : ℕ) {r : BinRowsEvent × ℕ}
    → typ ≡ C.update_rows_v0
    → e.before_rows ≡ []
    → reverse e typ ≢ some r
unfolding reverse_as
old_update e typ o b h =
    let (_, k) = reverse_inv e typ h in
    let (_, l) =
      when_option (is_update_type typ) (sym (ap (reverse_as e typ) (old_type typ o)) ∙ k) in
    no_before e typ b l

-- The cases of `Reverse` in which there is an event, on what the decoder returns.
pub reverse-HoldsRows :
    (typ : ℕ) (e : BinRowsEvent) {r : BinRowsEvent × ℕ}
    → Images typ e
    → reverse e typ ≡ some r
    → HoldsRows typ e
unfolding HoldsRows reverse_as
reverse-HoldsRows typ e (pairs b x y) h =
    let (_, k) = reverse_inv e typ h in
    let (i, _) =
      when_option (is_update_type typ) (sym (ap (reverse_as e typ) (pair_type typ b)) ∙ k) in
    (λ _. x, λ j. absurd (clash i j))
  where
    clash : {b : Bool} → b ≡ true → b ≡ false → ⊥
    clash i j = cc
reverse-HoldsRows typ e (singles b x y) h =
    (λ i. absurd (old_update e typ (update_v0 typ i b) x h), λ _. (x, y))

-- What the decoder returns for UPDATE_ROWS_EVENTv0 is never compensated, though `Reverse` has a case
-- for it: the decoder does not take it as an update, and reads rows without images.
pub decode_rows-reverse_v0 :
    (h : Option Bytes) (tables : Option Tables) (s : Bytes) {e : BinRowsEvent}
    → decode_rows h tables C.update_rows_v0 s ≡ some (ok e)
    → reverse e C.update_rows_v0 ≡ none
decode_rows-reverse_v0 h tables s {e} k = none_of (reverse e C.update_rows_v0) λ r h1.
    old_update e C.update_rows_v0 refl
      (old-Images e (decode_rows-Images h tables C.update_rows_v0 s k)) h1
