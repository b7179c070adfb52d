-- ===== src/Mysql/Backend/Checkpoints.antt =====
-- Checkpoints of binlog events, read back.
use go_dblog.Prelude.{
  ℕ, ◌^◌, ◌<◌, ◌≡◌, refl, false, Option, none, some, [], ◌∷◌, ◌++◌, All, arith, if◌then◌else◌,
}
use go_dblog.Prelude.Int.{pos}
use go_dblog.Prelude.Result.{ok}
use go_dblog.Prelude.Text.{Bytes, is_empty, same}
use go_dblog.Prelude.Decimal.{itoa, atoi-itoa, itoa_head, itoa-All_below}
use go_dblog.Dblog.Types.{Position, position_of}
use go_dblog.Mysql.Event as E
use go_dblog.Mysql.Rows.Event.{BinRowsEvent}
use go_dblog.Mysql.Backend.{last_cut, parse_position, start_position, start_file}

last_cut-none : (t : Bytes) → All (λ c. c < 58) t → last_cut t ≡ none
unfolding last_cut
last_cut-none [] h = refl
last_cut-none (c ∷ t) (lt, h) = rw (last_cut-none t h) (ground (arith, lt))

last_cut-some :
    (name t : Bytes) → All (λ c. c < 58) t → last_cut (name ++ b':' ∷ t) ≡ some (name, t)
unfolding last_cut
last_cut-some [] t h = rw (last_cut-none t h) refl
last_cut-some (c ∷ name) t h = rw (last_cut-some name t h) refl

-- How a position string is cut, and read.
cut_string :
    (file : Bytes) (n : ℕ)
    → last_cut (E.position_string (record { file = file; pos = n }))
      ≡ (if is_empty file then none else some (file, itoa n))
unfolding E.position_string
cut_string [] n = last_cut-none (itoa n) (itoa-All_below n)
cut_string (c ∷ file) n = last_cut-some (c ∷ file) (itoa n) (itoa-All_below n)

pub parse_position-string :
    (file : Bytes) (n : ℕ)
    → n < 2 ^ 63
    → parse_position (E.position_string (record { file = file; pos = n })) ≡ some (pos n)
unfolding parse_position E.position_string
parse_position-string [] n h = rw (cut_string [] n, parse_position) (atoi-itoa n h)
parse_position-string (c ∷ file) n h = rw (cut_string (c ∷ file) n, parse_position) (atoi-itoa n h)

full_string :
    (file : Bytes) (n : ℕ) → is_empty (E.position_string (record { file = file; pos = n })) ≡ false
unfolding E.position_string
full_string [] n = let (d, cs, e, lo, hi) = itoa_head n in rw e refl
full_string (c ∷ file) n = refl

-- A position as the checkpoint of an event in the file has it.
abbrev at : Bytes → ℕ → Position
at file n = record {
  driver = E.driver;
  value = E.position_string (record { file = file; pos = n });
}

start_file-at : (file : Bytes) (n : ℕ) → start_file (at file n) ≡ file
unfolding start_file
start_file-at [] n = rw (cut_string [] n, start_file) refl
start_file-at (c ∷ file) n = rw (cut_string (c ∷ file) n, start_file) refl

start_position-at : (file : Bytes) (n : ℕ) → n < 2 ^ 63 → start_position (at file n) ≡ ok n
unfolding start_position same
start_position-at file n h =
    rw (full_string file n, parse_position-string file n h, start_position) refl

-- The backend reads the checkpoint of a binlog event back as the event's log position and the name
-- of its source, whatever the name is, where the position is within int64.
pub start_position-checkpoint :
    {B : Type 0} (encode : B → Bytes) (rows_of : B → Option BinRowsEvent)
    (rows_body : BinRowsEvent → B) (e : E.DblogEvent B)
    → (E.position e).pos < 2 ^ 63
    → (start_position (position_of (some (E.as_event encode rows_of rows_body e)))
        ≡ ok (E.position e).pos)
      × (start_file (position_of (some (E.as_event encode rows_of rows_body e))) ≡ e.source.name)
unfolding E.as_event E.position position_of
start_position-checkpoint encode rows_of rows_body e h = (
  start_position-at (E.position e).file (E.position e).pos h,
  start_file-at (E.position e).file (E.position e).pos,
)
