-- ===== src/Mysql/Compressed/Plain.antt =====
-- The rows of a compressed event against the plain rows event.
use go_dblog.Prelude.{
  ℕ, zero, suc, ◌≡◌, refl, ◌∙◌, sym, Option, none, some, [], ◌∷◌, length, ◌==◌, Bool-cases, inl,
  inr,
}
use go_dblog.Prelude.Result.{ok, err, panic, view, is_ok, is_err, is_panic}
use go_dblog.Prelude.Text.{Bytes}
use go_dblog.Mysql.Bytes.{Decoded}
use go_dblog.Mysql.TableMap.{TableMapEvent}
use go_dblog.Mysql.Rows.Event.{
  BinRowsEvent, is_update_rows_event, next_row, rows_round, and_then, rows_loop,
}
use go_dblog.Mysql.Compressed.{
  update_rows_compressed, CompressedRows, compressed_round, compressed_loop, payload_rows,
}

-- A plain event with the columns and the rows of the compressed one.
abbrev pub with_rows : BinRowsEvent → CompressedRows → BinRowsEvent
with_rows b e = record b {
  column_count = e.column_count;
  columns_bitmap1 = e.columns_bitmap1;
  columns_bitmap2 = e.columns_bitmap2;
  rows = e.rows;
  before_rows = e.before_rows;
  after_rows = e.after_rows;
}

-- The outcome with the plain event.
abbrev pub plain_outcome :
    BinRowsEvent → Option (Decoded CompressedRows) → Option (Decoded BinRowsEvent)
plain_outcome b none = none
plain_outcome b (some (ok e)) = some (ok (with_rows b e))
plain_outcome b (some (err x)) = some (err x)
plain_outcome b (some panic) = some panic

abbrev plain_round :
    BinRowsEvent → Decoded (CompressedRows × Bytes) → Decoded (BinRowsEvent × Bytes)
plain_round b (ok (e, s)) = ok (with_rows b e, s)
plain_round b (err x) = err x
plain_round b panic = panic

module _ (typ plain_typ : ℕ) (table : TableMapEvent)
    (same : (typ == update_rows_compressed) ≡ is_update_rows_event plain_typ) where
  round-plain :
      (b : BinRowsEvent) (e : CompressedRows) (s : Bytes)
      → rows_round plain_typ table (with_rows b e) s
        ≡ plain_round b (compressed_round typ table e s)
  unfolding rows_round compressed_round
  round-plain b e s = elim (view (next_row s table e.column_count e.columns_bitmap1)) [
    | is_panic h ↦ rw h refl
    | is_err x h ↦ rw h refl
    | is_ok r h ↦ elim (Bool-cases (typ == update_rows_compressed)) [
      | inr u ↦ rw (h, u, sym same ∙ u) refl
      | inl u ↦ elim (view (next_row r.1 table e.column_count e.columns_bitmap2)) [
        | is_panic h' ↦ rw (h, u, sym same ∙ u, h') refl
        | is_err x h' ↦ rw (h, u, sym same ∙ u, h') refl
        | is_ok r' h' ↦ rw (h, u, sym same ∙ u, h') refl
      ]
    ]
  ]

  loop-step :
      (b : BinRowsEvent) (r : Decoded (CompressedRows × Bytes))
      (next : CompressedRows × Bytes → Option (Decoded CompressedRows))
      (next' : BinRowsEvent × Bytes → Option (Decoded BinRowsEvent))
      → ((e : CompressedRows) (s : Bytes)
          → next' (with_rows b e, s) ≡ plain_outcome b (next (e, s)))
      → and_then (plain_round b r) next' ≡ plain_outcome b (and_then r next)
  unfolding and_then
  loop-step b panic next next' h = refl
  loop-step b (err x) next next' h = refl
  loop-step b (ok (e, s)) next next' h = h e s

  loop-plain :
      (fuel : ℕ) (b : BinRowsEvent) (e : CompressedRows) (s : Bytes)
      → rows_loop fuel plain_typ table (with_rows b e) s
        ≡ plain_outcome b (compressed_loop fuel typ table e s)
  unfolding rows_loop compressed_loop
  loop-plain zero b e [] = refl
  loop-plain (suc fuel) b e [] = refl
  loop-plain zero b e (c ∷ s) = refl
  loop-plain (suc fuel) b e (c ∷ s) = rw (round-plain b e (c ∷ s)) (
      loop-step b (compressed_round typ table e (c ∷ s))
        (λ r. compressed_loop fuel typ table r.0 r.1) (λ r. rows_loop fuel plain_typ table r.0 r.1)
        (λ e' s'. loop-plain fuel b e' s'))

  -- The rows that a compressed event of MariaDB has in its payload, for a table that is known, are
  -- those that the loop of the plain rows event reads in the payload, errors and panics included,
  -- where both or neither of the types are updates.
  pub payload_rows-plain :
      (b : BinRowsEvent) (e : CompressedRows) (payload : Bytes)
      → plain_outcome b (payload_rows typ e payload (some table))
        ≡ rows_loop (length payload) plain_typ table (with_rows b e) payload
  unfolding payload_rows
  payload_rows-plain b e payload =
      sym (loop-plain (length payload) b (record e { uncompressed_payload = payload }) payload)
