-- ===== src/Mysql/TableMap/Shape.antt =====
-- What the decoder of a table map guarantees of the tables it stores.
use go_dblog.Prelude.{
  ℕ, ◌+◌, ◌≡◌, ◌≢◌, refl, ap, ◌∙◌, sym, Option, some, List, false, [], ◌∷◌, length, length-take,
  length-drop, drop, arith, ◌==◌, Bool-cases, inl, inr, ==_refl, ==_iff,
}
use mathlib.Core.Path.{subst}
use go_dblog.Prelude.Result.{ok, >>=-eq-ok}
use go_dblog.Prelude.Text.{Bytes}
use go_dblog.Mysql.Bytes.{from, slice, uint}
use go_dblog.Mysql.Bytes.Post.{Yields, Yields-bind, Yields-ok}
use go_dblog.Mysql.Util.{length_encoded_int, length_encoded_string}
use go_dblog.Mysql.TableMap.{
  TableMapEvent, Tables, table_id_length, read_name, read_bitmap, column_meta, decode_meta,
  decode_table_map, put_table, table_map_decode,
}

-- One type and one number of metadata for each column.
pub record IsTable (t : TableMapEvent) : Type 0 where
  pub types : length t.column_type_def ≡ t.column_count
  pub metas : length t.column_meta_def ≡ t.column_count

length-slice : (s : Bytes) (i n : ℕ) {t : Bytes} → slice s i n ≡ ok t → length t ≡ n
unfolding slice
length-slice s i n {t} e = ground (arith, length-take n (drop i s), length-drop i s)

length-decode_meta :
    (ts s : Bytes) (pos : ℕ) {ms : List ℕ} → decode_meta ts s pos ≡ ok ms → length ms ≡ length ts
unfolding decode_meta
length-decode_meta [] s pos e = ground arith
length-decode_meta (t ∷ ts) s pos {ms} e =
    let (r, _, e1) = >>=-eq-ok (column_meta t s pos) _ e in
    let (rest, e2, e3) = >>=-eq-ok (decode_meta ts s r.1) _ e1 in
    ground (arith, e3, length-decode_meta ts s r.1 e2)

decode_table_map-Yields : (h s : Bytes) → Yields IsTable (decode_table_map h s)
unfolding decode_table_map
decode_table_map-Yields h s = Yields-bind (table_id_length h 18) λ id_len _.
    Yields-bind (slice s 0 id_len) λ id _. Yields-bind (uint 2 s id_len) λ flags _.
      Yields-bind (read_name s (id_len + 2)) λ schema _.
        Yields-bind (read_name s schema.1) λ table _. Yields-bind (from s table.1) λ rest _.
          Yields-bind (length_encoded_int rest) λ count _.
            Yields-bind (slice s (table.1 + count.2) count.0) λ types e1.
              Yields-bind (from s (table.1 + count.2 + count.0)) λ rest' _.
                Yields-bind (length_encoded_string rest') λ meta _.
                  Yields-bind (decode_meta types meta.0 0) λ metas e2.
                    Yields-bind (read_bitmap s (table.1 + count.2 + count.0 + meta.2) count.0)
                      λ tail _. Yields-ok _ (record {
                        types = length-slice s (table.1 + count.2) count.0 e1;
                        metas =
                            length-decode_meta types meta.0 0 e2
                            ∙ length-slice s (table.1 + count.2) count.0 e1;
                      })

-- A table that the decoder of TABLE_MAP events returns has a type and metadata for each of its
-- columns, and no more.
pub decode_table_map-IsTable :
    (h s : Bytes) {t : TableMapEvent} → decode_table_map h s ≡ ok t → IsTable t
decode_table_map-IsTable h s e = (decode_table_map-Yields h s).value _ e

-- Every table of the map has that form.
unfoldable pub Known : Tables → Type 0
Known tables = (id : ℕ) (t : TableMapEvent) → tables id ≡ some t → IsTable t

put_table_at : (tables : Tables) (t : TableMapEvent) → put_table tables t t.table_id ≡ some t
unfolding put_table
put_table_at tables t = rw (==_refl t.table_id) refl

put_table_else :
    (tables : Tables) (t : TableMapEvent) (id : ℕ)
    → id ≢ t.table_id
    → put_table tables t id ≡ tables id
unfolding put_table
put_table_else tables t id h = elim (Bool-cases (id == t.table_id)) [
  | inl same ↦ absurd (h ((==_iff id t.table_id).0 same))
  | inr other ↦ rw other refl
]

put_table-Known :
    (tables : Tables) (t : TableMapEvent) → Known tables → IsTable t → Known (put_table tables t)
unfolding Known
put_table-Known tables t k h id t' e = elim (Bool-cases (id == t.table_id)) [
  | inl same ↦
      let here : put_table tables t t.table_id ≡ put_table tables t id =
        ap (put_table tables t) (sym ((==_iff id t.table_id).0 same)) in
      let shown : t ≡ t' = unwrap (sym (put_table_at tables t) ∙ here ∙ e) in subst IsTable shown h
  | inr other ↦ k id t' (sym (put_table_else tables t id (apart other)) ∙ e)
]
  where
    unwrap : {a b : TableMapEvent} → some a ≡ some b → a ≡ b
    unwrap e = cc

    apart : {a b : ℕ} → (a == b) ≡ false → a ≢ b
    apart {a} {b} h e = ground (arith, h, (==_iff a b).1 e)

table_map_decode_eq :
    (h s : Bytes) (tables : Tables) {t : TableMapEvent} {after : Option Tables}
    → table_map_decode h s (some tables) ≡ ok (t, after)
    → (decode_table_map h s ≡ ok t) × (after ≡ some (put_table tables t))
unfolding table_map_decode
table_map_decode_eq h s tables {t} {after} e =
    let (event, e1, e2) = >>=-eq-ok (decode_table_map h s) _ e in
    let same : event ≡ t = cc in (cc, cc)

-- The decoder of TABLE_MAP events keeps a map in which every table has a type and metadata for each
-- column in that form, stores the table under its id, and leaves what other ids have.
pub table_map_decode-Known :
    (h s : Bytes) (tables : Tables) {t : TableMapEvent} {after : Option Tables}
    → Known tables
    → table_map_decode h s (some tables) ≡ ok (t, after)
    → (now : Tables) × (after ≡ some now)
      × Known now
      × (now t.table_id ≡ some t)
      × ((id : ℕ) → id ≢ t.table_id → now id ≡ tables id)
table_map_decode-Known h s tables {t} {after} k e =
    let (e1, e2) = table_map_decode_eq h s tables e in
    let shaped : IsTable t = decode_table_map-IsTable h s e1 in
    (
      put_table tables t,
      e2,
      put_table-Known tables t k shaped,
      put_table_at tables t,
      put_table_else tables t,
    )
