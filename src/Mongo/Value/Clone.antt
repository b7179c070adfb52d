-- ===== src/Mongo/Value/Clone.antt =====
-- The clones of documents.
use go_dblog.Prelude.{◌≡◌, refl, ap, ◌∙◌, false, none, arith, Bool-cases, inl, inr}
use go_dblog.Prelude.Text.{Bytes, same, same_iff}
use go_dblog.Mongo.Value.{
  Value, null, text, other, array, bson_array, nil_object, object, bson_map, bson_document, Values,
  nil, cons, Fields, end, field, get, put, clone_value, clone_values, clone_fields, clone_map,
}

unfoldable mutual
  unfolding get

  -- The keys of every map are different, and no nil map stands as a value. Values of `bson` are
  -- shared by a clone, not copied.
  pub IsTidy : {F : Type 0} → Value F → Type 0
  IsTidy null = Unit {0}
  IsTidy (text s) = Unit {0}
  IsTidy (other x) = Unit {0}
  IsTidy (array xs) = AreTidy xs
  IsTidy (bson_array xs) = Unit {0}
  IsTidy nil_object = ⊥
  IsTidy (object fields) = HasTidy fields
  IsTidy (bson_map fields) = Unit {0}
  IsTidy (bson_document fields) = Unit {0}

  pub AreTidy : {F : Type 0} → Values F → Type 0
  AreTidy nil = Unit {0}
  AreTidy (cons x xs) = IsTidy x × AreTidy xs

  pub HasTidy : {F : Type 0} → Fields F → Type 0
  HasTidy end = Unit {0}
  HasTidy (field k v fields) = (get k fields ≡ none) × IsTidy v × HasTidy fields

module _ {F : Type 0} where
  abbrev append : Fields F → Fields F → Fields F
  append end fields = fields
  append (field k v out) fields = field k v (append out fields)

  append-end : (a : Fields F) → a ≡ append a end
  append-end end = refl
  append-end (field k v a) = ap (field k v) (append-end a)

  append_assoc : (a b c : Fields F) → append (append a b) c ≡ append a (append b c)
  append_assoc end b c = refl
  append_assoc (field k v a) b c = ap (field k v) (append_assoc a b c)

  -- No key of the one is a key of the other.
  abbrev AreApart : Fields F → Fields F → Type 0
  unfolding get
  AreApart end out = Unit {0}
  AreApart (field k v fields) out = (get k out ≡ none) × AreApart fields out

  AreApart-end : (fields : Fields F) → AreApart fields end
  unfolding get
  AreApart-end end = tt
  AreApart-end (field k v fields) = (refl, AreApart-end fields)

  put-append :
      (k : Bytes) (v : Value F) (out : Fields F)
      → get k out ≡ none
      → put k v out ≡ append out (field k v end)
  unfolding get put
  put-append k v end h = refl
  put-append k v (field j w out) h = elim (Bool-cases (same j k)) [
    | inl e ↦ ground (arith, e)
    | inr e ↦ rw e (ap (field j w) (put-append k v out (ground (arith, e))))
  ]

  get-append :
      (j k : Bytes) (v : Value F) (out : Fields F)
      → get j out ≡ none
      → same k j ≡ false
      → get j (append out (field k v end)) ≡ none
  unfolding get
  get-append j k v end h e = rw e refl
  get-append j k v (field i w out) h e = elim (Bool-cases (same i j)) [
    | inl p ↦ ground (arith, p)
    | inr p ↦ rw p (get-append j k v out (ground (arith, p)) e)
  ]

  AreApart-append :
      (fields out : Fields F) (k : Bytes) (v : Value F)
      → AreApart fields out
      → get k fields ≡ none
      → AreApart fields (append out (field k v end))
  unfolding get
  AreApart-append end out k v a h = tt
  AreApart-append (field j w fields) out k v a h = elim (Bool-cases (same j k)) [
    | inl e ↦ ground (arith, e)
    | inr e ↦ (
      get-append j k v out a.0 (ground (arith, e, same_iff j k, same_iff k j)),
      AreApart-append fields out k v a.1 (ground (arith, e)),
    )
  ]

mutual
  unfolding clone_value IsTidy

  clone_value-eq : {F : Type 0} (v : Value F) → IsTidy v → clone_value v ≡ v
  clone_value-eq null t = refl
  clone_value-eq (text s) t = refl
  clone_value-eq (other x) t = refl
  clone_value-eq (array xs) t = ap array (clone_values-eq xs t)
  clone_value-eq (bson_array xs) t = refl
  clone_value-eq nil_object t = absurd t
  clone_value-eq (object fields) t =
      ap object (clone_fields-append fields end t (AreApart-end fields))
  clone_value-eq (bson_map fields) t = refl
  clone_value-eq (bson_document fields) t = refl

  clone_values-eq : {F : Type 0} (xs : Values F) → AreTidy xs → clone_values xs ≡ xs
  clone_values-eq nil t = refl
  clone_values-eq (cons x xs) t = rw (clone_value-eq x t.0, clone_values-eq xs t.1) refl

  clone_fields-append :
      {F : Type 0} (fields out : Fields F)
      → HasTidy fields
      → AreApart fields out
      → clone_fields out fields ≡ append out fields
  clone_fields-append end out t a = append-end out
  clone_fields-append (field k v fields) out t a =
      rw (clone_value-eq v t.1, put-append k v out a.0)
        (clone_fields-append fields (append out (field k v end)) t.2
            (AreApart-append fields out k v a.1 t.0)
          ∙ append_assoc out (field k v end) fields)

-- A clone of a document is the document, where its keys are different and no nil map stands in it.
pub clone_map-eq : {F : Type 0} (fields : Fields F) → HasTidy fields → clone_map fields ≡ fields
unfolding clone_map
clone_map-eq fields t = clone_fields-append fields end t (AreApart-end fields)
