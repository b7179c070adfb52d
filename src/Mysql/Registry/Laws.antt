-- ===== src/Mysql/Registry/Laws.antt =====
-- What a registration does to the registry.
use go_dblog.Prelude.{
  ℕ, ◌≡◌, refl, sym, ap, ◌∙◌, Bool, true, false, Option, none, some, List, [], ◌∷◌, ◌==◌,
  if◌then◌else◌, ◌||◌, inl, inr, ◌⊎◌, Option-cases, Bool-cases, arith,
}
use mathlib.Core.Path.{subst}
use go_dblog.Mysql.Registry.{
  EventRegistry, RegistryError, invalid_event_decoder, event_type_registered, first_taken,
  put_types, register_types, register_decoder,
}

-- One of the types.
abbrev pub member : ℕ → List ℕ → Bool
member t [] = false
member t (u ∷ us) = t == u || member t us

put_types_at :
    {D : Type 0} (d : D) (ts : List ℕ) (r : EventRegistry D) (t : ℕ)
    → (put_types d ts r).decoders t ≡ (if member t ts then some d else r.decoders t)
unfolding put_types
put_types_at d [] r t = refl
put_types_at d (u ∷ us) r t = put_types_at d us _ t ∙ merge (t == u) (member t us)
  where
    merge :
        (a b : Bool)
        → (if b then some d else (if a then some d else r.decoders t))
          ≡ (if a || b then some d else r.decoders t)
    merge true true = refl
    merge true false = refl
    merge false true = refl
    merge false false = refl

no_error :
    {D : Type 0} (d : D) (ts : List ℕ) (r : EventRegistry D) (o : Option ℕ)
    → (register_types d ts r o).1 ≡ none
    → (register_types d ts r o).0 ≡ put_types d ts r
unfolding register_types
no_error d ts r none h = refl
no_error d ts r (some t) h = absurd cc

-- A `Register` without an error gives each of the decoder's event types to the decoder, and leaves
-- every other event type as it was.
pub register_decoder_effect :
    {D : Type 0} (types_of : D → List ℕ) (d : D) (r : EventRegistry D) (t : ℕ)
    → (register_decoder types_of (some d) r).1 ≡ none
    → (register_decoder types_of (some d) r).0.decoders t
      ≡ (if member t (types_of d) then some d else r.decoders t)
unfolding register_decoder
register_decoder_effect types_of d r t h =
    ap (λ (q : EventRegistry _). q.decoders t)
      (no_error d (types_of d) r (first_taken r.decoders (types_of d)) h)
    ∙ put_types_at d (types_of d) r t

-- Every decoder stands only under event types of its own.
unfoldable pub Owned : {D : Type 0} → (D → List ℕ) → EventRegistry D → Type 0
Owned {D} types_of r = (t : ℕ) (d : D) → r.decoders t ≡ some d → member t (types_of d) ≡ true

put_types-Owned :
    {D : Type 0} (types_of : D → List ℕ) (d : D) (r : EventRegistry D)
    → Owned types_of r
    → Owned types_of (put_types d (types_of d) r)
unfolding Owned
put_types-Owned {D} types_of d r h t d' e =
    split (member t (types_of d)) refl (sym (put_types_at d (types_of d) r t) ∙ e)
  where
    split :
        (b : Bool)
        → member t (types_of d) ≡ b
        → (if b then some d else r.decoders t) ≡ some d'
        → member t (types_of d') ≡ true
    split true m k = subst (λ (x : D). member t (types_of x) ≡ true) (unwrap k) m
      where
        unwrap : {a b : D} → some a ≡ some b → a ≡ b
        unwrap e = cc
    split false m k = h t d' k

-- Every decoder of the first registry stands in the second where it stood.
unfoldable pub Keeps : {D : Type 0} → EventRegistry D → EventRegistry D → Type 0
Keeps {D} r r' = (t : ℕ) (d : D) → r.decoders t ≡ some d → r'.decoders t ≡ some d

-- The registry has the decoder under each of the types.
unfoldable pub Gives : {D : Type 0} → List ℕ → D → EventRegistry D → Type 0
Gives ts d r = (t : ℕ) → member t ts ≡ true → r.decoders t ≡ some d

-- One of the types has a decoder, and the error names it.
unfoldable pub Taken : {D : Type 0} → List ℕ → EventRegistry D → Option RegistryError → Type 0
Taken {D} ts r e =
    (t : ℕ) × (d : D) × (member t ts ≡ true)
    × (r.decoders t ≡ some d)
    × (e ≡ some (event_type_registered t))

-- How a registration ends: with the decoder under its types, none of which had one, or with an error
-- and the registry as it was.
pub data Ends {D : Type 0} (types_of : D → List ℕ) (r r' : EventRegistry D)
    : Option D → Option RegistryError → Type 0 where
  nil_decoder : r' ≡ r → Ends types_of r r' none (some invalid_event_decoder)
  taken :
      {d : D} {e : Option RegistryError}
      → Taken (types_of d) r e
      → r' ≡ r
      → Ends types_of r r' (some d) e
  given :
      {d : D}
      → ((t : ℕ) → member t (types_of d) ≡ true → r.decoders t ≡ none)
      → Gives (types_of d) d r'
      → Keeps r r'
      → Ends types_of r r' (some d) none

-- What `first_taken` answers.
head_taken :
    {D : Type 0} (m : ℕ → Option D) (u : ℕ) (us : List ℕ) {d : D}
    → m u ≡ some d
    → first_taken m (u ∷ us) ≡ some u
unfolding first_taken
head_taken m u us e = rw e refl

head_free :
    {D : Type 0} (m : ℕ → Option D) (u : ℕ) (us : List ℕ)
    → m u ≡ none
    → first_taken m (u ∷ us) ≡ first_taken m us
unfolding first_taken
head_free m u us e = rw e refl

member_cases : (t u : ℕ) (us : List ℕ) → member t (u ∷ us) ≡ true → (u ≡ t) ⊎ (member t us ≡ true)
member_cases t u us h = ground (arith, h)

member_head : (t : ℕ) (us : List ℕ) → member t (t ∷ us) ≡ true
member_head t us = ground arith

member_tail : (t u : ℕ) (us : List ℕ) → member t us ≡ true → member t (u ∷ us) ≡ true
member_tail t u us h = ground (arith, h)

free_types :
    {D : Type 0} (m : ℕ → Option D) (ts : List ℕ) (t : ℕ)
    → first_taken m ts ≡ none
    → member t ts ≡ true
    → m t ≡ none
free_types m [] t e i = absurd cc
free_types m (u ∷ us) t e i = elim (Option-cases (m u)) [
  | inr (d, o) ↦ absurd (clash (sym (head_taken m u us o) ∙ e))
  | inl o ↦ elim (member_cases t u us i) [
    | inl same ↦ sym (ap m same) ∙ o
    | inr there ↦ free_types m us t (sym (head_free m u us o) ∙ e) there
  ]
]
  where
    clash : some u ≡ none → ⊥
    clash e = cc

taken_type :
    {D : Type 0} (m : ℕ → Option D) (ts : List ℕ) (t : ℕ)
    → first_taken m ts ≡ some t
    → (d : D) × (member t ts ≡ true) × (m t ≡ some d)
taken_type m [] t e = absurd (nothing e)
  where
    nothing : first_taken m [] ≡ some t → ⊥
    nothing e = unfold first_taken in cc
taken_type m (u ∷ us) t e = elim (Option-cases (m u)) [
  | inr (d, o) ↦
      let same : u ≡ t = unwrap (sym (head_taken m u us o) ∙ e) in
      (
        d,
        subst (λ (x : ℕ). member t (x ∷ us) ≡ true) (sym same) (member_head t us),
        sym (ap m same) ∙ o,
      )
  | inl o ↦
      let (d, i, q) = taken_type m us t (sym (head_free m u us o) ∙ e) in
      (d, member_tail t u us i, q)
]
  where
    unwrap : some u ≡ some t → u ≡ t
    unwrap e = cc

-- `Register` ends in one of three ways: a nil decoder is an error; so is one of the decoder's types
-- that has a decoder already, which the error names; and both leave the registry as it was. Else the
-- decoder stands under all of its types, and every decoder that stood in the registry stands where
-- it did. And where every decoder stood only under types of its own, it still does.
pub register_decoder-Ends :
    {D : Type 0} (types_of : D → List ℕ) (o : Option D) (r : EventRegistry D)
    → Owned types_of r
    → Owned types_of (register_decoder types_of o r).0
      × Ends types_of r (register_decoder types_of o r).0 o (register_decoder types_of o r).1
unfolding register_decoder
register_decoder-Ends types_of none r h = (h, nil_decoder refl)
register_decoder-Ends {D} types_of (some d) r h = ends (first_taken r.decoders (types_of d)) refl
  where
    gives : Gives (types_of d) d (put_types d (types_of d) r)
    gives = unfold Gives in λ t i. put_types_at d (types_of d) r t ∙ rw i refl

    keeps :
        ((t : ℕ) → member t (types_of d) ≡ true → r.decoders t ≡ none)
        → Keeps r (put_types d (types_of d) r)
    keeps free =
        unfold Keeps in
        λ t d' e. put_types_at d (types_of d) r t ∙ elim (Bool-cases (member t (types_of d))) [
          | inl i ↦ absurd (clash (sym (free t i) ∙ e))
          | inr i ↦ rw i e
        ]
      where
        clash : {x : D} → none ≡ some x → ⊥
        clash e = cc

    ends :
        (f : Option ℕ)
        → first_taken r.decoders (types_of d) ≡ f
        → Owned types_of (register_types d (types_of d) r f).0
          × Ends types_of r
              (register_types d (types_of d) r f).0
              (some d)
              (register_types d (types_of d) r f).1
    ends none e =
        let free = λ (t : ℕ). free_types r.decoders (types_of d) t e in
        (put_types-Owned types_of d r h, given free gives (keeps free))
    ends (some t) e =
        let (d', i, q) = taken_type r.decoders (types_of d) t e in
        (
          h,
          taken {d = d} {e = some (event_type_registered t)} (unfold Taken in (t, d', i, q, refl))
              refl,
        )
