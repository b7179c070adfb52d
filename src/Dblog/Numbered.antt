-- ===== src/Dblog/Numbered.antt =====
-- The loops of the decoders that number their inputs (`position++`): one round for each input, which
-- continues, yields, or yields and returns; and the error behind the last input.
use go_dblog.Prelude.{
  ℕ, zero, suc, ◌+◌, ◌≤◌, ◌<◌, ◌≡◌, refl, ap, Bool, Option, none, some, List, [], ◌∷◌, drop, arith,
  if◌then◌else◌,
}
use go_dblog.Dblog.Stream.{Round, skip, emit, last, take_round, of_list}

abbrev pub after_round : {J : Type 0} → Round J → List J → List J
after_round skip rest = rest
after_round (emit j) rest = j ∷ rest
after_round (last j) rest = j ∷ []

abbrev pub to_list : {J : Type 0} → Option J → List J
to_list none = []
to_list (some j) = j ∷ []

module _ {A J : Type 0} where
  -- The loop behind `position` inputs.
  unfoldable pub numbered :
      {S : Type 0} → (ℕ → A → Round J) → (S → J → S × Bool) → ℕ → List A → Option J → S → S
  unfolding take_round
  numbered round yield position [] none s = s
  numbered round yield position [] (some j) s = (yield s j).0
  numbered round yield position (a ∷ inputs) failure s =
      let rest = numbered round yield (position + 1) inputs failure in
      let r = take_round yield s (round (position + 1) a) in if r.1 then rest r.0 else r.0

  -- What the loop yields to a consumer that never stops.
  unfoldable pub items : (ℕ → A → Round J) → ℕ → List A → Option J → List J
  items round position [] failure = to_list failure
  items round position (a ∷ inputs) failure =
      after_round (round (position + 1) a) (items round (position + 1) inputs failure)

  -- Rounds that skip the first `m` inputs.
  pub items-skip :
      (round : ℕ → A → Round J) (m k n : ℕ) (inputs : List A) (failure : Option J)
      → ((j : ℕ) (a : A) → j ≤ n → round j a ≡ skip)
      → k + m ≡ n
      → items round k inputs failure ≡ items round n (drop m inputs) failure
  unfolding items
  items-skip round zero k n inputs failure h e =
      ap (λ (j : ℕ). items round j inputs failure) (omega (arith, e))
  items-skip round (suc m) k n [] failure h e = refl
  items-skip round (suc m) k n (a ∷ inputs) failure h e =
      rw (h (k + 1) a (omega (arith, e)))
        (items-skip round m (k + 1) n inputs failure h (omega (arith, e)))

  -- Rounds that agree behind position `n`.
  pub items-same :
      (round round' : ℕ → A → Round J) (n k : ℕ) (inputs : List A) (failure : Option J)
      → ((j : ℕ) (a : A) → n < j → round j a ≡ round' j a)
      → n ≤ k
      → items round k inputs failure ≡ items round' k inputs failure
  unfolding items
  items-same round round' n k [] failure h e = refl
  items-same round round' n k (a ∷ inputs) failure h e = rw (h (k + 1) a (omega (arith, e))) (
      ap (after_round (round' (k + 1) a))
        (items-same round round' n (k + 1) inputs failure h (omega (arith, e))))

module _ {B X : Type 0} where
  round-list :
      {S : Type 0} (r : Round (B × Option X)) (yield : S → B × Option X → S × Bool)
      (is : List (B × Option X)) (rest : S → S) (s : S)
      → ((s' : S) → rest s' ≡ of_list is yield s')
      → (let t = take_round yield s r in if t.1 then rest t.0 else t.0)
        ≡ of_list (after_round r is) yield s
  unfolding take_round of_list
  round-list skip yield is rest s h = h s
  round-list (emit j) yield is rest s h = rw (h (yield s j).0) refl
  round-list (last j) yield is rest s h = ground arith

module _ {A B X : Type 0} where
  -- The loop yields its items, and stops when the consumer does.
  pub numbered-items :
      {S : Type 0} (round : ℕ → A → Round (B × Option X)) (yield : S → B × Option X → S × Bool)
      (k : ℕ) (inputs : List A) (failure : Option (B × Option X)) (s : S)
      → numbered round yield k inputs failure s ≡ of_list (items round k inputs failure) yield s
  unfolding numbered items
  numbered-items round yield k [] none s = unfold of_list in refl
  numbered-items round yield k [] (some j) s = unfold of_list in ground arith
  numbered-items round yield k (a ∷ inputs) failure s =
      round-list (round (k + 1) a) yield (items round (k + 1) inputs failure)
        (numbered round yield (k + 1) inputs failure) s
        (numbered-items round yield (k + 1) inputs failure)
