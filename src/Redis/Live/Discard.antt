-- ===== src/Redis/Live/Discard.antt =====
-- The sliding window of `discardUntil` against a search at every place.
use go_dblog.Prelude.{
  ℕ, zero, suc, ◌≤◌, ◌<◌, ◌≡◌, ◌≢◌, refl, sym, ap, ◌∙◌, true, false, Option, none, some, [], ◌∷◌,
  ◌++◌, length, length-append, take, drop, take-append, drop-append, append-nil, ltb, if◌then◌else◌,
  arith, Bool-cases, inl, inr,
}
use go_dblog.Prelude.Text.{Bytes, same, same_iff, ne→same}
use go_dblog.Redis.Live.{slide, discard_loop}

-- What is behind the first place where the marker begins.
unfoldable pub behind_marker : Bytes → Bytes → Option Bytes
unfolding same
behind_marker marker [] = none
behind_marker marker (c ∷ s) =
    let rest = behind_marker marker s in
    if same (take (length marker) (c ∷ s)) marker then some (drop (length marker) (c ∷ s)) else rest

take-all : (n : ℕ) (s : Bytes) → length s ≤ n → take n s ≡ s
take-all zero [] h = refl
take-all zero (c ∷ s) h = absurd (omega arith)
take-all (suc n) [] h = refl
take-all (suc n) (c ∷ s) h = ap (λ t. c ∷ t) (take-all n s (omega arith))

take-window : (n : ℕ) (w s : Bytes) → length w ≡ n → take n (w ++ s) ≡ w
take-window n w s e = ap (λ (k : ℕ). take k (w ++ s)) (sym e) ∙ take-append w s

behind_miss :
    (marker : Bytes) (c : ℕ) (s : Bytes)
    → take (length marker) (c ∷ s) ≢ marker
    → behind_marker marker (c ∷ s) ≡ behind_marker marker s
unfolding behind_marker
behind_miss marker c s h = rw (ne→same (take (length marker) (c ∷ s)) marker h) refl

behind_hit : (m : ℕ) (ms s : Bytes) → behind_marker (m ∷ ms) ((m ∷ ms) ++ s) ≡ some s
unfolding behind_marker
behind_hit m ms s =
    let front : take (length (m ∷ ms)) (m ∷ (ms ++ s)) ≡ m ∷ ms = take-append (m ∷ ms) s in
    let found : same (take (length (m ∷ ms)) (m ∷ (ms ++ s))) (m ∷ ms) ≡ true =
      (same_iff (take (length (m ∷ ms)) (m ∷ (ms ++ s))) (m ∷ ms)).1 front in
    rw found (ap some (drop-append (m ∷ ms) s))

-- A text that is no longer than the marker, and is not the marker, does not have it.
behind_short :
    (marker t : Bytes) → length t ≤ length marker → t ≢ marker → behind_marker marker t ≡ none
unfolding behind_marker
behind_short marker [] h k = refl
behind_short marker (c ∷ t) h k =
    let whole : take (length marker) (c ∷ t) ≡ c ∷ t = take-all (length marker) (c ∷ t) h in
    behind_miss marker c t (λ e. k (sym whole ∙ e))
    ∙ behind_short marker t (omega (arith, h)) λ e. absurd (longer (ap length e))
  where
    longer : length t ≡ length marker → ⊥
    longer e = omega (arith, e, h)

length-slide :
    (size b : ℕ) (w : Bytes) → length w ≤ size → 0 < size → length (slide size w b) ≤ size
unfolding slide
length-slide size b [] h k = ground (arith, h, k)
length-slide size b (c ∷ w) h k = ground (arith, h, k, length-append w (b ∷ []))

slide_short : (size b : ℕ) (w : Bytes) → length w < size → slide size w b ≡ w ++ (b ∷ [])
unfolding slide
slide_short size b w h = ground (arith, h, length-append w (b ∷ []))

slide_full :
    (size b c : ℕ) (w : Bytes) → length (c ∷ w) ≡ size → slide size (c ∷ w) b ≡ w ++ (b ∷ [])
unfolding slide
slide_full size b c w h = ground (arith, h, length-append w (b ∷ []))

append_one : (w : Bytes) (b : ℕ) (s : Bytes) → (w ++ (b ∷ [])) ++ s ≡ w ++ (b ∷ s)
append_one [] b s = refl
append_one (c ∷ w) b s = ap (λ t. c ∷ t) (append_one w b s)

-- Sliding the window over one byte more passes no place where the marker begins.
behind_slide :
    (marker w : Bytes) (b : ℕ) (s : Bytes)
    → length w ≤ length marker
    → w ≢ marker
    → 0 < length marker
    → behind_marker marker (w ++ (b ∷ s)) ≡ behind_marker marker (slide (length marker) w b ++ s)
behind_slide marker [] b s h k l =
    ap (λ (t : Bytes). behind_marker marker (t ++ s)) (sym (slide_short (length marker) b [] l))
behind_slide marker (c ∷ w) b s h k l = elim (Bool-cases (ltb (length (c ∷ w)) (length marker))) [
  | inl short ↦
      ap (behind_marker marker) (sym (append_one (c ∷ w) b s))
      ∙ ap (λ (t : Bytes). behind_marker marker (t ++ s))
          (sym (slide_short (length marker) b (c ∷ w) (ground (arith, short))))
  | inr not_short ↦
      let full : length (c ∷ w) ≡ length marker = ground (arith, not_short, h) in
      let window : take (length marker) (c ∷ (w ++ (b ∷ s))) ≡ c ∷ w =
        take-window (length marker) (c ∷ w) (b ∷ s) full in
      behind_miss marker c (w ++ (b ∷ s)) (λ e. k (sym window ∙ e))
      ∙ ap (behind_marker marker) (sym (append_one w b s))
      ∙ ap (λ (t : Bytes). behind_marker marker (t ++ s))
          (sym (slide_full (length marker) b c w full))
]

loop-behind :
    (m : ℕ) (ms w s : Bytes)
    → length w ≤ length (m ∷ ms)
    → w ≢ m ∷ ms
    → discard_loop (m ∷ ms) w s ≡ behind_marker (m ∷ ms) (w ++ s)
unfolding discard_loop
loop-behind m ms w [] h k = sym (
    behind_short (m ∷ ms) (w ++ []) (omega (arith, h, length-append w []))
      (λ e. k (sym (append-nil w) ∙ e)))
loop-behind m ms w (b ∷ s) h k =
    let w' : Bytes = slide (length (m ∷ ms)) w b in
    let step : behind_marker (m ∷ ms) (w ++ (b ∷ s)) ≡ behind_marker (m ∷ ms) (w' ++ s) =
      behind_slide (m ∷ ms) w b s h k (omega arith) in
    elim (Bool-cases (same w' (m ∷ ms))) [
      | inl e ↦ rw e (
          sym (
            step
            ∙ ap (λ (t : Bytes). behind_marker (m ∷ ms) (t ++ s)) ((same_iff w' (m ∷ ms)).0 e)
            ∙ behind_hit m ms s))
      | inr e ↦ rw e (
          loop-behind m ms w' s (length-slide (length (m ∷ ms)) b w h (omega arith)) (apart w' e)
          ∙ sym step)
    ]
  where
    apart : (t : Bytes) → same t (m ∷ ms) ≡ false → t ≢ m ∷ ms
    apart t e q = ground (arith, e, (same_iff t (m ∷ ms)).1 q)

-- The loop of `discardUntil` leaves what is behind the first place where the marker begins, and
-- fails where there is none: it finds the marker as a search at every place does.
pub discard_loop-behind :
    (m : ℕ) (ms input : Bytes) → discard_loop (m ∷ ms) [] input ≡ behind_marker (m ∷ ms) input
discard_loop-behind m ms input = loop-behind m ms [] input (omega arith) (λ e. cc)
