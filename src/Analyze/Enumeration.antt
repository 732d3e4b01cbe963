-- ===== src/Analyze/Enumeration.antt =====
-- The inputs that `inputs_from_number` of eval.c makes of a number.
use native.Mathlib.Omega.{arith}
use native.Mathlib.Nat.{div-add-mod', mod-lt, div-le_self}
use mathlib.Core.Path.{subst}
use poprc.Prelude.{
  ℕ, zero, suc, ◌+◌, ◌*◌, ◌/◌, ◌%◌, ◌^◌, ◌≤◌, ◌<◌, ◌≡◌, refl, sym, ap, ◌∙◌, List, [], ◌∷◌, Option,
  none, some,
}
use poprc.Prelude.Int.{ℤ, pos, negsuc, ◌+ℤ◌, ◌-ℤ◌, ◌/ℤ◌, ◌%ℤ◌, ◌≤ℤ◌, pos_part}
use poprc.Words.{Range}
use poprc.Analyze.{to_int, span_of, digit_step, inputs_from_number}

-- The ends of a range are `suc s` apart, which an `int` can hold.
pub record IsSpan (b : Range) (s : ℕ) : Type 0 where
  pub small : suc s < 2 ^ 31
  pub apart : b.max ≡ b.min +ℤ pos (suc s)

-- Bounds with their spans.
pub data Spans : List Range → Type 0 where
  no_spans : Spans []
  with_span : (b : Range) (bs : List Range) (s : ℕ) → IsSpan b s → Spans bs → Spans (b ∷ bs)

-- The number that has the inputs as its digits, over a rest `q`.
abbrev pub number_of : (bs : List Range) → Spans bs → List ℤ → ℕ → ℕ
number_of [] no_spans xs q = q
number_of (b ∷ bs) (with_span _ _ s w k) [] q = q
number_of (b ∷ bs) (with_span _ _ s w k) (x ∷ xs) q =
    number_of bs k xs (q * suc s + pos_part (x -ℤ b.min))

-- Each input is at least the minimum of its range and below the maximum.
pub data AreBelow : List Range → List ℤ → Type 0 where
  none_left : AreBelow [] []
  is_below :
      (b : Range) (bs : List Range) (x : ℤ) (xs : List ℤ)
      → b.min ≤ℤ x
      → x +ℤ pos 1 ≤ℤ b.max
      → AreBelow bs xs
      → AreBelow (b ∷ bs) (x ∷ xs)

to_int-small : (n : ℕ) → n < 2 ^ 31 → to_int (pos n) ≡ pos n
to_int-small n h = ground arith

add_sub : (a : ℤ) (n : ℕ) → (a +ℤ pos n) -ℤ a ≡ pos n
unfolding ◌+ℤ◌ ◌-ℤ◌
add_sub a n = ground arith

add-above : (a : ℤ) (n : ℕ) → a ≤ℤ (a +ℤ pos n)
unfolding ◌+ℤ◌
add-above a n = ground arith

add-below : (a : ℤ) (n s : ℕ) → n < suc s → ((a +ℤ pos n) +ℤ pos 1) ≤ℤ (a +ℤ pos (suc s))
unfolding ◌+ℤ◌
add-below a n s h = ground arith

module _ (b : Range) (s : ℕ) (w : IsSpan b s) (m : ℕ) where
  span_lem : span_of b ≡ pos (suc s)
  span_lem =
      ap (λ t. to_int (t -ℤ b.min)) w.apart
      ∙ ap to_int (add_sub b.min (suc s))
      ∙ to_int-small (suc s) w.small

  digit_step_lem :
      (xs : List ℤ)
      → m < 2 ^ 31
      → digit_step b (xs, pos m) ≡ some ((b.min +ℤ pos (m % suc s)) ∷ xs, pos (m / suc s))
  unfolding digit_step ◌/ℤ◌ ◌%ℤ◌
  digit_step_lem xs h =
      let body : ℤ → Option (List ℤ × ℤ) = λ t. elim t [
        | pos zero ↦ none
        | pos (suc r) ↦ some ((b.min +ℤ pos m %ℤ pos (suc r)) ∷ xs, to_int (pos m /ℤ pos (suc r)))
        | negsuc r ↦ some ((b.min +ℤ pos m %ℤ negsuc r) ∷ xs, to_int (pos m /ℤ negsuc r))
      ] in
      ap body span_lem
      ∙ ap (λ t. some ((b.min +ℤ pos (m % suc s)) ∷ xs, t))
          (to_int-small (m / suc s) (omega (arith, div-le_self m (suc s))))

  offset_lem : pos_part ((b.min +ℤ pos (m % suc s)) -ℤ b.min) ≡ m % suc s
  offset_lem = ap pos_part (add_sub b.min (m % suc s))

  below_lem : ((b.min +ℤ pos (m % suc s)) +ℤ pos 1) ≤ℤ b.max
  below_lem =
      subst (λ t. ((b.min +ℤ pos (m % suc s)) +ℤ pos 1) ≤ℤ t) (sym w.apart)
        (add-below b.min (m % suc s) s (mod-lt m (omega arith)))

-- For ranges that are not constant and not too wide, the inputs of a number that an `int` holds lie
-- in their ranges, without the maxima, and the number is got back from them and the rest: so two
-- numbers with the same rest have different inputs.
pub inputs_from_number-digits :
    (n : ℕ) (bs : List Range) (k : Spans bs)
    → n < 2 ^ 31
    → (xs : List ℤ) × (q : ℕ) × (inputs_from_number (pos n) bs ≡ some (xs, pos q))
      × (q ≤ n)
      × (AreBelow bs xs)
      × (number_of bs k xs q ≡ n)
unfolding inputs_from_number
inputs_from_number-digits n [] no_spans h = ([], n, refl, omega arith, none_left, refl)
inputs_from_number-digits n (b ∷ bs) (with_span _ _ s w k) h =
    let (xs, m, e, l, below, back) = inputs_from_number-digits n bs k h in
    let r = m % suc s in
    (
      (b.min +ℤ pos r) ∷ xs,
      m / suc s,
      ap (λ o. elim o [ none ↦ none | some p ↦ digit_step b p ]) e
          ∙ digit_step_lem b s w m xs (omega arith),
      omega (arith, div-le_self m (suc s)),
      is_below b bs (b.min +ℤ pos r) xs (add-above b.min r) (below_lem b s w m) below,
      ap (λ t. number_of bs k xs (m / suc s * suc s + t)) (offset_lem b s w m)
          ∙ ap (λ t. number_of bs k xs t) (div-add-mod' m (suc s))
          ∙ back,
    )
