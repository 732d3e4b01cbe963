-- ===== src/Analyze/Tests.antt =====
-- The inputs for two ranges: from -1 to 1, and from 0 to 3.
use poprc.Prelude.{ℕ, ◌≤◌, ◌≡◌, refl, List, [], ◌∷◌, none, some, arith}
use poprc.Prelude.Int.{ℤ, pos, negsuc, ◌+ℤ◌, ◌-ℤ◌, ◌%ℤ◌, ◌/ℤ◌}
use poprc.Words.{Range}
use poprc.Analyze.{inputs_from_number}
use poprc.Analyze.Enumeration.{
  Spans, no_spans, with_span, IsSpan, AreBelow, number_of, inputs_from_number-digits,
}

abbrev signs : Range
signs = record { min = negsuc 0; max = pos 1 }

abbrev up_to_three : Range
up_to_three = record { min = pos 0; max = pos 3 }

fifth : inputs_from_number (pos 5) (signs ∷ up_to_three ∷ []) ≡ some (pos 0 ∷ pos 2 ∷ [], pos 0)
unfolding inputs_from_number ◌+ℤ◌ ◌-ℤ◌ ◌%ℤ◌ ◌/ℤ◌
fifth = refl

-- A constant range: the span is 0, and the remainder by it is taken.
constant_range : inputs_from_number (pos 5) (record { min = pos 7; max = pos 7 } ∷ []) ≡ none
unfolding inputs_from_number ◌-ℤ◌
constant_range = refl

abbrev signs-IsSpan : IsSpan signs 1
signs-IsSpan = record { small = omega arith; apart = unfold ◌+ℤ◌ in refl }

abbrev up_to_three-IsSpan : IsSpan up_to_three 2
up_to_three-IsSpan = record { small = omega arith; apart = unfold ◌+ℤ◌ in refl }

abbrev both_spans : Spans (signs ∷ up_to_three ∷ [])
both_spans = with_span _ _ 1 signs-IsSpan (with_span _ _ 2 up_to_three-IsSpan no_spans)

inputs_from_number-digits_example :
    (xs : List ℤ) × (q : ℕ) × (inputs_from_number (pos 5) (signs ∷ up_to_three ∷ [])
      ≡ some (xs, pos q))
    × (q ≤ 5)
    × (AreBelow (signs ∷ up_to_three ∷ []) xs)
    × (number_of (signs ∷ up_to_three ∷ []) both_spans xs q ≡ 5)
inputs_from_number-digits_example =
    inputs_from_number-digits 5 (signs ∷ up_to_three ∷ []) both_spans (omega arith)
