-- ===== src/Analyze.antt =====
-- `inputs_from_number` of eval.c, by which the command `analyze` goes through the inputs of a word.
pub mod Enumeration
mod Tests
use poprc.Prelude.{
  ℕ, zero, suc, ◌+◌, ◌-◌, ◌%◌, ◌^◌, ltb, if◌then◌else◌, List, [], ◌∷◌, Option, none, some,
}
use poprc.Prelude.Int.{ℤ, pos, negsuc, ◌+ℤ◌, ◌-ℤ◌, ◌/ℤ◌, ◌%ℤ◌}
use poprc.Words.{Range}

-- A value stored in an `int`, of 32 bits.
abbrev pub to_int : ℤ → ℤ
to_int (pos n) = let r = n % 2 ^ 32 in if ltb r (2 ^ 31) then pos r else negsuc (2 ^ 32 - 1 - r)
to_int (negsuc n) = let r = n % 2 ^ 32 in if ltb r (2 ^ 31) then negsuc r else pos (2 ^ 32 - 1 - r)

abbrev pub span_of : Range → ℤ
span_of b = to_int (b.max -ℤ b.min)

-- One turn of the loop, with the inputs behind it; `none` is a division by 0.
unfoldable pub digit_step : Range → List ℤ × ℤ → Option (List ℤ × ℤ)
digit_step b (input, n) = elim (span_of b) [
  | pos zero ↦ none
  | pos (suc s) ↦ some ((b.min +ℤ n %ℤ pos (suc s)) ∷ input, to_int (n /ℤ pos (suc s)))
  | negsuc s ↦ some ((b.min +ℤ n %ℤ negsuc s) ∷ input, to_int (n /ℤ negsuc s))
]

-- The inputs for the bounds, from the last one to the first, and what is left of `n`.
unfoldable pub inputs_from_number : (n : ℤ) → List Range → Option (List ℤ × ℤ)
unfolding digit_step
inputs_from_number n [] = some ([], n)
inputs_from_number n (b ∷ bounds) = elim (inputs_from_number n bounds) [
  | none ↦ none
  | some r ↦ digit_step b r
]
