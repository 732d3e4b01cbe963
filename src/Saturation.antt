-- ===== src/Saturation.antt =====
-- The saturating arithmetic of the Startle library (startle/support.c), which the compiler calls
-- to compute with ranges. It is another project's code: an interface of its functions, each with
-- the equation that describes it. An argument that is INTPTR_MIN or INTPTR_MAX counts as infinite
-- in the functions whose names end in `i`.
pub mod Bounds
pub mod Reference
pub mod Quotient
pub mod Product
use poprc.Prelude.{◌≡◌, ◌≢◌, Bool, true, false, ◌||◌, if◌then◌else◌, not}
use poprc.Prelude.Int.{ℤ, pos, negsuc, ◌+ℤ◌, ◌-ℤ◌, ◌*ℤ◌, ◌/ℤ◌, ltb_ℤ, eqb_ℤ}
use poprc.Words.{word_min, word_max, IsWord}

abbrev pub clamp_word : ℤ → ℤ
clamp_word z = if ltb_ℤ word_max z then word_max else if ltb_ℤ z word_min then word_min else z

abbrev pub is_neg : ℤ → Bool
is_neg x = ltb_ℤ x (pos 0)

abbrev pub is_infinite : ℤ → Bool
is_infinite x = eqb_ℤ x word_min || eqb_ℤ x word_max

abbrev pub same : Bool → Bool → Bool
same true b = b
same false b = not b

-- Infinity takes precedence over the exact result.
abbrev pub unless_infinite : ℤ → ℤ → ℤ
unless_infinite n z =
    if eqb_ℤ n word_max then word_max else if eqb_ℤ n word_min then word_min else z

abbrev pub sign : ℤ → ℤ
sign x = if is_neg x then negsuc 0 else if ltb_ℤ (pos 0) x then pos 1 else pos 0

-- A finite left argument gives the product, up to the ends of the words.
abbrev pub saturated_product : ℤ → ℤ → ℤ
saturated_product x y =
    if eqb_ℤ x (pos 0) || eqb_ℤ y (pos 0)
    then pos 0
    else if is_infinite x
    then (if same (is_neg x) (is_neg y) then word_max else word_min)
    else clamp_word (x *ℤ y)

-- sat_muli has no law where the left argument is -1: to find the greatest right argument, sat_mul then
-- divides INTPTR_MIN by -1, which C does not define. The divisions have none for a divisor of 0.
pub record Saturation : Type 0 where
  pub sat_addi : ℤ → ℤ → ℤ
  pub sat_subi : ℤ → ℤ → ℤ
  pub sat_muli : ℤ → ℤ → ℤ
  pub sat_negi : ℤ → ℤ
  pub sat_abs : ℤ → ℤ
  pub div_i : ℤ → ℤ → ℤ
  pub div_mini : ℤ → ℤ → ℤ
  pub div_maxi : ℤ → ℤ → ℤ
  pub sat_addi_lem :
      (x y : ℤ)
      → IsWord x
      → IsWord y
      → sat_addi x y ≡ (
          if eqb_ℤ x word_max || eqb_ℤ y word_max
          then word_max
          else if eqb_ℤ x word_min || eqb_ℤ y word_min
          then word_min
          else clamp_word (x +ℤ y))
  pub sat_subi_lem :
      (x y : ℤ)
      → IsWord x
      → IsWord y
      → sat_subi x y ≡ (
          if eqb_ℤ x word_max || eqb_ℤ y word_min
          then word_max
          else if eqb_ℤ x word_min || eqb_ℤ y word_max
          then word_min
          else clamp_word (x -ℤ y))
  pub sat_muli_lem :
      (x y : ℤ) → IsWord x → IsWord y → x ≢ negsuc 0 → sat_muli x y ≡ saturated_product x y
  pub sat_negi_lem :
      (x : ℤ)
      → IsWord x
      → sat_negi x
        ≡ (if eqb_ℤ x word_min then word_max else if eqb_ℤ x word_max then word_min else pos 0 -ℤ x)
  pub sat_abs_lem :
      (x : ℤ)
      → IsWord x
      → sat_abs x ≡ (if eqb_ℤ x word_min then word_max else if is_neg x then pos 0 -ℤ x else x)
  pub div_i_lem :
      (n d : ℤ) → IsWord n → IsWord d → d ≢ pos 0 → div_i n d ≡ unless_infinite n (n /ℤ d)
  pub div_mini_lem :
      (n d : ℤ)
      → IsWord n
      → IsWord d
      → d ≢ pos 0
      → div_mini n d
        ≡ unless_infinite n
            (if same (is_neg n) (is_neg d) then n /ℤ d else clamp_word (n -ℤ (d -ℤ sign d)) /ℤ d)
  pub div_maxi_lem :
      (n d : ℤ)
      → IsWord n
      → IsWord d
      → d ≢ pos 0
      → div_maxi n d
        ≡ unless_infinite n
            (if same (is_neg n) (is_neg d) then clamp_word (n +ℤ (d -ℤ sign d)) /ℤ d else n /ℤ d)
