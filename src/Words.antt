-- ===== src/Words.antt =====
-- `intptr_t` values (rt_types.h: `val_t`) as integers between INTPTR_MIN and INTPTR_MAX, and the
-- ranges (`range_t`) of such values that the compiler reasons with.
pub mod Wrap
use Prim.Native.Nat.{ℕ, ◌-◌, ◌%◌, ◌^◌}
use poprc.Prelude.{ltb, if◌then◌else◌}
use poprc.Prelude.Int.{ℤ, pos, negsuc, ◌≤ℤ◌, leb_ℤ}

abbrev pub word_max : ℤ
word_max = pos (2 ^ 63 - 1)

abbrev pub word_min : ℤ
word_min = negsuc (2 ^ 63 - 1)

-- The mathematical integer is one that an `intptr_t` holds.
pub record IsWord (x : ℤ) : Type 0 where
  pub above : word_min ≤ℤ x
  pub below : x ≤ℤ word_max

-- INTPTR_MIN and INTPTR_MAX stand for the infinities in a range; every other value is finite.
pub record IsFinite (x : ℤ) : Type 0 where
  pub above : negsuc (2 ^ 63 - 2) ≤ℤ x
  pub below : x ≤ℤ pos (2 ^ 63 - 2)

-- Two's complement: the bit pattern of an integer, and the integer of a pattern below 2 ^ 64.
abbrev pub pattern_of : ℤ → ℕ
pattern_of (pos n) = n % 2 ^ 64
pattern_of (negsuc n) = 2 ^ 64 - 1 - n % 2 ^ 64

abbrev pub signed : ℕ → ℤ
signed w = if ltb w (2 ^ 63) then pos w else negsuc (2 ^ 64 - 1 - w)

-- What a 64-bit register keeps of an integer.
unfoldable pub wrap : ℤ → ℤ
wrap x = signed (pattern_of x)

-- `range_t`
pub record Range : Type 0 where
  pub min : ℤ
  pub max : ℤ

abbrev pub range : ℤ → ℤ → Range
range lo hi = record { min = lo; max = hi }

-- RANGE_ALL and RANGE_NONE
abbrev pub range_all : Range
range_all = range word_min word_max

abbrev pub range_none : Range
range_none = range word_max word_min

-- `min` and `max` of startle/macros.h
abbrev pub min_ℤ : ℤ → ℤ → ℤ
min_ℤ a b = if leb_ℤ a b then a else b

abbrev pub max_ℤ : ℤ → ℤ → ℤ
max_ℤ a b = if leb_ℤ b a then a else b

-- The value lies between the ends of the range.
pub record Within (x : ℤ) (r : Range) : Type 0 where
  pub above : r.min ≤ℤ x
  pub below : x ≤ℤ r.max

-- Both ends of the range are words.
pub record IsWordRange (r : Range) : Type 0 where
  pub lower : IsWord r.min
  pub upper : IsWord r.max
