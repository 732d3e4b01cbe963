-- ===== src/Widths/Fits.antt =====
-- The width of a register is enough for every value of the range.
use native.Mathlib.Decide.{dec_le}
use native.Mathlib.Nat.{pow-le-pow_right}
use Prim.Native.Nat.{max, min}
use poprc.Prelude.{
  ℕ, ◌+◌, suc, ◌≤◌, ◌<◌, ◌-◌, ◌^◌, ◌≡◌, ◌≢◌, ap, ◌∙◌, refl, Bool, true, false, not, ◌||◌, ◌&&◌,
  if◌then◌else◌, Bool-cases, inl, inr, arith,
}
use poprc.Prelude.Int.{ℤ, pos, negsuc, leb_ℤ, ◌≤ℤ◌, ◌-ℤ◌, ◌+ℤ◌, pos_part}
use poprc.Words.{Range, Within, IsWordRange, IsFinite, range, max_ℤ}
use poprc.Widths.{Startle, bits_needed, range_bounded, range_empty, range_singleton}

-- A register of `n` bits holds the value, unsigned if `low` is not negative and signed otherwise.
abbrev pub Holds : ℕ → ℤ → ℤ → Type 0
Holds n (pos a) x = (pos 0 ≤ℤ x) × (pos_part x < 2 ^ n)
Holds n (negsuc a) x = ((m : ℕ) × (n ≡ suc m) × (negsuc (2 ^ m - 1) ≤ℤ x) × (x ≤ℤ pos (2 ^ m - 1)))

max_one : (k : ℕ) → 2 ^ k ≤ 2 ^ max 1 k
max_one k = pow-le-pow_right {n = 2} (omega arith) (omega arith)

-- INTPTR_MAX is not a power of 2.
past_max : (k : ℕ) → 2 ^ 63 - 1 ≤ 2 ^ k → 2 ^ 63 ≤ 2 ^ k
past_max k h = elim (dec_le 63 k) [
  | yes g ↦ pow-le-pow_right {n = 2} (omega arith) g
  | no g ↦
      absurd (omega (arith, pow-le-pow_right {n = 2} (omega arith) {i = k} {j = 62} (omega arith)))
]

-- The sum stops at INTPTR_MAX.
next_word :
    (lib : Startle) (n : ℕ)
    → n ≤ 2 ^ 63 - 1
    → lib.sat_add (pos n) (pos 1) ≡ pos (min (suc n) (2 ^ 63 - 1))
unfolding ◌+ℤ◌
next_word lib n h = rw (lib.sat_add_lem (pos n) (pos 1) (omega arith) (omega arith)) (ground arith)

reach : (k n : ℕ) → n ≤ 2 ^ 63 - 1 → min (suc n) (2 ^ 63 - 1) ≤ 2 ^ k → suc n ≤ 2 ^ k
reach k n h g = elim (dec_le (2 ^ 63 - 1) n) [
  | yes m ↦ omega (arith, past_max k (omega arith))
  | no m ↦ omega arith
]

room :
    (lib : Startle) (n : ℕ)
    → n ≤ 2 ^ 63 - 1
    → suc n ≤ 2 ^ lib.int_log2l (pos_part (lib.sat_add (pos n) (pos 1)))
room lib n h =
    let m = min (suc n) (2 ^ 63 - 1) in
    rw (next_word lib n h) (reach (lib.int_log2l m) n h (lib.int_log2l_above m))

-- The greater of the magnitudes of the ends
magnitude_lem :
    (lib : Startle) (hi : ℤ) (a : ℕ)
    → IsFinite hi
    → a ≤ 2 ^ 63 - 2
    → max_ℤ hi (lib.sat_neg (negsuc a)) ≡ pos (max (pos_part hi) (suc a))
unfolding ◌-ℤ◌
magnitude_lem lib (pos n) a f h = rw (lib.sat_neg_lem (negsuc a) (omega arith)) (ground arith)
magnitude_lem lib (negsuc n) a f h = rw (lib.sat_neg_lem (negsuc a) (omega arith)) (ground arith)

unsigned-Holds :
    (lib : Startle) (hi x : ℤ)
    → IsFinite hi
    → pos 0 ≤ℤ x
    → x ≤ℤ hi
    → pos_part x < 2 ^ max 1 (lib.int_log2l (pos_part (lib.sat_add hi (pos 1))))
unsigned-Holds lib (pos n) (pos m) f a b =
    let k = lib.int_log2l (pos_part (lib.sat_add (pos n) (pos 1))) in
    let r = room lib n (omega arith) in omega (arith, r, max_one k)
unsigned-Holds lib (pos n) (negsuc m) f a b = absurd (omega arith)
unsigned-Holds lib (negsuc n) x f a b = absurd (omega arith)

pos_part-le : (z : ℤ) → IsFinite z → pos_part z ≤ 2 ^ 63 - 2
pos_part-le (pos n) f = omega arith
pos_part-le (negsuc n) f = omega arith

signed-Holds :
    (lib : Startle) (hi x : ℤ) (a k : ℕ)
    → IsFinite hi
    → a ≤ 2 ^ 63 - 2
    → Within x (range (negsuc a) hi)
    → k ≡ lib.int_log2l (pos_part (lib.sat_add (max_ℤ hi (lib.sat_neg (negsuc a))) (pos 1)))
    → (negsuc (2 ^ k - 1) ≤ℤ x) × (x ≤ℤ pos (2 ^ k - 1))
signed-Holds lib hi x a k f h w e =
    let m = max (pos_part hi) (suc a) in
    let s : k ≡ lib.int_log2l (pos_part (lib.sat_add (pos m) (pos 1))) =
      e ∙ ap (λ t. lib.int_log2l (pos_part (lib.sat_add t (pos 1)))) (magnitude_lem lib hi a f h) in
    let r : suc m ≤ 2 ^ k = rw s (room lib m (omega (arith, pos_part-le hi f))) in
    (omega (arith, r), omega (arith, r))

nonnegative : (n : ℕ) → leb_ℤ (pos 0) (pos n) ≡ true
nonnegative n = ground arith

negative : (a : ℕ) → leb_ℤ (pos 0) (negsuc a) ≡ false
negative a = ground arith

width-Holds :
    (lib : Startle) (lo hi x : ℤ)
    → IsFinite lo
    → IsFinite hi
    → Within x (range lo hi)
    → Holds
        (if leb_ℤ (pos 0) lo
          then max 1 (lib.int_log2l (pos_part (lib.sat_add hi (pos 1))))
          else max 1
              (lib.int_log2l (pos_part (lib.sat_add (max_ℤ hi (lib.sat_neg lo)) (pos 1))) + 1))
        lo
        x
width-Holds lib (pos n) hi x f g w =
    rw (nonnegative n) (omega arith, unsigned-Holds lib hi x g (omega arith) w.below)
width-Holds lib (negsuc a) hi x f g w =
    let s = signed-Holds lib hi x a _ g (omega arith) w refl in
    rw (negative a) (_, omega arith, s.0, s.1)

IsFinite-ends :
    (r : Range)
    → IsWordRange r
    → range_bounded r ≡ true
    → r.min ≤ℤ r.max
    → IsFinite r.min × IsFinite r.max
IsFinite-ends r w b l = ground arith

bounded_of : (e b c : Bool) → (e || (not b || c)) ≡ false → b ≡ true
bounded_of e b c h = grind arith

-- A register of the width that is not 0 holds every value of the range: unsigned where the range has
-- no negative values, and signed otherwise.
pub bits_needed-Holds :
    (lib : Startle) (r : Range) (is_constant : Bool) (x : ℤ)
    → IsWordRange r
    → Within x r
    → bits_needed lib r is_constant ≢ 0
    → Holds (bits_needed lib r is_constant) r.min x
unfolding bits_needed
bits_needed-Holds lib r is_constant x w i n =
    let c = range_empty r || (not (range_bounded r) || (not is_constant && range_singleton r)) in
    elim (Bool-cases c) [
      | inl e ↦ absurd (n (rw e refl))
      | inr e ↦
          let f =
            IsFinite-ends r w (bounded_of (range_empty r) (range_bounded r) _ e) (omega arith) in
          rw e (width-Holds lib r.min r.max x f.0 f.1 i)
    ]
