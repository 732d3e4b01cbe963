-- ===== src/Saturation/Quotient.antt =====
-- The rounded quotients bound the factors of a product.
use poprc.Prelude.{
  ℕ, suc, inl, inr, Bool-cases, leb, if◌then◌else◌, ◌-◌, ◌^◌, ◌≡◌, ◌+◌, ◌*◌, ◌/◌, ◌≤◌, arith,
}
use poprc.Prelude.Int.{ℤ, pos, negsuc, ◌+ℤ◌, ◌-ℤ◌, ◌*ℤ◌, ◌/ℤ◌, ◌≤ℤ◌, sub_ℕ}
use poprc.Words.{IsWord, IsFinite, word_min, word_max}
use poprc.Saturation.{Saturation, clamp_word, sign}

pub le_div : (a c m : ℕ) → a * suc c ≤ m → a ≤ m / suc c
le_div a c m h = grind arith

pub div_le : (a c n : ℕ) → suc n ≤ suc a * suc c → n / suc c ≤ a
div_le a c n h = grind arith

-- What `n - (d - sign d)` and `n + (d - sign d)` are, where the signs of `n` and `d` differ or agree.
past_below :
    (m c : ℕ)
    → clamp_word (negsuc m -ℤ (pos (suc c) -ℤ sign (pos (suc c))))
      ≡ (if leb (m + c) (2 ^ 63 - 1) then negsuc (m + c) else word_min)
unfolding ◌-ℤ◌
past_below m c = ground arith

down_le :
    (a m c : ℕ)
    → suc m ≤ suc a * suc c
    → negsuc a ≤ℤ (if leb (m + c) (2 ^ 63 - 1) then negsuc (m + c) else word_min) /ℤ pos (suc c)
unfolding ◌/ℤ◌
down_le a m c h = elim (Bool-cases (leb (m + c) (2 ^ 63 - 1))) [
  | inl e ↦ rw e (ground (arith, div_le (suc a) c (suc (m + c))))
  | inr e ↦ rw e (ground (arith, div_le (suc a) c (2 ^ 63)))
]

module _ (sat : Saturation) where
  pub le-div_mini_pos :
      (x m : ℤ) (c : ℕ)
      → IsWord m
      → IsWord (pos (suc c))
      → IsFinite (x *ℤ pos (suc c))
      → IsWord x
      → x *ℤ pos (suc c) ≤ℤ m
      → x ≤ℤ sat.div_mini m (pos (suc c))
  unfolding ◌*ℤ◌ ◌/ℤ◌ ◌-ℤ◌
  le-div_mini_pos (pos a) (pos m) c w v f u h =
      rw (sat.div_mini_lem (pos m) (pos (suc c)) w v (λ e. cc)) (ground (arith, le_div a c m))
  le-div_mini_pos (pos a) (negsuc m) c w v f u h = absurd (grind arith)
  le-div_mini_pos (negsuc a) (pos m) c w v f u h =
      rw (sat.div_mini_lem (pos m) (pos (suc c)) w v (λ e. cc)) (ground arith)
  le-div_mini_pos (negsuc a) (negsuc m) c w v f u h =
      rw (sat.div_mini_lem (negsuc m) (pos (suc c)) w v (λ e. cc))
        (ground (arith, past_below m c, down_le a m c (grind arith)))

past_above :
    (n c : ℕ)
    → clamp_word (pos n +ℤ (pos (suc c) -ℤ sign (pos (suc c))))
      ≡ (if leb (n + c) (2 ^ 63 - 1) then pos (n + c) else word_max)
unfolding ◌+ℤ◌ ◌-ℤ◌
past_above n c = ground arith

past_above_neg :
    (n c : ℕ)
    → clamp_word (pos n -ℤ (negsuc c -ℤ sign (negsuc c)))
      ≡ (if leb (n + c) (2 ^ 63 - 1) then pos (n + c) else word_max)
unfolding ◌-ℤ◌
past_above_neg n c = ground arith

past_below_neg :
    (m c : ℕ)
    → clamp_word (negsuc m +ℤ (negsuc c -ℤ sign (negsuc c)))
      ≡ (if leb (m + c) (2 ^ 63 - 1) then negsuc (m + c) else word_min)
unfolding ◌+ℤ◌ ◌-ℤ◌
past_below_neg m c = ground arith

up_le :
    (a n c : ℕ)
    → n ≤ a * suc c
    → (if leb (n + c) (2 ^ 63 - 1) then pos (n + c) else word_max) /ℤ pos (suc c) ≤ℤ pos a
unfolding ◌/ℤ◌
up_le a n c h = elim (Bool-cases (leb (n + c) (2 ^ 63 - 1))) [
  | inl e ↦ rw e (ground (arith, div_le a c (n + c)))
  | inr e ↦ rw e (ground (arith, div_le a c (2 ^ 63 - 1)))
]

up_le_neg :
    (a n c : ℕ)
    → n ≤ a * suc c
    → sub_ℕ 0 a ≤ℤ (if leb (n + c) (2 ^ 63 - 1) then pos (n + c) else word_max) /ℤ negsuc c
unfolding ◌/ℤ◌
up_le_neg a n c h = elim (Bool-cases (leb (n + c) (2 ^ 63 - 1))) [
  | inl e ↦ rw e (ground (arith, div_le a c (n + c)))
  | inr e ↦ rw e (ground (arith, div_le a c (2 ^ 63 - 1)))
]

down_le_neg :
    (a m c : ℕ)
    → suc m ≤ a * suc c
    → (if leb (m + c) (2 ^ 63 - 1) then negsuc (m + c) else word_min) /ℤ negsuc c ≤ℤ pos a
unfolding ◌/ℤ◌
down_le_neg a m c h = elim (Bool-cases (leb (m + c) (2 ^ 63 - 1))) [
  | inl e ↦ rw e (ground (arith, div_le a c (suc (m + c))))
  | inr e ↦ rw e (ground (arith, div_le a c (2 ^ 63)))
]

module _ (sat : Saturation) where
  pub div_maxi-le_pos :
      (x m : ℤ) (c : ℕ)
      → IsWord m
      → IsWord (pos (suc c))
      → IsFinite (x *ℤ pos (suc c))
      → IsWord x
      → m ≤ℤ x *ℤ pos (suc c)
      → sat.div_maxi m (pos (suc c)) ≤ℤ x
  unfolding ◌*ℤ◌ ◌/ℤ◌
  div_maxi-le_pos (pos a) (pos n) c w v f u h =
      rw (sat.div_maxi_lem (pos n) (pos (suc c)) w v (λ e. cc))
        (ground (arith, past_above n c, up_le a n c (grind arith)))
  div_maxi-le_pos (pos a) (negsuc n) c w v f u h =
      rw (sat.div_maxi_lem (negsuc n) (pos (suc c)) w v (λ e. cc)) (ground arith)
  div_maxi-le_pos (negsuc a) (pos n) c w v f u h = absurd (grind arith)
  div_maxi-le_pos (negsuc a) (negsuc n) c w v f u h =
      rw (sat.div_maxi_lem (negsuc n) (pos (suc c)) w v (λ e. cc))
        (ground (arith, le_div (suc a) c (suc n)))

  pub le-div_mini_neg :
      (x m : ℤ) (c : ℕ)
      → IsWord m
      → IsFinite m
      → IsWord (negsuc c)
      → IsFinite (x *ℤ negsuc c)
      → IsWord x
      → m ≤ℤ x *ℤ negsuc c
      → x ≤ℤ sat.div_mini m (negsuc c)
  unfolding ◌*ℤ◌ ◌/ℤ◌
  le-div_mini_neg (pos a) (pos n) c w g v f u h =
      rw (sat.div_mini_lem (pos n) (negsuc c) w v (λ e. cc))
        (ground (arith, past_above_neg n c, up_le_neg 0 n c (grind arith)))
  le-div_mini_neg (negsuc a) (pos n) c w g v f u h =
      rw (sat.div_mini_lem (pos n) (negsuc c) w v (λ e. cc))
        (ground (arith, past_above_neg n c, up_le_neg (suc a) n c (grind arith)))
  le-div_mini_neg (pos a) (negsuc n) c w g v f u h =
      rw (sat.div_mini_lem (negsuc n) (negsuc c) w v (λ e. cc)) (ground (arith, le_div a c (suc n)))
  le-div_mini_neg (negsuc a) (negsuc n) c w g v f u h =
      rw (sat.div_mini_lem (negsuc n) (negsuc c) w v (λ e. cc)) (ground arith)

  pub div_maxi-le_neg :
      (x m : ℤ) (c : ℕ)
      → IsWord m
      → IsFinite m
      → IsWord (negsuc c)
      → IsFinite (x *ℤ negsuc c)
      → IsWord x
      → x *ℤ negsuc c ≤ℤ m
      → sat.div_maxi m (negsuc c) ≤ℤ x
  unfolding ◌*ℤ◌ ◌/ℤ◌
  div_maxi-le_neg (pos a) (pos n) c w g v f u h =
      rw (sat.div_maxi_lem (pos n) (negsuc c) w v (λ e. cc)) (ground arith)
  div_maxi-le_neg (negsuc a) (pos n) c w g v f u h =
      rw (sat.div_maxi_lem (pos n) (negsuc c) w v (λ e. cc)) (ground (arith, le_div (suc a) c n))
  div_maxi-le_neg (pos a) (negsuc n) c w g v f u h =
      rw (sat.div_maxi_lem (negsuc n) (negsuc c) w v (λ e. cc))
        (ground (arith, past_below_neg n c, down_le_neg a n c (grind arith)))
  div_maxi-le_neg (negsuc a) (negsuc n) c w g v f u h = absurd (grind arith)
