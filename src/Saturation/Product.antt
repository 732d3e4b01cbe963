-- ===== src/Saturation/Product.antt =====
-- The saturated product is monotone in each argument, up to the sign of the other.
use poprc.Prelude.{ℕ, zero, suc, ◌≡◌, refl, ◌⊎◌, inl, inr, arith}
use poprc.Prelude.Int.{ℤ, pos, negsuc, ◌*ℤ◌, ◌≤ℤ◌}
use poprc.Prelude.Product.{*ℤ_mono_pos, *ℤ_mono_neg, *ℤ_comm}
use poprc.Words.{IsWord, IsFinite, word_min, word_max}
use poprc.Saturation.{saturated_product, clamp_word}

zero_mul : (x : ℤ) → pos 0 *ℤ x ≡ pos 0
unfolding ◌*ℤ◌
zero_mul (pos n) = grind arith
zero_mul (negsuc n) = grind arith

mul_zero : (x : ℤ) → x *ℤ pos 0 ≡ pos 0
unfolding ◌*ℤ◌
mul_zero (pos n) = grind arith
mul_zero (negsuc n) = grind arith

clamp_mono : (x y : ℤ) → x ≤ℤ y → clamp_word x ≤ℤ clamp_word y
clamp_mono x y h = ground arith

clamp_mul_pos : (p x : ℤ) (q : ℕ) → p ≤ℤ x → clamp_word (p *ℤ pos q) ≤ℤ clamp_word (x *ℤ pos q)
clamp_mul_pos p x q h = clamp_mono (p *ℤ pos q) (x *ℤ pos q) (*ℤ_mono_pos p x q h)

clamp_mul_neg :
    (p x : ℤ) (q : ℕ) → p ≤ℤ x → clamp_word (x *ℤ negsuc q) ≤ℤ clamp_word (p *ℤ negsuc q)
clamp_mul_neg p x q h = clamp_mono (x *ℤ negsuc q) (p *ℤ negsuc q) (*ℤ_mono_neg p x q h)

-- With a finite left argument the product is exact up to the ends of the words.
pub product_finite :
    (x y : ℤ) → IsFinite x → IsWord x → IsWord y → saturated_product x y ≡ clamp_word (x *ℤ y)
product_finite (pos zero) y f w v = rw (zero_mul y) refl
product_finite x (pos zero) f w v = rw (mul_zero x) (ground arith)
product_finite (pos (suc m)) (pos (suc n)) f w v = ground arith
product_finite (pos (suc m)) (negsuc n) f w v = ground arith
product_finite (negsuc m) (pos (suc n)) f w v = ground arith
product_finite (negsuc m) (negsuc n) f w v = ground arith

product-IsWord : (x y : ℤ) → IsWord x → IsWord y → IsWord (saturated_product x y)
product-IsWord x y w v = ground arith

word_cases : (p : ℤ) → IsWord p → IsFinite p ⊎ ((p ≡ word_min) ⊎ (p ≡ word_max))
word_cases (pos n) w = grind arith
word_cases (negsuc n) w = grind arith

word_min-IsWord : IsWord word_min
word_min-IsWord = ground arith

word_max-IsWord : IsWord word_max
word_max-IsWord = ground arith

min_pos : (q : ℕ) → IsWord (pos (suc q)) → saturated_product word_min (pos (suc q)) ≡ word_min
min_pos q w = ground arith

max_pos : (q : ℕ) → IsWord (pos (suc q)) → saturated_product word_max (pos (suc q)) ≡ word_max
max_pos q w = ground arith

min_neg : (q : ℕ) → IsWord (negsuc q) → saturated_product word_min (negsuc q) ≡ word_max
min_neg q w = ground arith

max_neg : (q : ℕ) → IsWord (negsuc q) → saturated_product word_max (negsuc q) ≡ word_min
max_neg q w = ground arith

any_zero : (p : ℤ) → IsWord p → IsWord (pos 0) → saturated_product p (pos 0) ≡ pos 0
any_zero p w v = ground arith

-- `f p q`, `f x q` and `f p' q` stand in order or in reverse order.
abbrev pub Ordered : ℤ → ℤ → ℤ → Type 0
Ordered a b c = ((a ≤ℤ b) × (b ≤ℤ c)) ⊎ ((c ≤ℤ b) × (b ≤ℤ a))

module _ (x : ℤ) (fx : IsFinite x) (wx : IsWord x) where
  above_pos :
      (p : ℤ) (q : ℕ)
      → IsWord p
      → IsWord (pos q)
      → x ≤ℤ p
      → saturated_product x (pos q) ≤ℤ saturated_product p (pos q)
  above_pos p zero wp wq h = rw (any_zero p wp wq, any_zero x wx wq) (omega arith)
  above_pos p (suc q) wp wq h = elim (word_cases p wp) [
    | inl fp ↦
        rw (product_finite x (pos (suc q)) fx wx wq, product_finite p (pos (suc q)) fp wp wq)
          (clamp_mul_pos x p (suc q) h)
    | inr (inl e) ↦ absurd (ground arith)
    | inr (inr e) ↦ rw (e, max_pos q wq) (product-IsWord x (pos (suc q)) wx wq).below
  ]

  below_pos :
      (p : ℤ) (q : ℕ)
      → IsWord p
      → IsWord (pos q)
      → p ≤ℤ x
      → saturated_product p (pos q) ≤ℤ saturated_product x (pos q)
  below_pos p zero wp wq h = rw (any_zero p wp wq, any_zero x wx wq) (omega arith)
  below_pos p (suc q) wp wq h = elim (word_cases p wp) [
    | inl fp ↦
        rw (product_finite x (pos (suc q)) fx wx wq, product_finite p (pos (suc q)) fp wp wq)
          (clamp_mul_pos p x (suc q) h)
    | inr (inl e) ↦ rw (e, min_pos q wq) (product-IsWord x (pos (suc q)) wx wq).above
    | inr (inr e) ↦ absurd (ground arith)
  ]

  above_neg :
      (p : ℤ) (q : ℕ)
      → IsWord p
      → IsWord (negsuc q)
      → x ≤ℤ p
      → saturated_product p (negsuc q) ≤ℤ saturated_product x (negsuc q)
  above_neg p q wp wq h = elim (word_cases p wp) [
    | inl fp ↦
        rw (product_finite x (negsuc q) fx wx wq, product_finite p (negsuc q) fp wp wq)
          (clamp_mul_neg x p q h)
    | inr (inl e) ↦ absurd (ground arith)
    | inr (inr e) ↦ rw (e, max_neg q wq) (product-IsWord x (negsuc q) wx wq).above
  ]

  below_neg :
      (p : ℤ) (q : ℕ)
      → IsWord p
      → IsWord (negsuc q)
      → p ≤ℤ x
      → saturated_product x (negsuc q) ≤ℤ saturated_product p (negsuc q)
  below_neg p q wp wq h = elim (word_cases p wp) [
    | inl fp ↦
        rw (product_finite x (negsuc q) fx wx wq, product_finite p (negsuc q) fp wp wq)
          (clamp_mul_neg p x q h)
    | inr (inl e) ↦ rw (e, min_neg q wq) (product-IsWord x (negsuc q) wx wq).below
    | inr (inr e) ↦ absurd (ground arith)
  ]

  -- The left argument moves between two words, the right one is any word.
  pub product_left :
      (p p' q : ℤ)
      → IsWord p
      → IsWord p'
      → IsWord q
      → p ≤ℤ x
      → x ≤ℤ p'
      → Ordered (saturated_product p q) (saturated_product x q) (saturated_product p' q)
  product_left p p' (pos q) wp wp' wq h k = inl (below_pos p q wp wq h, above_pos p' q wp' wq k)
  product_left p p' (negsuc q) wp wp' wq h k = inr (above_neg p' q wp' wq k, below_neg p q wp wq h)

  -- The right argument moves between two words, the left one is finite.
  pub product_right :
      (q y q' : ℤ)
      → IsWord q
      → IsWord y
      → IsWord q'
      → q ≤ℤ y
      → y ≤ℤ q'
      → Ordered (saturated_product x q) (saturated_product x y) (saturated_product x q')
  product_right q y q' wq wy wq' h k =
      rw
        (
          product_finite x q fx wx wq,
          product_finite x y fx wx wy,
          product_finite x q' fx wx wq',
          *ℤ_comm x q,
          *ℤ_comm x y,
          *ℤ_comm x q',
        )
        (go x h k)
    where
      go :
          (z : ℤ)
          → q ≤ℤ y
          → y ≤ℤ q'
          → Ordered (clamp_word (q *ℤ z)) (clamp_word (y *ℤ z)) (clamp_word (q' *ℤ z))
      go (pos n) h k = inl (clamp_mul_pos q y n h, clamp_mul_pos y q' n k)
      go (negsuc n) h k = inr (clamp_mul_neg y q' n k, clamp_mul_neg q y n h)
