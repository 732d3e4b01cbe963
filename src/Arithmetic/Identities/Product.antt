-- ===== src/Arithmetic/Identities/Product.antt =====
-- The identities of products: a factor that is a power of 2 shifts the other one.
use native.Mathlib.Decide.{dec_le}
use native.Mathlib.Nat.{pow-suc, pow-le-pow_right}
use Prim.Native.Nat.{bit_and}
use poprc.Prelude.{
  ℕ, zero, suc, ◌-◌, ◌/◌, ◌%◌, ◌^◌, ◌≤◌, ◌<◌, ◌≡◌, ◌≢◌, refl, ap, sym, ◌∙◌, true, false, Bool-cases,
  Option, none, some, if◌then◌else◌, inl, inr, arith,
}
use poprc.Prelude.Int.{ℤ, pos, negsuc, ◌*ℤ◌, ◌-ℤ◌, ltb_ℤ, eqb_ℤ, eq_of_parts}
use poprc.Prelude.Bits.{bit_and_halve, bit_and-le}
use poprc.Words.{wrap, IsWord}
use poprc.Words.Wrap.{wrap-eq_of_IsWord}
use poprc.Widths.{Startle}
use poprc.Arithmetic.{mul_op, shiftl_op, negate_op}
use poprc.Arithmetic.Identities.{
  Reduced, is_var, Replacement, ref, val, build_negate, build_seq, build_shiftl,
  build_negate_shiftl, magnitude, is_power, factor_identity, mul_identity_symmetry, mul_identity,
  IsValuation, meaning,
}
use poprc.Arithmetic.Identities.Sound.{Gives, none-Gives, if-Gives}

bit_and_self : (n x : ℕ) → x < 2 ^ n → bit_and x x ≡ x
bit_and_self zero x h = omega (arith, bit_and-le 0 x x h)
bit_and_self (suc n) x h =
    omega (arith, bit_and_halve x x, bit_and_self n (x / 2) (omega (arith, pow-suc 2 n)))

-- A number that has no digit in common with its predecessor is a power of 2.
power_of_and : (n a : ℕ) → a < 2 ^ n → a ≢ 0 → bit_and a (a - 1) ≡ 0 → (k : ℕ) × (a ≡ 2 ^ k)
power_of_and zero a h z e = absurd (z (omega arith))
power_of_and (suc n) zero h z e = absurd (z refl)
power_of_and (suc n) (suc zero) h z e = (0, refl)
power_of_and (suc n) (suc (suc b)) h z e =
    let a = suc (suc b) in
    let d : bit_and (a / 2) ((a - 1) / 2) ≡ 0 = omega (arith, bit_and_halve a (a - 1)) in
    elim (dec_le 1 (a % 2)) [
      | yes m ↦
          let t : a / 2 ≡ (a - 1) / 2 = omega arith in
          let s : bit_and (a / 2) (a / 2) ≡ 0 = ap (bit_and (a / 2)) t ∙ d in
          absurd (omega (arith, bit_and_self n (a / 2) (omega (arith, pow-suc 2 n))))
      | no m ↦
          let s : a / 2 - 1 ≡ (a - 1) / 2 = omega arith in
          let r =
            power_of_and n (a / 2) (omega (arith, pow-suc 2 n)) (λ q. omega arith)
              (ap (bit_and (a / 2)) s ∙ d) in
          (suc r.0, omega (arith, pow-suc 2 r.0, r.1))
    ]

log-power : (lib : Startle) (k : ℕ) → lib.int_log2l (2 ^ k) ≡ k
log-power lib k = elim (dec_le k (lib.int_log2l (2 ^ k))) [
  | yes m ↦ omega (arith, lib.int_log2l_least (2 ^ k) k (omega arith))
  | no m ↦
      let l = lib.int_log2l (2 ^ k) in
      absurd (
        omega (
          arith,
          lib.int_log2l_above (2 ^ k),
          pow-suc 2 l,
          pow-le-pow_right {n = 2} (omega arith) {i = 0} {j = l} (omega arith),
          pow-le-pow_right {n = 2} (omega arith) {i = suc l} {j = k} (omega arith),
        ))
]

*ℤ_comm : (a b : ℤ) → a *ℤ b ≡ b *ℤ a
unfolding ◌*ℤ◌
*ℤ_comm (pos a) (pos b) = grind arith
*ℤ_comm (pos a) (negsuc b) = grind arith
*ℤ_comm (negsuc a) (pos b) = grind arith
*ℤ_comm (negsuc a) (negsuc b) = grind arith

wrap-negate : (t : ℤ) → wrap (pos 0 -ℤ wrap t) ≡ wrap (pos 0 -ℤ t)
unfolding wrap ◌-ℤ◌
wrap-negate (pos n) = ground arith
wrap-negate (negsuc n) = ground arith

negative_factor : (y : ℤ) (m : ℕ) → negsuc m *ℤ y ≡ pos 0 -ℤ (y *ℤ pos (suc m))
unfolding ◌*ℤ◌ ◌-ℤ◌
negative_factor (pos a) m = grind arith
negative_factor (negsuc a) m = grind arith

zero_factor : (y : ℤ) → pos 0 *ℤ y ≡ pos 0
unfolding ◌*ℤ◌
zero_factor y = ground arith

one_factor : (y : ℤ) → pos 1 *ℤ y ≡ y
unfolding ◌*ℤ◌
one_factor (pos n) = ground arith
one_factor (negsuc n) = ground arith

eq_of_eqb : (a b : ℤ) → eqb_ℤ a b ≡ true → a ≡ b
eq_of_eqb a b e = ground (arith, eq_of_parts a b)

power-log :
    (lib : Startle) (a : ℕ) → a ≤ 2 ^ 63 → a ≢ 0 → is_power a ≡ true → 2 ^ lib.int_log2l a ≡ a
power-log lib a b z h =
    let r = power_of_and 64 a (omega arith) z (ground arith) in
    ap (λ t. 2 ^ lib.int_log2l t) r.1 ∙ ap (λ t. 2 ^ t) (log-power lib r.0) ∙ sym r.1

positive : (n : ℕ) → ltb_ℤ (pos n) (pos 0) ≡ false
positive n = ground arith

negative : (n : ℕ) → ltb_ℤ (negsuc n) (pos 0) ≡ true
negative n = ground arith

nonzero : (n : ℕ) → eqb_ℤ (pos n) (pos 0) ≡ false → n ≢ 0
nonzero n z e = ground arith

module _ (lib : Startle) (q : Reduced) (value : Reduced → ℤ) where
  shift-mul_op :
      (x : ℤ)
      → IsWord x
      → is_power (magnitude x) ≡ true
      → eqb_ℤ x (pos 0) ≡ false
      → meaning value (
          if ltb_ℤ x (pos 0)
          then build_negate_shiftl q (lib.int_log2l (magnitude x))
          else build_shiftl q (lib.int_log2l (magnitude x)))
        ≡ some (mul_op x (value q))
  unfolding mul_op shiftl_op negate_op
  shift-mul_op (pos n) w h z = rw (positive n) (
      ap (λ t. some (wrap (value q *ℤ pos t))) (power-log lib n (omega arith) (nonzero n z) h)
      ∙ ap (λ t. some (wrap t)) (*ℤ_comm (value q) (pos n)))
  shift-mul_op (negsuc n) w h z = rw (negative n) (
      ap (λ t. some (wrap (pos 0 -ℤ wrap (value q *ℤ pos t))))
        (power-log lib (suc n) (omega arith) (λ e. omega arith) h)
      ∙ ap some (wrap-negate (value q *ℤ pos (suc n)))
      ∙ ap (λ t. some (wrap t)) (sym (negative_factor (value q) n)))

  zero-mul_op :
      (x : ℤ)
      → eqb_ℤ x (pos 0) ≡ true
      → meaning value (if is_var q then build_seq (pos 0) q else val (pos 0))
        ≡ some (mul_op x (value q))
  unfolding mul_op
  zero-mul_op x e =
      let z : some (pos 0) ≡ some (wrap (x *ℤ value q)) =
        rw (eq_of_eqb x (pos 0) e, zero_factor (value q), wrap-eq_of_IsWord (pos 0) (omega arith))
          refl in
      elim (Bool-cases (is_var q)) [ inl v ↦ rw v z | inr v ↦ rw v z ]

  one-mul_op : (x : ℤ) → IsWord (value q) → eqb_ℤ x (pos 1) ≡ true → value q ≡ mul_op x (value q)
  unfolding mul_op
  one-mul_op x w e =
      rw (eq_of_eqb x (pos 1) e, one_factor (value q)) (sym (wrap-eq_of_IsWord (value q) w))

  minus_one-mul_op : (x : ℤ) → eqb_ℤ x (negsuc 0) ≡ true → negate_op (value q) ≡ mul_op x (value q)
  unfolding mul_op negate_op
  minus_one-mul_op x e =
      rw
        (
          eq_of_eqb x (negsuc 0) e,
          negative_factor (value q) 0,
          *ℤ_comm (value q) (pos 1),
          one_factor (value q),
        )
        refl

  factor-Gives :
      (x : ℤ)
      → IsWord x
      → IsWord (value q)
      → Gives value (mul_op x (value q)) (factor_identity lib x q)
  unfolding factor_identity
  factor-Gives x w wq = elim (Bool-cases (eqb_ℤ x (pos 0))) [
    | inl e ↦ rw e (if-Gives value _ true _ none (λ _. zero-mul_op x e) (none-Gives value _))
    | inr e ↦ rw e (
        if-Gives value _ (eqb_ℤ x (pos 1)) (ref q) _ (λ h. ap some (one-mul_op x wq h))
          (if-Gives value _ (eqb_ℤ x (negsuc 0)) (build_negate q) _
            (λ h. ap some (minus_one-mul_op x h))
            (if-Gives value _ (is_power (magnitude x)) _ none (λ h. shift-mul_op x w h e)
              (none-Gives value _))))
  ]

  option-Gives :
      (o : Option ℤ) (x : ℤ)
      → ((v : ℤ) → o ≡ some v → x ≡ v)
      → IsWord x
      → IsWord (value q)
      → Gives value (mul_op x (value q)) (elim o [ none ↦ none | some v ↦ factor_identity lib v q ])
  option-Gives none x known w wq = none-Gives value (mul_op x (value q))
  option-Gives (some v) x known w wq = rw (sym (known v refl)) (factor-Gives x w wq)

  mul_identity_symmetry-Gives :
      (p : Reduced)
      → ((v : ℤ) → p.integer ≡ some v → value p ≡ v)
      → IsWord (value p)
      → IsWord (value q)
      → Gives value (mul_op (value p) (value q)) (mul_identity_symmetry lib p q)
  unfolding mul_identity_symmetry
  mul_identity_symmetry-Gives p known w wq = option-Gives p.integer (value p) known w wq

either-Gives :
    (value : Reduced → ℤ) (z : ℤ) (a b : Option Replacement)
    → Gives value z a
    → Gives value z b
    → Gives value z (elim a [ some res ↦ some res | none ↦ b ])
either-Gives value z none b f g = g
either-Gives value z (some r) b f g = f

-- Where an identity replaces a product, what it gives has the value of the product as the word
-- computes it, wrapped, for every value of the variables; INTPTR_MIN counts as a power of 2.
pub mul_identity-Sound :
    (lib : Startle) (p q : Reduced) (value : Reduced → ℤ) (r : Replacement)
    → IsValuation p q value
    → mul_identity lib p q ≡ some r
    → meaning value r ≡ some (mul_op (value p) (value q))
unfolding mul_identity mul_op
mul_identity-Sound lib p q value r known =
    let c : mul_op (value q) (value p) ≡ mul_op (value p) (value q) =
      ap wrap (*ℤ_comm (value q) (value p)) in
    either-Gives value (mul_op (value p) (value q)) (mul_identity_symmetry lib p q)
      (mul_identity_symmetry lib q p)
      (mul_identity_symmetry-Gives lib q value p known.left known.left_word known.right_word)
      (rw (sym c)
        (mul_identity_symmetry-Gives lib p value q known.right known.right_word known.left_word))
      r
