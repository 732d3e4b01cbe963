-- ===== src/Arithmetic/Identities/Sound.antt =====
-- The identities of primitive/arithmetic.c against the operations that they stand for.
use native.Mathlib.Omega.{arith}
use mathlib.Core.Path.{subst}
use native.Mathlib.Nat.{div_self as nat_div_self}
use poprc.Prelude.{
  zero, suc, ◌≡◌, ◌≢◌, refl, ap, sym, ◌∙◌, Bool, true, false, Option, none, some, if◌then◌else◌,
  some_inj,
}
use poprc.Prelude.Int.{ℤ, pos, negsuc, eqb_ℤ, ◌+ℤ◌, ◌-ℤ◌, ◌/ℤ◌, eq_of_parts, +ℤ_parts, -ℤ_parts}
use poprc.Words.{IsWord, wrap}
use poprc.Words.Wrap.{wrap-eq_of_IsWord}
use poprc.Arithmetic.{
  add_op, sub_op, div_op, undefined_quotient, negate_op, gt_op, gte_op, lt_op, lte_op, eq_op,
  neq_op,
}
use poprc.Arithmetic.Identities.{
  Reduced, is_constant, same_var, Replacement, ref, val, build_negate, fail_cell, add_identity,
  sub_identity, div_identity, eq_identity, neq_identity, Word2, word_add, word_sub, word_div,
  word_gt, word_gte, word_lt, word_lte, word_eq, word_neq, op_of, identity_of, IsValuation, meaning,
}

-- A replacement that has the value `z`
abbrev pub Gives : (Reduced → ℤ) → ℤ → Option Replacement → Type 0
Gives value z o = (r : Replacement) → o ≡ some r → meaning value r ≡ some z

module _ (value : Reduced → ℤ) (z : ℤ) where
  pub none-Gives : Gives value z none
  none-Gives r e = grind arith

  pub if-Gives :
      (c : Bool) (r : Replacement) (o : Option Replacement)
      → (c ≡ true → meaning value r ≡ some z)
      → Gives value z o
      → Gives value z (if c then some r else o)
  if-Gives true r o t f s e = rw (sym (some_inj e)) (t refl)
  if-Gives false r o t f s e = f s e

pub constant-value :
    (o : Option ℤ) (v z : ℤ)
    → ((w : ℤ) → o ≡ some w → z ≡ w)
    → elim o [ none ↦ false | some w ↦ eqb_ℤ w v ] ≡ true
    → z ≡ v
constant-value none v z known e = grind arith
constant-value (some w) v z known e = known w refl ∙ ground (arith, eq_of_parts w v)

zero_add : (a b : ℤ) → IsWord b → a ≡ pos 0 → b ≡ add_op a b
unfolding add_op
zero_add a b h e =
    let s : a +ℤ b ≡ b = grind (arith, eq_of_parts, +ℤ_parts a b) in
    sym (ap wrap s ∙ wrap-eq_of_IsWord b h)

add_zero : (a b : ℤ) → IsWord a → b ≡ pos 0 → a ≡ add_op a b
unfolding add_op
add_zero a b h e =
    let s : a +ℤ b ≡ a = grind (arith, eq_of_parts, +ℤ_parts a b) in
    sym (ap wrap s ∙ wrap-eq_of_IsWord a h)

sub_self : (a b : ℤ) → a ≡ b → pos 0 ≡ sub_op a b
unfolding sub_op
sub_self a b e =
    let s : a -ℤ b ≡ pos 0 = grind (arith, eq_of_parts, -ℤ_parts a b) in
    sym (ap wrap s ∙ wrap-eq_of_IsWord (pos 0) (omega arith))

zero_sub : (a b : ℤ) → a ≡ pos 0 → negate_op b ≡ sub_op a b
unfolding sub_op negate_op
zero_sub a b e = rw e refl

sub_zero : (a b : ℤ) → IsWord a → b ≡ pos 0 → a ≡ sub_op a b
unfolding sub_op
sub_zero a b h e =
    let s : a -ℤ b ≡ a = grind (arith, eq_of_parts, -ℤ_parts a b) in
    sym (ap wrap s ∙ wrap-eq_of_IsWord a h)

ratio_self : (a : ℤ) → a ≢ pos 0 → a /ℤ a ≡ pos 1
unfolding ◌/ℤ◌
ratio_self (pos zero) h = absurd (h refl)
ratio_self (pos (suc n)) h = ap pos (nat_div_self (omega arith))
ratio_self (negsuc n) h = ap pos (nat_div_self (omega arith))

ratio_one : (a : ℤ) → a /ℤ pos 1 ≡ a
unfolding ◌/ℤ◌
ratio_one (pos n) = ground arith
ratio_one (negsuc n) = ground arith

ratio_minus_one : (a : ℤ) → a /ℤ negsuc 0 ≡ pos 0 -ℤ a
unfolding ◌/ℤ◌ ◌-ℤ◌
ratio_minus_one (pos n) = ground arith
ratio_minus_one (negsuc n) = ground arith

defined_of : (c : Bool) (v z : ℤ) → (if c then none else some v) ≡ some z → (c ≡ false) × (z ≡ v)
defined_of true v z h = grind arith
defined_of false v z h = (refl, sym (some_inj h))

-- A quotient that is defined
quotient_of : (a b z : ℤ) → div_op a b ≡ some z → (undefined_quotient a b ≡ false) × (z ≡ a /ℤ b)
unfolding div_op
quotient_of a b z h = defined_of (undefined_quotient a b) (a /ℤ b) z h

divisor_nonzero : (a b : ℤ) → undefined_quotient a b ≡ false → b ≢ pos 0
divisor_nonzero a (pos zero) h e = cc
divisor_nonzero a (pos (suc n)) h e = cc
divisor_nonzero a (negsuc n) h e = cc

-- INTPTR_MIN is not divided by -1, so the negation of the dividend is a word.
negation-IsWord : (a : ℤ) → IsWord a → undefined_quotient a (negsuc 0) ≡ false → IsWord (pos 0 -ℤ a)
unfolding ◌-ℤ◌
negation-IsWord (pos n) w h = ground arith
negation-IsWord (negsuc n) w h = ground arith

div_self : (a b z : ℤ) → a ≡ b → div_op a b ≡ some z → pos 1 ≡ z
div_self a b z e h =
    let (d, q) = quotient_of a b z h in
    sym (q ∙ ap (λ t. t /ℤ b) e ∙ ratio_self b (divisor_nonzero a b d))

div_one : (a b z : ℤ) → b ≡ pos 1 → div_op a b ≡ some z → a ≡ z
div_one a b z e h = sym ((quotient_of a b z h).1 ∙ ap (λ t. a /ℤ t) e ∙ ratio_one a)

div_minus_one : (a b z : ℤ) → IsWord a → b ≡ negsuc 0 → div_op a b ≡ some z → negate_op a ≡ z
unfolding negate_op
div_minus_one a b z w e h =
    let (d, q) = quotient_of a b z h in
    wrap-eq_of_IsWord (pos 0 -ℤ a) (negation-IsWord a w (ap (undefined_quotient a) (sym e) ∙ d))
    ∙ sym (q ∙ ap (λ t. a /ℤ t) e ∙ ratio_minus_one a)

compare_self :
    (a b : ℤ)
    → a ≡ b
    → (eq_op a b ≡ pos 1)
      × (neq_op a b ≡ pos 0)
      × (gt_op a b ≡ pos 0)
      × (lt_op a b ≡ pos 0)
      × (gte_op a b ≡ pos 1)
      × (lte_op a b ≡ pos 1)
unfolding eq_op neq_op gt_op lt_op gte_op lte_op
compare_self a b e =
    rw e (ground arith, ground arith, ground arith, ground arith, ground arith, ground arith)

module _ (p q : Reduced) (value : Reduced → ℤ) (known : IsValuation p q value) where
  left_constant : (v : ℤ) → is_constant p v ≡ true → value p ≡ v
  left_constant v = constant-value p.integer v (value p) known.left

  right_constant : (v : ℤ) → is_constant q v ≡ true → value q ≡ v
  right_constant v = constant-value q.integer v (value q) known.right

  add_identity-Gives : Gives value (add_op (value p) (value q)) (add_identity p q)
  unfolding add_identity
  add_identity-Gives =
      if-Gives value _ (is_constant p (pos 0)) (ref q) _
        (λ h. ap some (zero_add (value p) (value q) known.right_word (left_constant (pos 0) h)))
        (if-Gives value _ (is_constant q (pos 0)) (ref p) none
          (λ h. ap some (add_zero (value p) (value q) known.left_word (right_constant (pos 0) h)))
          (none-Gives value _))

  sub_identity-Gives : Gives value (sub_op (value p) (value q)) (sub_identity p q)
  unfolding sub_identity
  sub_identity-Gives =
      if-Gives value _ (same_var p q) (val (pos 0)) _
        (λ h. ap some (sub_self (value p) (value q) (known.same h)))
        (if-Gives value _ (is_constant p (pos 0)) (build_negate q) _
          (λ h. ap some (zero_sub (value p) (value q) (left_constant (pos 0) h)))
          (if-Gives value _ (is_constant q (pos 0)) (ref p) none
            (λ h. ap some (sub_zero (value p) (value q) known.left_word (right_constant (pos 0) h)))
            (none-Gives value _)))

  div_identity-Gives :
      (z : ℤ) → div_op (value p) (value q) ≡ some z → Gives value z (div_identity p q)
  unfolding div_identity
  div_identity-Gives z d =
      if-Gives value z (same_var p q) (val (pos 1)) _
        (λ h. ap some (div_self (value p) (value q) z (known.same h) d))
        (if-Gives value z (is_constant q (pos 0)) fail_cell _
          (λ h. absurd (
            divisor_nonzero (value p) (value q) (quotient_of (value p) (value q) z d).0
              (right_constant (pos 0) h)))
          (if-Gives value z (is_constant q (pos 1)) (ref p) _
            (λ h. ap some (div_one (value p) (value q) z (right_constant (pos 1) h) d))
            (if-Gives value z (is_constant q (negsuc 0)) (build_negate p) none
              (λ h. ap some (
                div_minus_one (value p) (value q) z known.left_word (right_constant (negsuc 0) h)
                  d))
              (none-Gives value z))))

  eq_identity-Gives : (z : ℤ) → (value p ≡ value q → z ≡ pos 1) → Gives value z (eq_identity p q)
  unfolding eq_identity
  eq_identity-Gives z h =
      if-Gives value z (same_var p q) (val (pos 1)) none (λ e. ap some (sym (h (known.same e))))
        (none-Gives value z)

  neq_identity-Gives : (z : ℤ) → (value p ≡ value q → z ≡ pos 0) → Gives value z (neq_identity p q)
  unfolding neq_identity
  neq_identity-Gives z h =
      if-Gives value z (same_var p q) (val (pos 0)) none (λ e. ap some (sym (h (known.same e))))
        (none-Gives value z)

  -- The identity of a word gives the value that is computed, if there is one.
  defined-Gives :
      (v z : ℤ) (o : Option Replacement) → Gives value v o → some v ≡ some z → Gives value z o
  defined-Gives v z o g e = subst (λ t. Gives value t o) (some_inj e) g

  identity-Gives :
      (w : Word2) (z : ℤ) → op_of w (value p) (value q) ≡ some z → Gives value z (identity_of w p q)
  identity-Gives word_add z d = defined-Gives _ z _ add_identity-Gives d
  identity-Gives word_sub z d = defined-Gives _ z _ sub_identity-Gives d
  identity-Gives word_div z d = div_identity-Gives z d
  identity-Gives word_gt z d =
      defined-Gives _ z _ (neq_identity-Gives _ (λ e. (compare_self (value p) (value q) e).2)) d
  identity-Gives word_gte z d =
      defined-Gives _ z _ (eq_identity-Gives _ (λ e. (compare_self (value p) (value q) e).4)) d
  identity-Gives word_lt z d =
      defined-Gives _ z _ (neq_identity-Gives _ (λ e. (compare_self (value p) (value q) e).3)) d
  identity-Gives word_lte z d =
      defined-Gives _ z _ (eq_identity-Gives _ (λ e. (compare_self (value p) (value q) e).5)) d
  identity-Gives word_eq z d =
      defined-Gives _ z _ (eq_identity-Gives _ (λ e. (compare_self (value p) (value q) e).0)) d
  identity-Gives word_neq z d =
      defined-Gives _ z _ (neq_identity-Gives _ (λ e. (compare_self (value p) (value q) e).1)) d
  identity-Gives _ z d = none-Gives value z

-- Where an identity replaces one of these words on two arguments, and the word computes a value, the
-- replacement has that value, for every value of the variables. `/` computes none by 0, nor of
-- INTPTR_MIN by -1.
pub identity-Sound :
    (w : Word2) (p q : Reduced) (value : Reduced → ℤ) (z : ℤ) (r : Replacement)
    → IsValuation p q value
    → op_of w (value p) (value q) ≡ some z
    → identity_of w p q ≡ some r
    → meaning value r ≡ some z
identity-Sound w p q value z r known d = identity-Gives p q value known w z d r
