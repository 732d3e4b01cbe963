-- ===== src/Arithmetic/Identities.antt =====
-- The identities of primitive/arithmetic.c, by which a word is replaced before it is computed: add,
-- sub, div and the comparisons.
pub mod Sound
pub mod Product
use native.Mathlib.Omega.{arith}
use native.Mathlib.Nat.{div_self as nat_div_self}
use Prim.Native.Nat.{bit_and}
use poprc.Prelude.{
  suc, ◌-◌, ℕ, zero, suc, ◌≡◌, ◌≢◌, refl, ap, sym, ◌∙◌, Bool, true, false, ◌&&◌, ◌||◌, not, Option,
  none, some, ◌==◌, if◌then◌else◌, Bool-cases, Option-cases, inl, inr, some_inj,
}
use poprc.Prelude.Int.{
  ℤ, pos, negsuc, ltb_ℤ, eqb_ℤ, ◌+ℤ◌, ◌-ℤ◌, ◌/ℤ◌, eq_of_parts, +ℤ_parts, -ℤ_parts,
}
use poprc.Widths.{Startle}
use poprc.Words.{IsWord, wrap}
use poprc.Words.Wrap.{wrap-eq_of_IsWord}
use poprc.Arithmetic.{
  add_op, sub_op, div_op, mod_op, negate_op, shiftl_op, bitand_op, bitor_op, bitxor_op, gt_op,
  gte_op, lt_op, lte_op, eq_op, neq_op,
}

-- A reduced argument: its cell, the integer if it is known, and for a variable the cell of the trace
-- that it stands for, or 0 if there is none.
pub record Reduced : Type 0 where
  pub cell : ℕ
  pub integer : Option ℤ
  pub var : ℕ

abbrev pub is_var : Reduced → Bool
is_var p = elim p.integer [ none ↦ true | some v ↦ false ]

abbrev pub is_constant : Reduced → ℤ → Bool
is_constant p v = elim p.integer [ none ↦ false | some w ↦ eqb_ℤ w v ]

abbrev pub same_var : Reduced → Reduced → Bool
same_var p q = (p.cell == q.cell) || (is_var p && is_var q && not (p.var == 0) && (p.var == q.var))

-- What a word is replaced by
pub data Replacement : Type 0 where
  ref : Reduced → Replacement
  val : ℤ → Replacement
  build_negate : Reduced → Replacement
  fail_cell : Replacement
  build_seq : ℤ → Reduced → Replacement
  build_shiftl : Reduced → ℕ → Replacement
  build_negate_shiftl : Reduced → ℕ → Replacement

unfoldable pub add_identity : Reduced → Reduced → Option Replacement
add_identity p q =
    if is_constant p (pos 0)
    then some (ref q)
    else if is_constant q (pos 0)
    then some (ref p)
    else none

unfoldable pub sub_identity : Reduced → Reduced → Option Replacement
sub_identity p q =
    if same_var p q
    then some (val (pos 0))
    else if is_constant p (pos 0)
    then some (build_negate q)
    else if is_constant q (pos 0)
    then some (ref p)
    else none

unfoldable pub div_identity : Reduced → Reduced → Option Replacement
div_identity p q =
    if same_var p q
    then some (val (pos 1))
    else if is_constant q (pos 0)
    then some fail_cell
    else if is_constant q (pos 1)
    then some (ref p)
    else if is_constant q (negsuc 0)
    then some (build_negate p)
    else none

-- SYM_True is 1 and SYM_False is 0.
unfoldable pub eq_identity : Reduced → Reduced → Option Replacement
eq_identity p q = if same_var p q then some (val (pos 1)) else none

unfoldable pub neq_identity : Reduced → Reduced → Option Replacement
neq_identity p q = if same_var p q then some (val (pos 0)) else none

abbrev pub no_identity : Reduced → Reduced → Option Replacement
no_identity p q = none

abbrev pub magnitude : ℤ → ℕ
magnitude (pos n) = n
magnitude (negsuc n) = suc n

-- `x & x-1` is 0.
abbrev pub is_power : ℕ → Bool
is_power a = bit_and a (a - 1) == 0

-- The magnitude is read as an unsigned word, so that of INTPTR_MIN is 2 ^ 63.
unfoldable pub factor_identity : Startle → ℤ → Reduced → Option Replacement
factor_identity lib x q =
    if eqb_ℤ x (pos 0)
    then some (if is_var q then build_seq (pos 0) q else val (pos 0))
    else if eqb_ℤ x (pos 1)
    then some (ref q)
    else if eqb_ℤ x (negsuc 0)
    then some (build_negate q)
    else if is_power (magnitude x)
    then some (
        if ltb_ℤ x (pos 0)
        then build_negate_shiftl q (lib.int_log2l (magnitude x))
        else build_shiftl q (lib.int_log2l (magnitude x)))
    else none

unfoldable pub mul_identity_symmetry : Startle → Reduced → Reduced → Option Replacement
mul_identity_symmetry lib p q = elim p.integer [ none ↦ none | some x ↦ factor_identity lib x q ]

unfoldable pub mul_identity : Startle → Reduced → Reduced → Option Replacement
mul_identity lib p q = elim (mul_identity_symmetry lib p q) [
  | some res ↦ some res
  | none ↦ mul_identity_symmetry lib q p
]

-- The words on two integers, but for `*`, as their definitions pair operations and identities.
pub data Word2 : Type 0 where
  word_add word_sub word_div word_mod word_bitand word_bitor word_bitxor word_gt word_gte word_lt
        word_lte word_eq word_neq :
      Word2

-- `none` where C does not define the division.
abbrev pub op_of : Word2 → ℤ → ℤ → Option ℤ
op_of word_add x y = some (add_op x y)
op_of word_sub x y = some (sub_op x y)
op_of word_div x y = div_op x y
op_of word_mod x y = mod_op x y
op_of word_bitand x y = some (bitand_op x y)
op_of word_bitor x y = some (bitor_op x y)
op_of word_bitxor x y = some (bitxor_op x y)
op_of word_gt x y = some (gt_op x y)
op_of word_gte x y = some (gte_op x y)
op_of word_lt x y = some (lt_op x y)
op_of word_lte x y = some (lte_op x y)
op_of word_eq x y = some (eq_op x y)
op_of word_neq x y = some (neq_op x y)

abbrev pub identity_of : Word2 → Reduced → Reduced → Option Replacement
identity_of word_add = add_identity
identity_of word_sub = sub_identity
identity_of word_div = div_identity
identity_of word_mod = no_identity
identity_of word_bitand = no_identity
identity_of word_bitor = no_identity
identity_of word_bitxor = no_identity
identity_of word_gt = neq_identity
identity_of word_gte = eq_identity
identity_of word_lt = neq_identity
identity_of word_lte = eq_identity
identity_of word_eq = eq_identity
identity_of word_neq = neq_identity

-- The values of the arguments: a known one is what it is, and the same variable has one value.
pub record IsValuation (p q : Reduced) (value : Reduced → ℤ) : Type 0 where
  pub left : (v : ℤ) → p.integer ≡ some v → value p ≡ v
  pub right : (v : ℤ) → q.integer ≡ some v → value q ≡ v
  pub same : same_var p q ≡ true → value p ≡ value q
  pub left_word : IsWord (value p)
  pub right_word : IsWord (value q)

-- `none` is a failure.
abbrev pub meaning : (Reduced → ℤ) → Replacement → Option ℤ
meaning value (ref p) = some (value p)
meaning value (val v) = some v
meaning value (build_negate p) = some (negate_op (value p))
meaning value fail_cell = none
meaning value (build_seq v p) = some v
meaning value (build_shiftl p n) = some (shiftl_op (value p) n)
meaning value (build_negate_shiftl p n) = some (negate_op (shiftl_op (value p) n))
