-- ===== src/Parse/Defs/Checks.antt =====
-- What `check_def` of parse/parse.c accepts.
use native.Mathlib.Omega.{arith}
use poprc.Prelude.{
  ℕ, ◌≡◌, ◌↔◌, refl, Bool, true, false, ◌&&◌, ◌||◌, not, List, [], ◌∷◌, Bool-cases, inl, inr, ◌=t◌,
}
use mathlib.Core.List.{cons≢nil}
use poprc.Token.Lex.{Token}
use poprc.Parse.Words.{tok_seg, is_reserved, match, word_module}
use poprc.Parse.Defs.{check_reserved, or_else, check_exprs, check_modules, check_def}

-- A reserved word in an expression, or in any of several
abbrev pub has_reserved : List ℕ → List Token → Bool
has_reserved text [] = false
has_reserved text (t ∷ ts) = is_reserved (tok_seg text t) || has_reserved text ts

abbrev pub any_reserved : List ℕ → List (List Token) → Bool
any_reserved text [] = false
any_reserved text (p ∷ ps) = has_reserved text p || any_reserved text ps

check_reserved-null :
    (text : List ℕ) (ts : List Token)
    → (check_reserved text ts ≡ []) ↔ (has_reserved text ts ≡ false)
unfolding check_reserved
check_reserved-null text [] = (λ h. refl, λ h. refl)
check_reserved-null text (t ∷ ts) = elim (Bool-cases (is_reserved (tok_seg text t))) [
  | inl e ↦ rw e (λ h. absurd (cons≢nil h), λ h. absurd (ground (arith, h)))
  | inr e ↦ rw e (check_reserved-null text ts)
]

or_else-null : (a b : List Token) → (or_else a b ≡ []) ↔ ((a ≡ []) × (b ≡ []))
or_else-null [] b = (λ h. (refl, h), λ (h, k). k)
or_else-null (t ∷ ts) b = (λ h. absurd (cons≢nil h), λ (h, k). absurd (cons≢nil h))

check_exprs-null :
    (text : List ℕ) (ps : List (List Token))
    → (check_exprs text ps ≡ []) ↔ (any_reserved text ps ≡ false)
check_exprs-null text [] = (λ h. refl, λ h. refl)
check_exprs-null text (p ∷ ps) =
    let both = or_else-null (check_reserved text p) (check_exprs text ps) in
    let here = check_reserved-null text p in
    let there = check_exprs-null text ps in
    (
      λ h. let (a, b) = both.0 h in ground (arith, here.0 a, there.0 b),
      λ h. both.1 (here.1 (ground (arith, h)), there.1 (ground (arith, h))),
    )

-- A definition that does not start with `module` is accepted exactly if no reserved word stands in it.
pub check_def-words :
    (text : List ℕ) (p : List Token) (ps : List (List Token))
    → match text p word_module ≡ false
    → (check_def text (p ∷ ps) ≡ []) ↔ (any_reserved text (p ∷ ps) ≡ false)
unfolding check_def
check_def-words text p ps h = rw (check_def, h) (check_exprs-null text (p ∷ ps))

-- Pairs of the word `module` and a name
abbrev pub are_modules : List ℕ → List (List Token) → Bool
are_modules text [] = true
are_modules text ((t ∷ (n ∷ [])) ∷ ps) =
    match text (t ∷ []) word_module && not (is_reserved (tok_seg text n)) && are_modules text ps
are_modules text (p ∷ ps) = false

abbrev pub has_two : List Token → Bool
has_two [] = false
has_two (t ∷ []) = false
has_two (t ∷ (n ∷ ts)) = true

abbrev pub all_have_two : List (List Token) → Bool
all_have_two [] = true
all_have_two (p ∷ ps) = has_two p && all_have_two ps

check_modules-null :
    (text : List ℕ) (ps : List (List Token))
    → all_have_two ps ≡ true
    → (check_modules text ps ≡ []) ↔ (are_modules text ps ≡ true)
check_modules-null text [] h = (λ k. refl, λ k. refl)
check_modules-null text ([] ∷ ps) h = absurd (ground (arith, h))
check_modules-null text ((t ∷ []) ∷ ps) h = absurd (ground (arith, h))
check_modules-null text ((t ∷ (n ∷ [])) ∷ ps) h =
    elim (Bool-cases (word_module =t tok_seg text t)) [
      | inl e ↦ elim (Bool-cases (is_reserved (tok_seg text n))) [
        | inl r ↦ rw (e, r) (λ k. absurd (cons≢nil k), λ k. absurd (ground (arith, k)))
        | inr r ↦ rw (e, r) (check_modules-null text ps (ground (arith, h)))
      ]
      | inr e ↦ rw e (λ k. absurd (cons≢nil k), λ k. absurd (ground (arith, k)))
    ]
check_modules-null text ((t ∷ (n ∷ (u ∷ ts))) ∷ ps) h =
    elim (Bool-cases (word_module =t tok_seg text t)) [
      | inl e ↦ elim (Bool-cases (is_reserved (tok_seg text n))) [
        | inl r ↦ rw (e, r) (λ k. absurd (cons≢nil k), λ k. absurd (ground (arith, k)))
        | inr r ↦ rw (e, r) (λ k. absurd (cons≢nil k), λ k. absurd (ground (arith, k)))
      ]
      | inr e ↦ rw e (λ k. absurd (cons≢nil k), λ k. absurd (ground (arith, k)))
    ]

-- A definition that starts with `module`, and whose expressions have two tokens or more, is accepted
-- exactly if each is that word and a name.
pub check_def-modules :
    (text : List ℕ) (p : List Token) (ps : List (List Token))
    → match text p word_module ≡ true
    → all_have_two (p ∷ ps) ≡ true
    → (check_def text (p ∷ ps) ≡ []) ↔ (are_modules text (p ∷ ps) ≡ true)
unfolding check_def
check_def-modules text p ps h k = rw (check_def, h) (check_modules-null text (p ∷ ps) k)
