-- ===== src/Token/Lex/Progress.antt =====
-- Where `lex` of parse/lex.c stops, and the order and the lines of its tokens.
use poprc.Prelude.{
  ℕ, zero, suc, ◌+◌, ◌-◌, ◌≤◌, ◌<◌, ◌≡◌, refl, ap, sym, ◌∙◌, ◌≢◌, ◌⊎◌, inl, inr, true, false, List,
  [], ◌∷◌, arith, ◌==◌, if◌then◌else◌, get_or, length, Bool-cases,
}
use poprc.Token.Lex.{Token, update_line}

-- The line of place `s` starts at `line`: it is the first one or starts behind a newline, and no
-- newline stands between.
pub record IsLineOf (text : List ℕ) (s line : ℕ) : Type 0 where
  pub above : line ≤ s
  pub starts : (line ≡ 0) ⊎ (get_or text (line - 1) 0 ≡ 10)
  pub unbroken : (i : ℕ) → line ≤ i → i < s → get_or text i 0 ≢ 10

IsLineOf-suc :
    (text : List ℕ) (s line : ℕ)
    → IsLineOf text s line
    → get_or text s 0 ≢ 10
    → IsLineOf text (suc s) line
IsLineOf-suc text s line l h = record {
  above = omega (arith, l.above);
  starts = l.starts;
  unbroken = λ i lo hi e. elim (Bool-cases (i == s)) [
    | inl q ↦ let same : i ≡ s = ground arith in h (ap (λ j. get_or text j 0) (sym same) ∙ e)
    | inr q ↦ l.unbroken i lo (ground arith) e
  ];
}

module _ (text : List ℕ) where
  -- Where `line` is the start of the line of `start`, `update_line` finds that of the place `k`
  -- characters behind it.
  pub update_line-IsLineOf :
      (start k line : ℕ)
      → IsLineOf text start line
      → IsLineOf text (start + k) (update_line text start k line)
  unfolding update_line
  update_line-IsLineOf start zero line l = rw (add_zero start) l
    where
      add_zero : (n : ℕ) → n + 0 ≡ n
      add_zero n = omega arith
  update_line-IsLineOf start (suc k) line l =
      let q = start + k in
      let place : start + suc k ≡ suc q = omega arith in
      rw place (
        elim (get_or text q 0 == 10)
            as (λ b.
              (get_or text q 0 == 10) ≡ b
              → IsLineOf text (suc q) (if b then q + 1 else update_line text start k line)) [
                | true ↦ λ e. record {
                  above = omega arith;
                  starts = inr (let here : q + 1 - 1 ≡ q = omega arith in rw here (ground arith));
                  unbroken = λ i lo hi h. omega arith;
                }
                | false ↦ λ e.
                    IsLineOf-suc text q (update_line text start k line)
                      (update_line-IsLineOf start k line l) (ground arith)
              ]
          refl)

  -- What holds of each token.
  pub record IsPlaced (t : Token) : Type 0 where
    pub filled : 0 < t.length
    pub inside : t.location + t.length ≤ length text
    pub lined : IsLineOf text (t.location + t.length) t.line

  -- Tokens from `p` on, in the order of the text and apart from each other.
  pub data InOrder : ℕ → List Token → Type 0 where
    no_more : (p : ℕ) → InOrder p []
    next :
        (p : ℕ) (t : Token) (ts : List Token)
        → p ≤ t.location
        → IsPlaced t
        → InOrder (t.location + t.length) ts
        → InOrder p (t ∷ ts)

  -- The tokens before `s`, the last one first.
  data Before : ℕ → List Token → Type 0 where
    none_yet : (s : ℕ) → Before s []
    last :
        (s : ℕ) (t : Token) (ts : List Token)
        → t.location + t.length ≤ s
        → IsPlaced t
        → Before t.location ts
        → Before s (t ∷ ts)
