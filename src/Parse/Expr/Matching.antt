-- ===== src/Parse/Expr/Matching.antt =====
-- `parse_subexpr` of parse/parse.c ends, and accepts only expressions whose brackets match.
use native.Mathlib.Omega.{arith}
use mathlib.Core.Path.{subst}
use mathlib.Core.List.{append_assoc, append-nil}
use poprc.Prelude.{
  ℕ, zero, suc, ◌+◌, ◌*◌, ◌≤◌, ◌<◌, ◌≡◌, ◌⊎◌, inl, inr, refl, ap, sym, ◌∙◌, true, List, [], ◌∷◌,
  ◌++◌, none, some, ltb, length, length-append, Bool-cases, Option-cases,
}
use poprc.Token.Class.{done, thrown}
use poprc.Token.Lex.{Token}
use poprc.Parse.Words.{tok_seg}
use poprc.Parse.Expr.{
  CellBuilder, max_parse_depth, Punctuation, opening, closing, comma, paren, word, punctuation,
  Frame, Step, raise, fail, next, push_arg, parse_token, Parsed, give_up,
}
use poprc.Parse.Expr.Loop.{
  Mode, tokens, quote, empty_frame, at_end, subexpr_loop, parse_subexpr, parse_expr,
}
use poprc.Parse.Expr.Grammar.{
  Expression, a_word, a_quote, the_last, one_more, EndsAt, IsParsed, Outcome, give_up-Outcome,
  finish-Outcome, extend, word_raise, word_fail, word_next, by_punctuation, at_close-Outcome,
}
use poprc.Parse.Expr.Quotes.{
  char_kind_lem, closing_not_word, comma_not_word, too_deep, inner_thrown, inner_none, inner_raise,
  inner_fail, inner_closing, inner_comma, inner_comma_end,
}

-- Rounds enough: two for every token
abbrev pub enough : Mode → List Token → ℕ
enough tokens toks = 2 * length toks + 1
enough (quote t) toks = 2 * length toks + 2

module _ (b : CellBuilder) (text : List ℕ) where
  abbrev Holds : ℕ → Type 0
  Holds k =
      (mode : Mode) (depth : ℕ) (toks : List Token) (f : Frame b)
      → enough mode toks ≤ k
      → Outcome b text mode depth toks (subexpr_loop b text k mode depth toks f)

  at_end-Outcome :
      (depth : ℕ) (f : Frame b) → Outcome b text tokens depth [] (at_end b text depth f)
  at_end-Outcome zero f = finish-Outcome b text zero f [] refl
  at_end-Outcome (suc depth) f = give_up-Outcome b text tokens (suc depth) [] f []

  -- The next token
  module _ (k : ℕ) (ih : Holds k) (depth : ℕ) (t : Token) (ts : List Token) (f : Frame b)
      (h : enough tokens (t ∷ ts) ≤ suc k) where
    abbrev Goal : Type 0
    Goal =
        Outcome b text tokens depth (t ∷ ts) (subexpr_loop b text (suc k) tokens depth (t ∷ ts) f)

    word-Outcome : punctuation text t ≡ word → (s : Step b) → parse_token b text t f ≡ s → Goal
    word-Outcome e raise q = inl (word_raise b text k depth t ts f e q)
    word-Outcome e (fail f') q =
        subst (Outcome b text tokens depth (t ∷ ts)) (sym (word_fail b text k depth t ts f f' e q))
          (give_up-Outcome b text tokens depth (t ∷ ts) f' ts)
    word-Outcome e (next f') q =
        subst (Outcome b text tokens depth (t ∷ ts)) (sym (word_next b text k depth t ts f f' e q))
          (extend b text tokens tokens depth ts (t ∷ ts) (subexpr_loop b text k tokens depth ts f')
            (λ ws rest p s. (t ∷ ws, ap (λ z. t ∷ z) p, a_word t ws e s))
            (ih tokens depth ts f' (omega (arith, h))))

    token-Outcome : (r : Punctuation) → punctuation text t ≡ r → Goal
    token-Outcome word e = word-Outcome e (parse_token b text t f) refl
    token-Outcome comma e =
        subst (Outcome b text tokens depth (t ∷ ts))
          (sym (by_punctuation b text k depth t ts f comma e))
          (at_close-Outcome b text depth f t ts (inl e))
    token-Outcome closing e =
        subst (Outcome b text tokens depth (t ∷ ts))
          (sym (by_punctuation b text k depth t ts f closing e))
          (at_close-Outcome b text depth f t ts (inr e))
    token-Outcome paren e =
        subst (Outcome b text tokens depth (t ∷ ts))
          (sym (by_punctuation b text k depth t ts f paren e))
          (give_up-Outcome b text tokens depth (t ∷ ts) f ts)
    token-Outcome opening e =
        subst (Outcome b text tokens depth (t ∷ ts))
          (sym (by_punctuation b text k depth t ts f opening e))
          (extend b text (quote t) tokens depth ts (t ∷ ts)
            (subexpr_loop b text k (quote t) depth ts f)
            (λ ws rest p (qs, us, sp, al, ex). (
              t ∷ (qs ++ us),
              ap (λ z. t ∷ z) (p ∙ ap (λ z. z ++ rest) sp),
              a_quote t qs us e al ex,
            ))
            (ih (quote t) depth ts f (omega (arith, h))))

  -- An expression of a quote
  module _ (k : ℕ) (ih : Holds k) (depth : ℕ) (t : Token) (toks : List Token) (f : Frame b)
      (h : enough (quote t) toks ≤ suc k) (d : ltb (suc depth) max_parse_depth ≡ true) where
    abbrev QuoteGoal : Type 0
    QuoteGoal =
        Outcome b text (quote t) depth toks (subexpr_loop b text (suc k) (quote t) depth toks f)

    given_up :
        (f' : Frame b) (rest : List Token)
        → subexpr_loop b text (suc k) (quote t) depth toks f ≡ give_up b f' rest
        → QuoteGoal
    given_up f' rest e =
        subst (Outcome b text (quote t) depth toks) (sym e)
          (give_up-Outcome b text (quote t) depth toks f' rest)

    module _ (p : Parsed b)
        (e : subexpr_loop b text k tokens (suc depth) toks (empty_frame b text f.store) ≡ done p)
        (q : IsParsed b text tokens (suc depth) toks p) (c : ℕ) (l : p.list ≡ some c) (u : Token)
        (us : List Token) (r : p.rest ≡ u ∷ us) where
      whole : toks ≡ q.passed ++ (u ∷ us)
      whole = q.split ∙ ap (λ z. q.passed ++ z) r

      shorter : length us + 1 ≤ length toks
      shorter = omega (arith, ap length whole, length-append q.passed (u ∷ us))

      closing-Outcome :
          (f' : Frame b)
          → push_arg b (tok_seg text t) c (record f { store = p.store }) ≡ next f'
          → punctuation text u ≡ closing
          → QuoteGoal
      closing-Outcome f' s w =
          subst (Outcome b text (quote t) depth toks)
            (sym (
              inner_closing b text k depth t toks f d p e c l u us r f' s
                (char_kind_lem text u closing w closing_not_word)))
            (extend b text tokens (quote t) depth us toks (subexpr_loop b text k tokens depth us f')
              (λ ws rest z ex. (
                (q.passed ++ (u ∷ [])) ++ ws,
                whole
                    ∙ ap (λ m. q.passed ++ (u ∷ m)) z
                    ∙ sym (append_assoc q.passed (u ∷ []) (ws ++ rest))
                    ∙ sym (append_assoc (q.passed ++ (u ∷ [])) ws rest),
                (q.passed ++ (u ∷ []), ws, refl, the_last q.passed u q.shape w, ex),
              ))
              (ih tokens depth us f' (omega (arith, h, shorter))))

      comma-Outcome :
          (f' : Frame b)
          → push_arg b (tok_seg text t) c (record f { store = p.store }) ≡ next f'
          → punctuation text u ≡ comma
          → (vs : List Token) → us ≡ vs
          → QuoteGoal
      comma-Outcome f' s w [] n = given_up f' [] (
          inner_comma_end b text k depth t toks f d p e c l u us r f' s n
            (char_kind_lem text u comma w comma_not_word))
      comma-Outcome f' s w (v ∷ vs) n =
          subst (Outcome b text (quote t) depth toks)
            (sym (
              inner_comma b text k depth t toks f d p e c l u us r f' s v vs n
                (char_kind_lem text u comma w comma_not_word)))
            (extend b text (quote t) (quote t) depth (v ∷ vs) toks
              (subexpr_loop b text k (quote t) depth (v ∷ vs) f')
              (λ ws rest z (qs, xs, sp, al, ex). (
                q.passed ++ (u ∷ ws),
                whole
                    ∙ ap (λ m. q.passed ++ (u ∷ m)) (n ∙ z)
                    ∙ sym (append_assoc q.passed (u ∷ ws) rest),
                (
                  q.passed ++ (u ∷ qs),
                  xs,
                  ap (λ m. q.passed ++ (u ∷ m)) sp ∙ sym (append_assoc q.passed (u ∷ qs) xs),
                  one_more q.passed u qs q.shape w al,
                  ex,
                ),
              ))
              (ih (quote t) depth (v ∷ vs) f' (omega (arith, h, shorter, ap length n))))

      pushed-Outcome :
          (s : Step b)
          → push_arg b (tok_seg text t) c (record f { store = p.store }) ≡ s
          → (punctuation text u ≡ comma) ⊎ (punctuation text u ≡ closing)
          → QuoteGoal
      pushed-Outcome raise s w = inl (inner_raise b text k depth t toks f d p e c l u us r s)
      pushed-Outcome (fail f') s w =
          given_up f' us (inner_fail b text k depth t toks f d p e c l u us r f' s)
      pushed-Outcome (next f') s (inl w) = comma-Outcome f' s w us refl
      pushed-Outcome (next f') s (inr w) = closing-Outcome f' s w

    rest-Outcome :
        (p : Parsed b)
        → subexpr_loop b text k tokens (suc depth) toks (empty_frame b text f.store) ≡ done p
        → IsParsed b text tokens (suc depth) toks p
        → (c : ℕ) → p.list ≡ some c
        → (rest : List Token) → p.rest ≡ rest
        → QuoteGoal
    rest-Outcome p e q c l [] r = absurd (subst (EndsAt text (suc depth)) r q.ends)
    rest-Outcome p e q c l (u ∷ us) r =
        pushed-Outcome p e q c l u us r
          (push_arg b (tok_seg text t) c (record f { store = p.store })) refl
          (subst (EndsAt text (suc depth)) r q.ends)

    quote-Outcome :
        Outcome b text tokens
          (suc depth)
          toks
          (subexpr_loop b text k tokens (suc depth) toks (empty_frame b text f.store))
        → QuoteGoal
    quote-Outcome (inl e) = inl (inner_thrown b text k depth t toks f d e)
    quote-Outcome (inr (p, e, inl n)) =
        given_up (record f { store = p.store }) p.rest (inner_none b text k depth t toks f d p e n)
    quote-Outcome (inr (p, e, inr q)) = elim (Option-cases p.list) [
      | inl n ↦
          given_up (record f { store = p.store }) p.rest
            (inner_none b text k depth t toks f d p e n)
      | inr (c, l) ↦ rest-Outcome p e q c l p.rest refl
    ]

  end_lem :
      (k depth : ℕ) (f : Frame b)
      → subexpr_loop b text (suc k) tokens depth [] f ≡ at_end b text depth f
  unfolding subexpr_loop
  end_lem k depth f = refl

  loop-Outcome : (k : ℕ) → Holds k
  loop-Outcome zero tokens depth toks f h = absurd (omega (arith, h))
  loop-Outcome zero (quote t) depth toks f h = absurd (omega (arith, h))
  loop-Outcome (suc k) tokens depth [] f h =
      subst (Outcome b text tokens depth []) (sym (end_lem k depth f)) (at_end-Outcome depth f)
  loop-Outcome (suc k) tokens depth (t ∷ ts) f h =
      token-Outcome k (loop-Outcome k) depth t ts f h (punctuation text t) refl
  loop-Outcome (suc k) (quote t) depth toks f h =
      elim (Bool-cases (ltb (suc depth) max_parse_depth)) [
        | inl d ↦
            quote-Outcome k (loop-Outcome k) depth t toks f h d (
              loop-Outcome k tokens (suc depth) toks (empty_frame b text f.store)
                (omega (arith, h)))
        | inr d ↦ inl (too_deep b text k depth t toks f d)
      ]

  -- With two rounds for every token, the parsing of an expression ends: an assertion fails, no list is
  -- returned, or all tokens are read, and they are words and quotes whose brackets match.
  pub parse_expr-Expression :
      (k : ℕ) (toks : List Token) (st : b.Store)
      → 2 * length toks < k
      → (parse_expr b text k toks st ≡ thrown)
        ⊎ ((p : Parsed b) × (parse_expr b text k toks st ≡ done p)
            × ((p.list ≡ none) ⊎ ((p.rest ≡ []) × Expression text toks)))
  unfolding parse_expr parse_subexpr
  parse_expr-Expression k toks st h =
      elim (loop-Outcome k tokens 0 toks (empty_frame b text st) (omega (arith, h))) [
        | inl e ↦ inl e
        | inr (p, e, inl n) ↦ inr (p, e, inl n)
        | inr (p, e, inr q) ↦ inr (
          p,
          e,
          inr (
            q.ends,
            subst (Expression text)
                (sym (q.split ∙ ap (λ z. q.passed ++ z) q.ends ∙ append-nil q.passed)) q.shape,
          ),
        )
      ]
