-- ===== src/Parse/Expr/Quotes.antt =====
-- The loop over the expressions of a quote in `parse_subexpr` of parse/parse.c, branch by branch.
use poprc.Prelude.{
  ℕ, suc, ◌≡◌, ◌≢◌, inl, inr, refl, sym, ◌∙◌, true, false, ◌||◌, List, [], ◌∷◌, none, some, ltb,
  Bool-cases,
}
use poprc.Token.Class.{done, thrown, cc_comma, cc_bracket, ◌=c◌}
use poprc.Token.Lex.{Token}
use poprc.Parse.Words.{tok_seg}
use poprc.Parse.Expr.{
  CellBuilder, max_parse_depth, Punctuation, closing, comma, word, char_kind, punctuation, Frame,
  raise, fail, next, push_arg, Parsed, give_up,
}
use poprc.Parse.Expr.Loop.{tokens, quote, empty_frame, subexpr_loop}

-- A bracket or a comma is of its kind by its character.
pub char_kind_lem :
    (text : List ℕ) (t : Token) (r : Punctuation)
    → punctuation text t ≡ r
    → r ≢ word
    → char_kind text t ≡ r
unfolding punctuation
char_kind_lem text t r h n = elim (Bool-cases ((t.class =c cc_comma) || (t.class =c cc_bracket))) [
  | inl e ↦ sym (single e) ∙ h
  | inr e ↦ absurd (n (sym h ∙ other e))
]
  where
    single :
        ((t.class =c cc_comma) || (t.class =c cc_bracket)) ≡ true
        → punctuation text t ≡ char_kind text t
    single e = rw (punctuation, e) refl

    other : ((t.class =c cc_comma) || (t.class =c cc_bracket)) ≡ false → punctuation text t ≡ word
    other e = rw (punctuation, e) refl

pub closing_not_word : closing ≢ word
closing_not_word h = cc

pub comma_not_word : comma ≢ word
comma_not_word h = cc

module _ (b : CellBuilder) (text : List ℕ) where
  -- The loop over the expressions of a quote, by what is read and what follows
  module _ (k depth : ℕ) (t : Token) (toks : List Token) (f : Frame b) where
    pub too_deep :
        ltb (suc depth) max_parse_depth ≡ false
        → subexpr_loop b text (suc k) (quote t) depth toks f ≡ thrown
    unfolding subexpr_loop
    too_deep d = rw (subexpr_loop, d) refl

    module _ (d : ltb (suc depth) max_parse_depth ≡ true) where
      pub inner_thrown :
          subexpr_loop b text k tokens (suc depth) toks (empty_frame b text f.store) ≡ thrown
          → subexpr_loop b text (suc k) (quote t) depth toks f ≡ thrown
      unfolding subexpr_loop
      inner_thrown e = rw (subexpr_loop, d, e) refl

      module _ (p : Parsed b)
          (e : subexpr_loop b text k tokens (suc depth) toks (empty_frame b text f.store)
            ≡ done p) where
        pub inner_none :
            p.list ≡ none
            → subexpr_loop b text (suc k) (quote t) depth toks f
              ≡ give_up b (record f { store = p.store }) p.rest
        unfolding subexpr_loop
        inner_none l = rw (subexpr_loop, d, e, l) refl

        module _ (c : ℕ) (l : p.list ≡ some c) (u : Token) (us : List Token)
            (r : p.rest ≡ u ∷ us) where
          pub inner_raise :
              push_arg b (tok_seg text t) c (record f { store = p.store }) ≡ raise
              → subexpr_loop b text (suc k) (quote t) depth toks f ≡ thrown
          unfolding subexpr_loop
          inner_raise q = rw (subexpr_loop, d, e, l, r, q) refl

          pub inner_fail :
              (f' : Frame b)
              → push_arg b (tok_seg text t) c (record f { store = p.store }) ≡ fail f'
              → subexpr_loop b text (suc k) (quote t) depth toks f ≡ give_up b f' us
          unfolding subexpr_loop
          inner_fail f' q = rw (subexpr_loop, d, e, l, r, q) refl

          module _ (f' : Frame b)
              (q : push_arg b (tok_seg text t) c (record f { store = p.store }) ≡ next f') where
            pub inner_closing :
                char_kind text u ≡ closing
                → subexpr_loop b text (suc k) (quote t) depth toks f
                  ≡ subexpr_loop b text k tokens depth us f'
            unfolding subexpr_loop
            inner_closing w = rw (subexpr_loop, d, e, l, r, q, w) refl

            pub inner_comma :
                (v : Token) (vs : List Token)
                → us ≡ v ∷ vs
                → char_kind text u ≡ comma
                → subexpr_loop b text (suc k) (quote t) depth toks f
                  ≡ subexpr_loop b text k (quote t) depth (v ∷ vs) f'
            unfolding subexpr_loop
            inner_comma v vs n w = rw (subexpr_loop, d, e, l, r, q, w, n) refl

            pub inner_comma_end :
                us ≡ []
                → char_kind text u ≡ comma
                → subexpr_loop b text (suc k) (quote t) depth toks f ≡ give_up b f' []
            unfolding subexpr_loop
            inner_comma_end n w = rw (subexpr_loop, d, e, l, r, q, w, n) refl
