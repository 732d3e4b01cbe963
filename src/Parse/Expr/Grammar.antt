-- ===== src/Parse/Expr/Grammar.antt =====
-- The expressions that `parse_subexpr` of parse/parse.c accepts, by their brackets.
use poprc.Prelude.{
  ℕ, zero, suc, ◌≡◌, ◌⊎◌, inl, inr, refl, List, [], ◌∷◌, ◌++◌, none, some, ltb, length, Bool-cases,
  Option-cases,
}
use poprc.Token.Class.{Run, done, thrown}
use poprc.Token.Lex.{Token}
use poprc.Parse.Expr.{
  CellBuilder, Punctuation, opening, closing, comma, paren, word, punctuation, Frame, raise, fail,
  next, parse_token, Parsed, finish, give_up, array_to_list, max_args,
}
use poprc.Parse.Expr.Loop.{Mode, tokens, quote, at_close, subexpr_loop}

mutual
  -- Words, and quotes in brackets
  pub data Expression (text : List ℕ) : List Token → Type 0 where
    empty : Expression text []
    a_word :
        (t : Token) (ts : List Token)
        → punctuation text t ≡ word
        → Expression text ts
        → Expression text (t ∷ ts)
    a_quote :
        (t : Token) (qs ts : List Token)
        → punctuation text t ≡ opening
        → Alternatives text qs
        → Expression text ts
        → Expression text (t ∷ (qs ++ ts))

  -- What stands behind an opening bracket: expressions with commas between them, and the closing one
  pub data Alternatives (text : List ℕ) : List Token → Type 0 where
    the_last :
        (ts : List Token) (u : Token)
        → Expression text ts
        → punctuation text u ≡ closing
        → Alternatives text (ts ++ (u ∷ []))
    one_more :
        (ts : List Token) (u : Token) (qs : List Token)
        → Expression text ts
        → punctuation text u ≡ comma
        → Alternatives text qs
        → Alternatives text (ts ++ (u ∷ qs))

-- Where an expression ends: at the end of all, or before a comma or a closing bracket.
abbrev pub EndsAt : List ℕ → (depth : ℕ) → List Token → Type 0
EndsAt text zero rest = rest ≡ []
EndsAt text (suc depth) [] = ⊥
EndsAt text (suc depth) (t ∷ ts) = (punctuation text t ≡ comma) ⊎ (punctuation text t ≡ closing)

-- What the loop has passed over
abbrev pub Passed : List ℕ → Mode → List Token → Type 0
Passed text tokens ts = Expression text ts
Passed text (quote t) ts =
    (qs : List Token) × (us : List Token) × (ts ≡ qs ++ us)
    × Alternatives text qs
    × Expression text us

module _ (b : CellBuilder) (text : List ℕ) where
  pub record IsParsed (mode : Mode) (depth : ℕ) (toks : List Token) (p : Parsed b) : Type 0 where
    pub passed : List Token
    pub split : toks ≡ passed ++ p.rest
    pub shape : Passed text mode passed
    pub ends : EndsAt text depth p.rest

  -- The assertions fail, no list is returned, or what is passed over is an expression.
  abbrev pub Outcome : Mode → (depth : ℕ) → List Token → Run (Parsed b) → Type 0
  Outcome mode depth toks r =
      (r ≡ thrown)
      ⊎ ((p : Parsed b) × (r ≡ done p) × ((p.list ≡ none) ⊎ IsParsed mode depth toks p))

  pub give_up-Outcome :
      (mode : Mode) (depth : ℕ) (toks : List Token) (f : Frame b) (rest : List Token)
      → Outcome mode depth toks (give_up b f rest)
  unfolding give_up
  give_up-Outcome mode depth toks f rest = inr (_, refl, inl refl)

  array_to_list-Outcome :
      (depth : ℕ) (cs : List ℕ) (rest : List Token) (st : b.Store)
      → EndsAt text depth rest
      → Outcome tokens depth rest (array_to_list b cs rest st)
  array_to_list-Outcome depth cs rest st h = elim (Option-cases (b.make_list cs st)) [
    | inl e ↦ inl (rw (array_to_list, e) refl)
    | inr ((c, st'), e) ↦ inr (
      record { list = some c; rest = rest; store = st' },
      rw (array_to_list, e) refl,
      inr (record { passed = []; split = refl; shape = empty; ends = h }),
    )
  ]

  pub finish-Outcome :
      (depth : ℕ) (f : Frame b) (rest : List Token)
      → EndsAt text depth rest
      → Outcome tokens depth rest (finish b f rest)
  unfolding finish
  finish-Outcome depth f rest h = elim (Option-cases f.ph) [
    | inl e ↦ rw (finish, e) (array_to_list-Outcome depth f.stack rest f.store h)
    | inr (c, e) ↦ elim (Bool-cases (ltb (length f.stack) max_args)) [
      | inl l ↦ rw (finish, e, l) (array_to_list-Outcome depth (f.stack ++ (c ∷ [])) rest f.store h)
      | inr l ↦ inl (rw (finish, e, l) refl)
    ]
  ]

  -- An expression after what was passed before it
  pub extend :
      (mode mode' : Mode) (depth : ℕ) (toks toks' : List Token) (r : Run (Parsed b))
      → ((ts rest : List Token)
          → toks ≡ ts ++ rest
          → Passed text mode ts
          → (us : List Token) × (toks' ≡ us ++ rest) × Passed text mode' us)
      → Outcome mode depth toks r
      → Outcome mode' depth toks' r
  extend mode mode' depth toks toks' r g (inl e) = inl e
  extend mode mode' depth toks toks' r g (inr (p, e, inl n)) = inr (p, e, inl n)
  extend mode mode' depth toks toks' r g (inr (p, e, inr q)) =
      let (us, split, shape) = g q.passed p.rest q.split q.shape in
      inr (p, e, inr (record { passed = us; split = split; shape = shape; ends = q.ends }))

  -- The loop over the tokens, by the kind of the next one
  module _ (k depth : ℕ) (t : Token) (ts : List Token) (f : Frame b) where
    pub word_raise :
        punctuation text t ≡ word
        → parse_token b text t f ≡ raise
        → subexpr_loop b text (suc k) tokens depth (t ∷ ts) f ≡ thrown
    unfolding subexpr_loop
    word_raise e q = rw (subexpr_loop, e, q) refl

    pub word_fail :
        (f' : Frame b)
        → punctuation text t ≡ word
        → parse_token b text t f ≡ fail f'
        → subexpr_loop b text (suc k) tokens depth (t ∷ ts) f ≡ give_up b f' ts
    unfolding subexpr_loop
    word_fail f' e q = rw (subexpr_loop, e, q) refl

    pub word_next :
        (f' : Frame b)
        → punctuation text t ≡ word
        → parse_token b text t f ≡ next f'
        → subexpr_loop b text (suc k) tokens depth (t ∷ ts) f
          ≡ subexpr_loop b text k tokens depth ts f'
    unfolding subexpr_loop
    word_next f' e q = rw (subexpr_loop, e, q) refl

    pub by_punctuation :
        (r : Punctuation)
        → punctuation text t ≡ r
        → subexpr_loop b text (suc k) tokens depth (t ∷ ts) f ≡ (elim r [
          | word ↦ subexpr_loop b text (suc k) tokens depth (t ∷ ts) f
          | comma ↦ at_close b text depth f t ts
          | closing ↦ at_close b text depth f t ts
          | paren ↦ give_up b f ts
          | opening ↦ subexpr_loop b text k (quote t) depth ts f
        ])
    unfolding subexpr_loop
    by_punctuation word e = refl
    by_punctuation comma e = rw (subexpr_loop, e) refl
    by_punctuation closing e = rw (subexpr_loop, e) refl
    by_punctuation paren e = rw (subexpr_loop, e) refl
    by_punctuation opening e = rw (subexpr_loop, e) refl

  pub at_close-Outcome :
      (depth : ℕ) (f : Frame b) (t : Token) (ts : List Token)
      → (punctuation text t ≡ comma) ⊎ (punctuation text t ≡ closing)
      → Outcome tokens depth (t ∷ ts) (at_close b text depth f t ts)
  at_close-Outcome zero f t ts h = give_up-Outcome tokens zero (t ∷ ts) f ts
  at_close-Outcome (suc depth) f t ts h = finish-Outcome (suc depth) f (t ∷ ts) h
