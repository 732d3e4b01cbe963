-- ===== src/Parse/Defs/Reading.antt =====
-- What `parse_def` of parse/parse.c reads, and that the names have no NUL.
use native.Mathlib.Omega.{arith}
use mathlib.Core.Option.{none-ne-some}
use poprc.Prelude.{
  ℕ, zero, suc, ◌+◌, ◌≤◌, ◌≡◌, refl, ap, sym, ◌∙◌, true, false, ◌&&◌, ◌||◌, not, List, [], ◌∷◌,
  ◌++◌, Option, none, some, length, length-append, ◌=t◌, nul_free, take, drop, Bool-cases, inl, inr,
  some_inj,
}
use poprc.Token.Lex.{Token}
use poprc.Lines.{Parsed, parse_rhs_expr}
use poprc.Lines.Cut.{concat, Answers, IsAnswer, parse_rhs_expr-IsAnswer}
use poprc.Parse.Words.{tok_seg, is_reserved, match}
use poprc.Parse.Defs.{Definition, def_from, parse_def}

-- What one definition is read from
pub record IsDefinition (text : List ℕ) (toks : List Token) (d : Definition) : Type 0 where
  pub name : Token
  pub colon : Token
  pub tokens : toks ≡ name ∷ (colon ∷ (concat d.exprs ++ d.rest))
  pub is_name : is_reserved (tok_seg text name) ≡ false
  pub is_colon : (b':' ∷ []) =t tok_seg text colon ≡ true
  pub named : d.name ≡ record name { hide = name.hide || colon.hide }

def_from_lem :
    (n colon : Token) (ts : List Token) (o : Option Parsed) (d : Definition)
    → IsAnswer ts o
    → def_from n colon o ≡ some (some d)
    → (concat d.exprs ++ d.rest ≡ ts) × (d.name ≡ record n { hide = n.hide || colon.hide })
def_from_lem n colon ts none d a h = absurd (none-ne-some (some d) h)
def_from_lem n colon ts (some p) d a h = go p.res a h
  where
    go :
        (r : Option (List (List Token)))
        → Answers ts r p.left_over
        → def_from n colon (some (record { res = r; left_over = p.left_over })) ≡ some (some d)
        → (concat d.exprs ++ d.rest ≡ ts) × (d.name ≡ record n { hide = n.hide || colon.hide })
    go none a h = absurd (none-ne-some d (some_inj h))
    go (some l) a h =
        let same = some_inj (some_inj h) in
        (
          ap (λ e. concat (Definition.exprs e) ++ Definition.rest e) (sym same) ∙ a.3,
          ap (λ e. Definition.name e) (sym same),
        )

pub parse_def-IsDefinition :
    (text : List ℕ) (toks : List Token) (d : Definition)
    → parse_def text toks ≡ some (some d)
    → IsDefinition text toks d
unfolding parse_def
parse_def-IsDefinition text [] d h = absurd (none-ne-some d (some_inj h))
parse_def-IsDefinition text (n ∷ []) d h = absurd (none-ne-some d (some_inj h))
parse_def-IsDefinition text (n ∷ (colon ∷ ts)) d h =
    elim (Bool-cases (not (is_reserved (tok_seg text n)) && match text (colon ∷ ts) (b':' ∷ []))) [
      | inl e ↦
          let (q, nm) =
            def_from_lem n colon ts (parse_rhs_expr ts) d (parse_rhs_expr-IsAnswer ts)
              (sym (taken e) ∙ h) in
          record {
            name = n;
            colon = colon;
            tokens = ap (λ t. n ∷ (colon ∷ t)) (sym q);
            is_name = ground (arith, e);
            is_colon = ground (arith, e);
            named = nm;
          }
      | inr e ↦ absurd (none-ne-some d (some_inj (sym (other e) ∙ h)))
    ]
  where
    taken :
        (not (is_reserved (tok_seg text n)) && match text (colon ∷ ts) (b':' ∷ [])) ≡ true
        → parse_def text (n ∷ (colon ∷ ts)) ≡ def_from n colon (parse_rhs_expr ts)
    taken e = rw e refl

    other :
        (not (is_reserved (tok_seg text n)) && match text (colon ∷ ts) (b':' ∷ [])) ≡ false
        → parse_def text (n ∷ (colon ∷ ts)) ≡ some none
    other e = rw e refl

pub IsDefinition-shorter :
    (text : List ℕ) (toks : List Token) (d : Definition)
    → IsDefinition text toks d
    → length d.rest + 2 ≤ length toks
IsDefinition-shorter text toks d i =
    omega (arith, ap length i.tokens, length-append (concat d.exprs) d.rest)

-- No name has a NUL in it, since the text has none.
nul_free-drop : (n : ℕ) (s : List ℕ) → nul_free s ≡ true → nul_free (drop n s) ≡ true
nul_free-drop zero s h = h
nul_free-drop (suc n) [] h = refl
nul_free-drop (suc n) (x ∷ s) h = nul_free-drop n s (ground (arith, h))

nul_free-take : (n : ℕ) (s : List ℕ) → nul_free s ≡ true → nul_free (take n s) ≡ true
nul_free-take zero s h = refl
nul_free-take (suc n) [] h = refl
nul_free-take (suc n) (x ∷ s) h = ground (arith, h, nul_free-take n s)

pub nul_free-tok_seg :
    (text : List ℕ) (t : Token) → nul_free text ≡ true → nul_free (tok_seg text t) ≡ true
nul_free-tok_seg text t h =
    nul_free-take t.length (drop t.location text) (nul_free-drop t.location text h)
