-- ===== src/Token/Progress.antt =====
-- Where the tokenizer's functions stop, and when they fail. Here are the comments and the string
-- literals of parse/tok.c; the child has `tok`.
pub mod Token
use poprc.Prelude.{
  ℕ, zero, suc, ◌+◌, ◌-◌, ◌≤◌, ◌<◌, ◌≡◌, refl, ◌≢◌, ◌⊎◌, inl, inr, Bool, true, false, ◌&&◌, ◌||◌,
  Option, none, some, List, [], ◌∷◌, arith, ltb, leb, ◌==◌, if◌then◌else◌, length, drop, get_or,
  length-drop, Bool-cases,
}
use poprc.Token.Class.{
  Run, done, thrown, out_of_fuel, CharClass, cc_none, cc_comment, cc_string, char_class, ◌=c◌,
}
use poprc.Token.Comment.{
  Mode, marks, inside, Verdict, another, line, lone, close, go_on, after_marks, line_end, skip,
  skip_comment, literal_rest, string_literal_end,
}

-- A byte that can fail an assertion of the tokenizer: 127, or a quote.
abbrev pub HasRefused : List ℕ → Type 0
HasRefused [] = ⊥
HasRefused (c ∷ r) = (c ≡ 127) ⊎ (c ≡ 34) ⊎ HasRefused r

pub HasRefused-drop : (n : ℕ) (r : List ℕ) → HasRefused (drop n r) → HasRefused r
HasRefused-drop zero r h = h
HasRefused-drop (suc n) [] h = h
HasRefused-drop (suc n) (c ∷ r) h = inr (inr (HasRefused-drop n r h))

-- A run that ends with a value of `P`, or with a failed assertion where `T` holds, and never for
-- want of fuel.
abbrev pub Ends : {A : Type 0} → Type 0 → (A → Type 0) → Run A → Type 0
Ends T P (done a) = P a
Ends T P thrown = T
Ends T P out_of_fuel = ⊥

pub Ends-map :
    {A : Type 0} {T U : Type 0} {P Q : A → Type 0}
    → (T → U)
    → ((a : A) → P a → Q a)
    → (r : Run A) → Ends T P r
    → Ends U Q r
Ends-map g f (done a) h = f a h
Ends-map g f thrown h = g h
Ends-map g f out_of_fuel h = h

-- Only a quote has the class of string literals.
abbrev pub Quoted : ℕ → CharClass → Type 0
Quoted c k = (k =c cc_string) ≡ true → c ≡ 34

char_class-Ends : (c : ℕ) → Ends (c ≡ 127) (Quoted c) (char_class c)
unfolding char_class
char_class-Ends c = ground arith

-- A class is found or the assertion on it fails.
pub by_class-Ends :
    {A : Type 0} (T : Type 0) (P : A → Type 0) (c : ℕ) (f : CharClass → Run A)
    → (c ≡ 127 → T)
    → ((k : CharClass) → Quoted c k → Ends T P (f k))
    → Ends T P (elim (char_class c) [ done k ↦ f k | _ ↦ thrown ])
by_class-Ends T P c f t h =
    elim (char_class c)
        as (λ o. Ends (c ≡ 127) (Quoted c) o → Ends T P (elim o [ done k ↦ f k | _ ↦ thrown ])) [
          | done k ↦ λ e. h k e
          | thrown ↦ λ e. t e
          | out_of_fuel ↦ λ e. absurd e
        ]
      (char_class-Ends c)

pub by_test-Ends :
    {A : Type 0} (T : Type 0) (P : A → Type 0) (b : Bool) (yes_run no_run : Run A)
    → Ends T P yes_run
    → Ends T P no_run
    → Ends T P (if b then yes_run else no_run)
by_test-Ends T P true yes_run no_run hy hn = hy
by_test-Ends T P false yes_run no_run hy hn = hn

line_end-le : (p : ℕ) (r : List ℕ) → (p ≤ line_end p r) × (line_end p r ≤ p + length r)
unfolding line_end
line_end-le p [] = ground arith
line_end-le p (c ∷ r) = ground (arith, line_end-le (p + 1) r)

-- A comment's end is its start, if it is no comment, or lies between `p` and one past the end.
abbrev StopsFrom : ℕ → ℕ → ℕ → ℕ → Type 0
StopsFrom s p len n = (n ≡ s) ⊎ ((p ≤ n) × (n ≤ p + len + 1))

StopsFrom-suc : (s p len n : ℕ) → StopsFrom s (p + 1) len n → StopsFrom s p (suc len) n
StopsFrom-suc s p len n h = ground arith

-- What `skip` promises at place `p` of a text that goes on with `r`.
abbrev Skips : ℕ → ℕ → List ℕ → Run ℕ → Type 0
Skips s p r = Ends (HasRefused r) (StopsFrom s p (length r))

Skips-cons : (s p c : ℕ) (r : List ℕ) (o : Run ℕ) → Skips s (p + 1) r o → Skips s p (c ∷ r) o
Skips-cons s p c r = Ends-map (λ h. inr (inr h)) (StopsFrom-suc s p (length r))

-- A step by the verdict on what stands behind the comment characters.
by_verdict-Ends :
    (s p : ℕ) (c : ℕ) (r : List ℕ) (again : Run ℕ) (inner : ℕ → Run ℕ)
    → Skips s (p + 1) r again
    → ((l : ℕ) → Skips s (p + 1) r (inner l))
    → (v : Verdict)
    → Skips s p (c ∷ r) (elim v [
      | another ↦ again
      | line ↦ done (line_end p (c ∷ r))
      | lone ↦ done s
      | close ↦ done p
      | go_on l ↦ inner l
    ])
by_verdict-Ends s p c r again inner ha hi another = Skips-cons s p c r again ha
by_verdict-Ends s p c r again inner ha hi line = omega (arith, line_end-le p (c ∷ r))
by_verdict-Ends s p c r again inner ha hi lone = inl refl
by_verdict-Ends s p c r again inner ha hi close = omega arith
by_verdict-Ends s p c r again inner ha hi (go_on l) = Skips-cons s p c r (inner l) (hi l)

skip-Ends : (s : ℕ) (m : Mode) (p : ℕ) (r : List ℕ) → Skips s p r (skip s m p r)
unfolding skip
skip-Ends s (marks len level before) p [] = omega arith
skip-Ends s (marks len level before) p (c ∷ r) =
    by_class-Ends (HasRefused (c ∷ r)) (StopsFrom s p (suc (length r))) c _ (λ h. inl h)
      (λ after _.
        by_verdict-Ends s p c r (skip s (marks (len + 1) level before) (p + 1) r)
          (λ l. skip s (inside l after) (p + 1) r)
          (skip-Ends s (marks (len + 1) level before) (p + 1) r)
          (λ l. skip-Ends s (inside l after) (p + 1) r) (after_marks len level before after c))
skip-Ends s (inside level cur) p [] = omega arith
skip-Ends s (inside level cur) p (x ∷ []) = omega arith
skip-Ends s (inside level cur) p (x ∷ (c ∷ r)) =
    let refused = HasRefused (x ∷ (c ∷ r)) in
    let stops = StopsFrom s p (suc (suc (length r))) in
    by_test-Ends refused stops (c == 0) (done (p + 1)) _ (omega arith) (
      by_class-Ends refused stops c _ (λ h. inr (inr (inl h)))
        (λ next _.
          elim (next =c cc_comment)
            as (λ b. Ends refused stops (elim b [
              | true ↦ skip s (marks 1 level cur) (p + 1 + 1) r
              | false ↦ skip s (inside level next) (p + 1) (c ∷ r)
            ])) [
              | true ↦ Skips-cons s p x (c ∷ r) (skip s (marks 1 level cur) (p + 1 + 1) r) (
                  Skips-cons s (p + 1) c r (skip s (marks 1 level cur) (p + 1 + 1) r)
                    (skip-Ends s (marks 1 level cur) (p + 1 + 1) r))
              | false ↦
                  Skips-cons s p x (c ∷ r) (skip s (inside level next) (p + 1) (c ∷ r))
                    (skip-Ends s (inside level next) (p + 1) (c ∷ r))
            ]))

-- From the comment character at `s` with `len` characters behind it.
abbrev pub CommentEnd : ℕ → ℕ → ℕ → Type 0
CommentEnd s len n = (n ≡ s) ⊎ ((s < n) × (n ≤ s + len + 2))

pub skip_comment-Ends :
    (s c : ℕ) (r : List ℕ) → Ends (HasRefused r) (CommentEnd s (length r)) (skip_comment s (c ∷ r))
unfolding skip_comment
skip_comment-Ends s c r =
    Ends-map (λ h. h) (λ n h. omega arith) (skip s (marks 1 0 cc_none) (s + 1) r)
      (skip-Ends s (marks 1 0 cc_none) (s + 1) r)

-- From `p` on, within `len` characters, and at least one.
abbrev pub Forward : ℕ → ℕ → ℕ → Type 0
Forward p len n = (p < n) × (n ≤ p + len)

literal_rest-Ends : (p : ℕ) (r : List ℕ) → Ends Unit (Forward p (length r)) (literal_rest p r)
unfolding literal_rest
literal_rest-Ends p [] = tt
literal_rest-Ends p (c ∷ []) = ground arith
literal_rest-Ends p (c ∷ (x ∷ r)) =
    ground (arith, literal_rest-Ends (p + 1 + 1) r, literal_rest-Ends (p + 1) (x ∷ r))

pub string_literal_end-Ends :
    (s : ℕ) (r : List ℕ) → Ends Unit (Forward s (length r)) (string_literal_end s r)
unfolding string_literal_end
string_literal_end-Ends s [] = tt
string_literal_end-Ends s (q ∷ []) = tt
string_literal_end-Ends s (q ∷ (c ∷ r)) =
    by_test-Ends Unit (Forward s (suc (suc (length r)))) (q == 34) _ _
      (Ends-map (λ h. h) (λ n h. omega arith) (literal_rest (s + 1) (c ∷ r))
        (literal_rest-Ends (s + 1) (c ∷ r)))
      tt
