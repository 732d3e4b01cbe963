-- ===== src/Token/Progress/Token.antt =====
-- Where `tok` of parse/tok.c stops, and when it fails.
use poprc.Prelude.{
  ℕ, zero, suc, ◌+◌, ◌-◌, ◌≤◌, ◌<◌, ◌≡◌, refl, inl, inr, Bool, true, false, ◌||◌, none, some, List,
  [], ◌∷◌, arith, ◌==◌, if◌then◌else◌, length, drop, get_or, length-drop,
}
use poprc.Token.Class.{
  done, thrown, out_of_fuel, CharClass, cc_none, cc_bracket, cc_comment, cc_string, cc_comma, ◌=c◌,
}
use poprc.Token.Comment.{skip_comment, string_literal_end}
use poprc.Token.Scan.{
  Attributes, attribute_parser, Gap, at_end, at_token, gap, GapStep, stop, go, comment_step,
  class_step, gap_step, scan_step, scan, Tok, null, token, finish, token_at, tok, head_or_nul,
}
use poprc.Token.Progress.{
  HasRefused, HasRefused-drop, Quoted, Ends, Ends-map, by_class-Ends, by_test-Ends, CommentEnd,
  skip_comment-Ends, Forward, string_literal_end-Ends,
}

-- A scan that has taken `n` characters takes at most the `len` behind them.
abbrev Scanned : ℕ → ℕ → (ℕ × CharClass) → Type 0
Scanned n len (m, k) = (n ≤ m) × (m ≤ n + len)

scan-Ends :
    (k : CharClass) (hex : Bool) (n p1 p2 : ℕ) (r : List ℕ)
    → Ends (HasRefused r) (Scanned n (length r)) (scan k hex n p1 p2 r)
unfolding scan
scan-Ends k hex n p1 p2 [] = omega arith
scan-Ends k hex n p1 p2 (c ∷ r) =
    let refused = HasRefused (c ∷ r) in
    let taken = Scanned n (suc (length r)) in
    by_test-Ends refused taken (c == 0) (done (n, k)) _ (omega arith) (
      by_class-Ends refused taken c _ (λ h. inl h)
        (λ l _.
          elim (scan_step k l hex (record { c = c; i = n; p1 = p1; p2 = p2; n1 = head_or_nul r }))
            as (λ o.
              Ends refused taken
                (elim o [ none ↦ done (n, k) | some (k', hex') ↦ scan k' hex' (n + 1) c p1 r ])) [
                  | none ↦ omega arith
                  | some (k', hex') ↦
                      Ends-map {P = Scanned (n + 1) (length r)} {Q = taken} (λ h. inr (inr h))
                        (λ (m, _) h. omega arith) (scan k' hex' (n + 1) c p1 r)
                        (scan-Ends k' hex' (n + 1) c p1 r)
                ]))

module _ (text : List ℕ) where
  -- Where the blanks and comments from `p` on end; a string literal starts with a quote.
  abbrev GapEnd : ℕ → Gap → Type 0
  GapEnd p (at_end a) = Unit
  GapEnd p (at_token q k a) =
      (p ≤ q) × (q < length text) × ((k =c cc_string) ≡ true → HasRefused text)

  StepEnd : ℕ → GapStep → Type 0
  StepEnd p (stop g) = GapEnd p g
  StepEnd p (go q nl a) = (p < q) × (p < length text)

  GapEnd-later : (p q : ℕ) → p ≤ q → (g : Gap) → GapEnd q g → GapEnd p g
  GapEnd-later p q h (at_end a) k = tt
  GapEnd-later p q h (at_token t l a) k = (omega arith, k.1, k.2)

  comment_step-StepEnd :
      (p n len : ℕ) (r : List ℕ) (nl : Bool) (a : Attributes)
      → p < length text
      → CommentEnd p len n
      → StepEnd p (comment_step p r nl a n)
  unfolding comment_step StepEnd
  comment_step-StepEnd p n len r nl a h e =
      elim (n == p)
          as (λ b.
            (n == p) ≡ b
            → StepEnd p (
                if b
                then stop (at_token p cc_comment a)
                else go n nl (attribute_parser (n - p) r nl a))) [
                  | true ↦ λ q. (omega arith, h, λ no_string. ground arith)
                  | false ↦ λ q. ground arith
                ]
        refl

  class_step-Ends :
      (p c : ℕ) (r : List ℕ) (nl : Bool) (a : Attributes) (k : CharClass)
      → p < length text
      → (HasRefused (c ∷ r) → HasRefused text)
      → Quoted c k
      → Ends (HasRefused text) (StepEnd p) (class_step p c r nl a k)
  unfolding class_step StepEnd
  class_step-Ends p c r nl a k h t s =
      by_test-Ends (HasRefused text) (StepEnd p) (k =c cc_comment) _ _
        (elim (skip_comment p (c ∷ r))
            as (λ o.
              Ends (HasRefused r) (CommentEnd p (length r)) o
              → Ends (HasRefused text) (StepEnd p) (elim o [
                | done n ↦ done (comment_step p (c ∷ r) nl a n)
                | thrown ↦ thrown
                | out_of_fuel ↦ out_of_fuel
              ])) [
                | done n ↦ λ e. comment_step-StepEnd p n (length r) (c ∷ r) nl a h e
                | thrown ↦ λ e. t (inr (inr e))
                | out_of_fuel ↦ λ e. e
              ]
          (skip_comment-Ends p c r))
        (by_test-Ends (HasRefused text) (StepEnd p) (k =c cc_none)
          (done (go (p + 1) (nl || c == 10) a)) (done (stop (at_token p k a))) (omega arith)
          (omega arith, h, λ q. t (inr (inl (s q)))))

  gap_step-Ends :
      (p : ℕ) (r : List ℕ) (nl : Bool) (a : Attributes)
      → length r ≡ length text - p
      → (HasRefused r → HasRefused text)
      → Ends (HasRefused text) (StepEnd p) (gap_step p r nl a)
  unfolding gap_step StepEnd
  gap_step-Ends p [] nl a h t = tt
  gap_step-Ends p (c ∷ r) nl a h t =
      by_test-Ends (HasRefused text) (StepEnd p) (c == 0) (done (stop (at_end a))) _ tt (
        by_class-Ends (HasRefused text) (StepEnd p) c _ (λ q. t (inl q))
          (λ k s. class_step-Ends p c r nl a k (omega arith) t s))

  gap-Ends :
      (k p : ℕ) (nl : Bool) (a : Attributes)
      → length text - p < k
      → Ends (HasRefused text) (GapEnd p) (gap k text p nl a)
  unfolding gap StepEnd
  gap-Ends zero p nl a h = omega arith
  gap-Ends (suc k) p nl a h =
      elim (gap_step p (drop p text) nl a)
          as (λ o.
            Ends (HasRefused text) (StepEnd p) o
            → Ends (HasRefused text) (GapEnd p) (elim o [
              | done (stop g) ↦ done g
              | done (go q nl' a') ↦ gap k text q nl' a'
              | thrown ↦ thrown
              | out_of_fuel ↦ out_of_fuel
            ])) [
              | done (stop g) ↦ λ e. e
              | done (go q nl' a') ↦ λ e.
                  Ends-map {P = GapEnd q} {Q = GapEnd p} (λ t. t) (GapEnd-later p q (omega arith))
                    (gap k text q nl' a') (gap-Ends k q nl' a' (omega arith))
              | thrown ↦ λ e. e
              | out_of_fuel ↦ λ e. e
            ]
        (gap_step-Ends p (drop p text) nl a (length-drop p text) (HasRefused-drop p text))

  -- A token from `s` on: not empty, and within the text.
  abbrev pub TokenEnd : ℕ → Tok → Type 0
  TokenEnd s (null a) = Unit
  TokenEnd s (token p n k a) = (s ≤ p) × (0 < n) × (p + n ≤ length text)

  finish-TokenEnd :
      (s p n : ℕ) (k : CharClass) (a : Attributes)
      → s ≤ p
      → 0 < n
      → p + n ≤ length text
      → TokenEnd s (finish text p n k a)
  unfolding finish
  finish-TokenEnd s p n k a h i j = ground arith

  literal-Ends :
      (s p : ℕ) (k : CharClass) (a : Attributes)
      → s ≤ p
      → HasRefused text
      → Ends (HasRefused text) (TokenEnd s) (elim (string_literal_end p (drop p text)) [
        | done n ↦ done (finish text p (n - p) k a)
        | thrown ↦ thrown
        | out_of_fuel ↦ out_of_fuel
      ])
  literal-Ends s p k a h t =
      elim (string_literal_end p (drop p text))
          as (λ o.
            Ends Unit (Forward p (length (drop p text))) o
            → Ends (HasRefused text) (TokenEnd s) (elim o [
              | done n ↦ done (finish text p (n - p) k a)
              | thrown ↦ thrown
              | out_of_fuel ↦ out_of_fuel
            ])) [
              | done n ↦ λ e.
                  finish-TokenEnd s p (n - p) k a h (omega arith)
                    (omega (arith, length-drop p text))
              | thrown ↦ λ e. t
              | out_of_fuel ↦ λ e. e
            ]
        (string_literal_end-Ends p (drop p text))

  scanned-Ends :
      (s p : ℕ) (k : CharClass) (a : Attributes)
      → s ≤ p
      → p < length text
      → Ends
          (HasRefused text)
          (TokenEnd s)
          (elim (scan k false 1 (get_or text p 0) 0 (drop (p + 1) text)) [
            | done (n, k') ↦ done (finish text p n k' a)
            | thrown ↦ thrown
            | out_of_fuel ↦ out_of_fuel
          ])
  scanned-Ends s p k a h i =
      elim (scan k false 1 (get_or text p 0) 0 (drop (p + 1) text))
          as (λ o.
            Ends (HasRefused (drop (p + 1) text)) (Scanned 1 (length (drop (p + 1) text))) o
            → Ends (HasRefused text) (TokenEnd s) (elim o [
              | done (n, k') ↦ done (finish text p n k' a)
              | thrown ↦ thrown
              | out_of_fuel ↦ out_of_fuel
            ])) [
              | done (n, k') ↦ λ e.
                  finish-TokenEnd s p n k' a h (omega arith)
                    (omega (arith, length-drop (p + 1) text))
              | thrown ↦ λ e. HasRefused-drop (p + 1) text e
              | out_of_fuel ↦ λ e. e
            ]
        (scan-Ends k false 1 (get_or text p 0) 0 (drop (p + 1) text))

  token_at-Ends :
      (s p : ℕ) (k : CharClass) (a : Attributes)
      → s ≤ p
      → p < length text
      → ((k =c cc_string) ≡ true → HasRefused text)
      → Ends (HasRefused text) (TokenEnd s) (token_at text p k a)
  unfolding token_at
  token_at-Ends s p k a h i t =
      elim (k =c cc_string)
          as (λ b.
            (b ≡ true → HasRefused text)
            → Ends (HasRefused text) (TokenEnd s) (
                if b
                then elim (string_literal_end p (drop p text)) [
                  | done n ↦ done (finish text p (n - p) k a)
                  | thrown ↦ thrown
                  | out_of_fuel ↦ out_of_fuel
                ]
                else if k =c cc_bracket || k =c cc_comment || k =c cc_comma
                then done (finish text p 1 k a)
                else elim (scan k false 1 (get_or text p 0) 0 (drop (p + 1) text)) [
                  | done (n, k') ↦ done (finish text p n k' a)
                  | thrown ↦ thrown
                  | out_of_fuel ↦ out_of_fuel
                ])) [
                  | true ↦ λ q. literal-Ends s p k a h (q refl)
                  | false ↦ λ q.
                      by_test-Ends (HasRefused text) (TokenEnd s)
                        (k =c cc_bracket || k =c cc_comment || k =c cc_comma)
                        (done (finish text p 1 k a)) _
                        (finish-TokenEnd s p 1 k a h (omega arith) (omega arith))
                        (scanned-Ends s p k a h i)
                ]
        t

  -- With more fuel than the text has characters from `s` on, `tok` does not run out of it. An
  -- assertion fails only where the text has a quote or a byte 127, and a token that is found starts
  -- at or behind `s`, is not empty and ends within the text.
  pub tok-Ends :
      (s fuel : ℕ) (a : Attributes)
      → length text - s < fuel
      → Ends (HasRefused text) (TokenEnd s) (tok fuel text s a)
  unfolding tok
  tok-Ends s fuel a h =
      elim (gap fuel text s false a)
          as (λ o.
            Ends (HasRefused text) (GapEnd s) o
            → Ends (HasRefused text) (TokenEnd s) (elim o [
              | done (at_end a') ↦ done (null a')
              | done (at_token p k a') ↦ token_at text p k a'
              | thrown ↦ thrown
              | out_of_fuel ↦ out_of_fuel
            ])) [
              | done (at_end a') ↦ λ e. tt
              | done (at_token p k a') ↦ λ e. token_at-Ends s p k a' e.0 e.1 e.2
              | thrown ↦ λ e. e
              | out_of_fuel ↦ λ e. e
            ]
        (gap-Ends fuel s false a h)
