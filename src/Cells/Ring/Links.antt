-- ===== src/Cells/Ring/Links.antt =====
-- Paths along the links of cells.c's free cells, and what a change of links away from them leaves.
use native.Mathlib.Omega.{arith}
use poprc.Prelude.{
  ℕ, ◌≡◌, ◌≢◌, refl, ap, sym, ◌∙◌, Bool, true, false, ◌||◌, List, [], ◌∷◌, ◌++◌, ◌==◌,
}

abbrev pub has : ℕ → List ℕ → Bool
has c [] = false
has c (x ∷ xs) = (c == x) || has c xs

abbrev pub Distinct : List ℕ → Type 0
Distinct [] = Unit
Distinct (x ∷ xs) = (has x xs ≡ false) × Distinct xs

abbrev pub last : ℕ → List ℕ → ℕ
last a [] = a
last a (x ∷ xs) = last x xs

-- From `a` the links lead through `xs`, forwards by `next` and backwards by `prev`.
abbrev pub Linked : (next prev : ℕ → ℕ) → ℕ → List ℕ → Type 0
Linked next prev a [] = Unit
Linked next prev a (x ∷ xs) = (next a ≡ x) × (prev x ≡ a) × Linked next prev x xs

pub has-append : (c : ℕ) (xs ys : List ℕ) → has c (xs ++ ys) ≡ (has c xs || has c ys)
has-append c [] ys = refl
has-append c (x ∷ xs) ys = ground (arith, has-append c xs ys)

pub has-last : (a : ℕ) (xs : List ℕ) → has (last a xs) (a ∷ xs) ≡ true
has-last a [] = ground arith
has-last a (x ∷ xs) = ground (arith, has-last x xs)

pub last-snoc : (a c : ℕ) (xs : List ℕ) → last a (xs ++ (c ∷ [])) ≡ c
last-snoc a c [] = refl
last-snoc a c (x ∷ xs) = last-snoc x c xs

pub Distinct-snoc :
    (xs : List ℕ) (c : ℕ) → Distinct xs → has c xs ≡ false → Distinct (xs ++ (c ∷ []))
Distinct-snoc [] c d h = (refl, tt)
Distinct-snoc (x ∷ xs) c d h =
    (has-append x xs (c ∷ []) ∙ ground (arith, d, h), Distinct-snoc xs c d.1 (ground arith))

module _ (next prev next' prev' : ℕ → ℕ) where
  pub Linked-frame :
      (a : ℕ) (xs : List ℕ)
      → ((y : ℕ) → has y (a ∷ xs) ≡ true → next' y ≡ next y)
      → ((y : ℕ) → has y xs ≡ true → prev' y ≡ prev y)
      → Linked next prev a xs
      → Linked next' prev' a xs
  Linked-frame a [] n p h = tt
  Linked-frame a (x ∷ xs) n p h = (
    n a (ground arith) ∙ h.0,
    p x (ground arith) ∙ h.1,
    Linked-frame x xs (λ y m. n y (ground arith)) (λ y m. p y (ground arith)) h.2,
  )

  -- The link of the last cell is not a link of the path.
  pub Linked-frame_end :
      (a : ℕ) (xs : List ℕ)
      → Distinct (a ∷ xs)
      → ((y : ℕ) → has y (a ∷ xs) ≡ true → y ≢ last a xs → next' y ≡ next y)
      → ((y : ℕ) → has y xs ≡ true → prev' y ≡ prev y)
      → Linked next prev a xs
      → Linked next' prev' a xs
  Linked-frame_end a [] d n p h = tt
  Linked-frame_end a (x ∷ xs) d n p h = (
    n a (ground arith) (λ q. ground (arith, d, has-last x xs, ap (λ t. has t (x ∷ xs)) q)) ∙ h.0,
    p x (ground arith) ∙ h.1,
    Linked-frame_end x xs d.1 (λ y m k. n y (ground arith) k) (λ y m. p y (ground arith)) h.2,
  )

  -- A path grows at its end, whatever the end's link was.
  pub Linked-snoc :
      (a c : ℕ) (xs : List ℕ)
      → Distinct (a ∷ xs)
      → ((y : ℕ) → has y (a ∷ xs) ≡ true → y ≢ last a xs → next' y ≡ next y)
      → ((y : ℕ) → has y xs ≡ true → prev' y ≡ prev y)
      → next' (last a xs) ≡ c
      → prev' c ≡ last a xs
      → Linked next prev a xs
      → Linked next' prev' a (xs ++ (c ∷ []))
  Linked-snoc a c [] d n p e f h = (e, f, tt)
  Linked-snoc a c (x ∷ xs) d n p e f h = (
    n a (ground arith) (λ q. ground (arith, d, has-last x xs, ap (λ t. has t (x ∷ xs)) q)) ∙ h.0,
    p x (ground arith) ∙ h.1,
    Linked-snoc x c xs d.1 (λ y m k. n y (ground arith) k) (λ y m. p y (ground arith)) e f h.2,
  )

pub last-append : (a c : ℕ) (xs ys : List ℕ) → last a (xs ++ (c ∷ ys)) ≡ last c ys
last-append a c [] ys = refl
last-append a c (x ∷ xs) ys = last-append x c xs ys

pub last-nil : (a : ℕ) (xs : List ℕ) → last a (xs ++ []) ≡ last a xs
last-nil a [] = refl
last-nil a (x ∷ xs) = last-nil x xs

-- A cell on a list stands between two parts of it.
pub has-split :
    (c : ℕ) (xs : List ℕ) → has c xs ≡ true → (ys : List ℕ) × (zs : List ℕ) × (xs ≡ ys ++ (c ∷ zs))
has-split c [] h = absurd (ground arith)
has-split c (x ∷ xs) h =
    elim (c == x)
        as (λ b.
          (c == x) ≡ b
          → (b || has c xs) ≡ true
          → (ys : List ℕ) × (zs : List ℕ) × (x ∷ xs ≡ ys ++ (c ∷ zs))) [
            | true ↦ λ e _. ([], xs, ap (λ t. t ∷ xs) (ground arith))
            | false ↦ λ e k. let (ys, zs, q) = has-split c xs k in (x ∷ ys, zs, ap (λ t. x ∷ t) q)
          ]
      refl h

pub prev-middle :
    (next prev : ℕ → ℕ) (a c : ℕ) (xs ys : List ℕ)
    → Linked next prev a (xs ++ (c ∷ ys))
    → prev c ≡ last a xs
prev-middle next prev a c [] ys h = h.1
prev-middle next prev a c (x ∷ xs) ys h = prev-middle next prev x c xs ys h.2

-- What two lists that are distinct together have apart.
pub Distinct-right : (xs ys : List ℕ) → Distinct (xs ++ ys) → Distinct ys
Distinct-right [] ys d = d
Distinct-right (x ∷ xs) ys d = Distinct-right xs ys d.1

pub Distinct-apart :
    (xs ys : List ℕ) (y : ℕ) → Distinct (xs ++ ys) → has y ys ≡ true → has y xs ≡ false
Distinct-apart [] ys y d h = refl
Distinct-apart (x ∷ xs) ys y d h =
    ground (arith, d, has-append x xs ys, Distinct-apart xs ys y d.1 h, h)

pub Distinct-remove :
    (xs : List ℕ) (c : ℕ) (ys : List ℕ) → Distinct (xs ++ (c ∷ ys)) → Distinct (xs ++ ys)
Distinct-remove [] c ys d = d.1
Distinct-remove (x ∷ xs) c ys d =
    (ground (arith, d.0, has-append x xs (c ∷ ys), has-append x xs ys), Distinct-remove xs c ys d.1)

pub not-has_of_eq : (x y : ℕ) (xs : List ℕ) → has x xs ≡ true → has y xs ≡ false → x ≢ y
not-has_of_eq x y xs h k e = ground (arith, h, k, ap (λ t. has t xs) e)

-- A path after the cell `c` on it is taken out: only the links of its two neighbours change.
module _ (next prev next' prev' : ℕ → ℕ) (c : ℕ) (n : (y : ℕ) → y ≢ prev c → next' y ≡ next y)
    (e : next' (prev c) ≡ next c) (p : (y : ℕ) → y ≢ next c → prev' y ≡ prev y)
    (f : prev' (next c) ≡ prev c) where
  Linked-remove_head :
      (a : ℕ) (ys : List ℕ)
      → Distinct (a ∷ c ∷ ys)
      → Linked next prev a (c ∷ ys)
      → Linked next' prev' a ys
  Linked-remove_head a [] d h = tt
  Linked-remove_head a (y ∷ ys) d h = (
    ap next' (sym h.1) ∙ e ∙ h.2.0,
    ap prev' (sym h.2.0) ∙ f ∙ h.1,
    Linked-frame next prev next' prev' y ys
        (λ z m. n z (λ q. not-has_of_eq z a (y ∷ ys) m (ground (arith, d.0)) (q ∙ h.1)))
        (λ z m. p z (λ q. not-has_of_eq z y ys m (ground (arith, d)) (q ∙ h.2.0))) h.2.2,
  )

  pub Linked-remove :
      (a : ℕ) (xs ys : List ℕ)
      → Distinct (a ∷ (xs ++ (c ∷ ys)))
      → has (next c) xs ≡ false
      → Linked next prev a (xs ++ (c ∷ ys))
      → Linked next' prev' a (xs ++ ys)
  Linked-remove a [] ys d m h = Linked-remove_head a ys d h
  Linked-remove a (x ∷ xs) ys d m h =
      let before = prev-middle next prev x c xs ys h.2 in
      let whole = has-append a (x ∷ xs) (c ∷ ys) in
      (
        n a (λ q.
              not-has_of_eq (last x xs) a (x ∷ xs) (has-last x xs) (ground (arith, d.0, whole))
                (sym before ∙ sym q))
            ∙ h.0,
        p x (λ q. not-has_of_eq x (next c) (x ∷ xs) (ground arith) m q) ∙ h.1,
        Linked-remove x xs ys d.1 (ground arith) h.2,
      )
