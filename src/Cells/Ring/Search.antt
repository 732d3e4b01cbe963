-- ===== src/Cells/Ring/Search.antt =====
-- The search of `closure_alloc_cells` of cells.c for a chunk of free cells, along the ring.
use native.Mathlib.Omega.{arith}
use mathlib.Core.Path.{subst}
use mathlib.Core.List.{append_assoc}
use mathlib.Core.Option.{none-ne-some}
use poprc.Prelude.{
  ℕ, zero, suc, ◌+◌, ◌-◌, ◌*◌, ◌≤◌, ◌<◌, ◌≡◌, refl, ap, sym, ◌∙◌, true, false, List, [], ◌∷◌, ◌++◌,
  Option, none, some, leb, ◌==◌, length, length-append, some_inj, Bool-cases, leb→le, inl, inr,
}
use poprc.Cells.Ring.{Pool, is_free, find_chunk}
use poprc.Cells.Ring.Links.{has, has-append}
use poprc.Cells.Ring.Take.{SameCells}
use poprc.Cells.Ring.Remove.{IsRing, rotate, head_or, cells_next-IsRing}

pub rotate-has : (a : ℕ) (ys : List ℕ) (y : ℕ) → has y (head_or a ys ∷ rotate a ys) ≡ has y (a ∷ ys)
rotate-has a [] y = refl
rotate-has a (x ∷ ys) y = ground (arith, has-append y ys (a ∷ []))

-- The cells from `c` on, `n` of them, are free.
abbrev pub FreeFrom : (c n : ℕ) → Pool → Type 0
FreeFrom c n s = (i : ℕ) → c ≤ i → i < c + n → is_free s i ≡ true

pub length-rotate : (a : ℕ) (ys : List ℕ) → length (rotate a ys) ≡ length ys
length-rotate a [] = refl
length-rotate a (y ∷ ys) = omega (arith, length-append ys (a ∷ []))

FreeFrom-suc :
    (c n : ℕ) (s : Pool) → FreeFrom c n s → is_free s (c + n) ≡ true → FreeFrom c (n + 1) s
FreeFrom-suc c n s f h i lo hi = elim (Bool-cases (i == c + n)) [
  | inl e ↦ ap (λ t. is_free s t) (ground (arith, e)) ∙ h
  | inr e ↦ f i lo (ground (arith, e))
]

-- What a search that succeeds has found.
pub record IsFound (size c : ℕ) (s : Pool) (ys : List ℕ) (s' : Pool) : Type 0 where
  pub rest : List ℕ
  pub ring : IsRing s' rest
  pub same : SameCells s s'
  pub members : (y : ℕ) → has y (s'.cells_ptr ∷ rest) ≡ has y (s.cells_ptr ∷ ys)
  pub chunk : FreeFrom c size s
  pub count : length rest ≡ length ys

IsFound-here :
    (size c : ℕ) (s : Pool) (ys : List ℕ) → IsRing s ys → FreeFrom c size s → IsFound size c s ys s
IsFound-here size c s ys r f = record {
  rest = ys;
  ring = r;
  same = record { size = refl; ops = refl; fresh = refl; count = refl };
  members = λ y. refl;
  chunk = f;
  count = refl;
}

-- The cells stay what they are while the ring turns.
pub IsFound-later :
    (size c a : ℕ) (s : Pool) (ys : List ℕ) (s' : Pool)
    → a ≡ head_or s.cells_ptr ys
    → IsFound size c (record s { cells_ptr = a }) (rotate s.cells_ptr ys) s'
    → IsFound size c s ys s'
IsFound-later size c a s ys s' e f = record {
  rest = f.rest;
  ring = f.ring;
  same = record {
    size = f.same.size;
    ops = f.same.ops;
    fresh = f.same.fresh;
    count = f.same.count;
  };
  members = λ y.
      f.members y ∙ ap (λ t. has y (t ∷ rotate s.cells_ptr ys)) e ∙ rotate-has s.cells_ptr ys y;
  chunk = f.chunk;
  count = f.count ∙ length-rotate s.cells_ptr ys;
}

-- One round of the search, by its branches.
module _ (k size mark c cnt : ℕ) (s : Pool) where
  pub found_lem : leb size cnt ≡ true → find_chunk (suc k) size mark c cnt s ≡ some (some (c, s))
  unfolding find_chunk
  found_lem e = rw e refl

  pub longer_lem :
      leb size cnt ≡ false
      → is_free s (c + cnt) ≡ true
      → find_chunk (suc k) size mark c cnt s ≡ find_chunk k size mark c (cnt + 1) s
  unfolding find_chunk
  longer_lem e f = rw (e, f) refl

  module _ (ys : List ℕ) (r : IsRing s ys) (e : leb size cnt ≡ false)
      (f : is_free s (c + cnt) ≡ false) where
    stop_lem : (s.cells_ptr == mark) ≡ true → find_chunk (suc k) size mark c cnt s ≡ some none
    unfolding find_chunk
    stop_lem m = rw (e, f, (cells_next-IsRing s ys r).0, m) refl

    on_lem :
        (s.cells_ptr == mark) ≡ false
        → find_chunk (suc k) size mark c cnt s
          ≡ find_chunk k size mark s.cells_ptr 0 (record s { cells_ptr = head_or s.cells_ptr ys })
    unfolding find_chunk
    on_lem m = rw (e, f, (cells_next-IsRing s ys r).0, m) refl

pub find_chunk-IsFound :
    (k size mark c cnt : ℕ) (s : Pool) (ys : List ℕ) (c' : ℕ) (s' : Pool)
    → IsRing s ys
    → FreeFrom c cnt s
    → find_chunk k size mark c cnt s ≡ some (some (c', s'))
    → IsFound size c' s ys s'
unfolding find_chunk
find_chunk-IsFound zero size mark c cnt s ys c' s' r f h = absurd (none-ne-some (some (c', s')) h)
find_chunk-IsFound (suc k) size mark c cnt s ys c' s' r f h = elim (Bool-cases (leb size cnt)) [
  | inl e ↦
      let same = some_inj (some_inj (sym (found_lem k size mark c cnt s e) ∙ h)) in
      subst (λ (t, u). IsFound size t s ys u) same
        (IsFound-here size c s ys r (λ i lo hi. f i lo (omega (arith, leb→le size cnt e))))
  | inr e ↦ elim (Bool-cases (is_free s (c + cnt))) [
    | inl fr ↦
        find_chunk-IsFound k size mark c (cnt + 1) s ys c' s' r
          (λ i lo hi. FreeFrom-suc c cnt s f fr i lo hi)
          (sym (longer_lem k size mark c cnt s e fr) ∙ h)
    | inr fr ↦ elim (Bool-cases (s.cells_ptr == mark)) [
      | inl m ↦
          absurd
            (none-ne-some (c', s') (some_inj (sym (stop_lem k size mark c cnt s ys r e fr m) ∙ h)))
      | inr m ↦ IsFound-later size c' (head_or s.cells_ptr ys) s ys s' refl (
          find_chunk-IsFound k size mark s.cells_ptr 0
            (record s { cells_ptr = head_or s.cells_ptr ys }) (rotate s.cells_ptr ys) c' s'
            (cells_next-IsRing s ys r).1 (λ i lo hi. absurd (omega arith))
            (sym (on_lem k size mark c cnt s ys r e fr m) ∙ h))
    ]
  ]
]

-- The ring that `cells_ptr` starts, up to `mark` and behind it.
abbrev pub UpTo : (mark : ℕ) → Pool → List ℕ → (before after : List ℕ) → Type 0
UpTo mark s ys before after = s.cells_ptr ∷ ys ≡ before ++ (mark ∷ after)

cons_inj_head : {x y : ℕ} {xs ys : List ℕ} → x ∷ xs ≡ y ∷ ys → x ≡ y
cons_inj_head h = cc

cons_inj_tail : {x y : ℕ} {xs ys : List ℕ} → x ∷ xs ≡ y ∷ ys → xs ≡ ys
cons_inj_tail h = cc

turn_lem :
    (mark : ℕ) (s : Pool) (ys before after : List ℕ)
    → (s.cells_ptr == mark) ≡ false
    → UpTo mark s ys before after
    → (front : List ℕ) × (back : List ℕ) × UpTo mark
        (record s { cells_ptr = head_or s.cells_ptr ys })
        (rotate s.cells_ptr ys)
        front
        back
      × (length before ≡ length front + 1)
turn_lem mark s ys [] after m u = absurd (ground (arith, m, cons_inj_head u))
turn_lem mark s [] (b ∷ before) after m u =
    absurd (ground (arith, ap length (cons_inj_tail u), length-append before (mark ∷ after)))
turn_lem mark s (y ∷ ys) (b ∷ before) after m u = (
  before,
  after ++ (s.cells_ptr ∷ []),
  ap (λ t. t ++ (s.cells_ptr ∷ [])) (cons_inj_tail u)
      ∙ append_assoc before (mark ∷ after) (s.cells_ptr ∷ []),
  omega arith,
)

product_suc : (a b n : ℕ) → a ≡ b + 1 → a * n ≡ b * n + n
product_suc a b n h = rw h (omega arith)

-- The search ends: in every round a cell more is found, or the search is one cell closer to `mark`.
pub find_chunk-ends :
    (k size mark c cnt : ℕ) (s : Pool) (ys before after : List ℕ)
    → IsRing s ys
    → UpTo mark s ys before after
    → length before * (size + 2) + (size - cnt) + 1 < k
    → (found : Option (ℕ × Pool)) × (find_chunk k size mark c cnt s ≡ some found)
find_chunk-ends zero size mark c cnt s ys before after r u h = absurd (omega arith)
find_chunk-ends (suc k) size mark c cnt s ys before after r u h = elim (Bool-cases (leb size cnt)) [
  | inl e ↦ (some (c, s), found_lem k size mark c cnt s e)
  | inr e ↦ elim (Bool-cases (is_free s (c + cnt))) [
    | inl fr ↦
        let (found, q) =
          find_chunk-ends k size mark c (cnt + 1) s ys before after r u (ground (arith, e)) in
        (found, longer_lem k size mark c cnt s e fr ∙ q)
    | inr fr ↦ elim (Bool-cases (s.cells_ptr == mark)) [
      | inl m ↦ (none, stop_lem k size mark c cnt s ys r e fr m)
      | inr m ↦
          let (front, back, t, n) = turn_lem mark s ys before after m u in
          let (found, w) =
            find_chunk-ends k size mark s.cells_ptr 0
              (record s { cells_ptr = head_or s.cells_ptr ys }) (rotate s.cells_ptr ys) front back
              (cells_next-IsRing s ys r).1 t
              (ground (arith, e, product_suc (length before) (length front) (size + 2) n)) in
          (found, on_lem k size mark c cnt s ys r e fr m ∙ w)
    ]
  ]
]
