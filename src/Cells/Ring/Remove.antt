-- ===== src/Cells/Ring/Remove.antt =====
-- The ring of free cells as a list, and taking cells out of it: cells_next and cell_alloc of cells.c.
use native.Mathlib.Omega.{arith}
use poprc.Prelude.{ℕ, ◌≡◌, ◌≢◌, refl, ap, sym, ◌∙◌, true, false, List, [], ◌∷◌, ◌++◌, some}
use poprc.Cells.Ring.{Pool, set, is_cell, is_free, cells_next, unlink}
use poprc.Cells.Ring.Links.{
  has, Distinct, last, last-nil, not-has_of_eq, Linked, has-append, has-last, last-snoc,
  Distinct-snoc, Linked-snoc, last-append, prev-middle, Distinct-right, Distinct-apart,
  Distinct-remove, Linked-remove,
}

-- The links make one ring, through `cells_ptr` and then the cells of `ys`, all different and free.
pub record IsRing (s : Pool) (ys : List ℕ) : Type 0 where
  pub path : Linked s.next s.prev s.cells_ptr ys
  pub close : s.next (last s.cells_ptr ys) ≡ s.cells_ptr
  pub back : s.prev s.cells_ptr ≡ last s.cells_ptr ys
  pub distinct : Distinct (s.cells_ptr ∷ ys)
  pub free : (c : ℕ) → has c (s.cells_ptr ∷ ys) ≡ true → is_free s c ≡ true

-- The ring from the next cell on.
abbrev pub rotate : ℕ → List ℕ → List ℕ
rotate a [] = []
rotate a (y ∷ ys) = ys ++ (a ∷ [])

abbrev pub head_or : ℕ → List ℕ → ℕ
head_or a [] = a
head_or a (y ∷ ys) = y

pub next_lem : (s : Pool) (ys : List ℕ) → IsRing s ys → s.next s.cells_ptr ≡ head_or s.cells_ptr ys
next_lem s [] r = r.close
next_lem s (y ∷ ys) r = r.path.0

rotate-IsRing :
    (s : Pool) (ys : List ℕ)
    → IsRing s ys
    → IsRing (record s { cells_ptr = head_or s.cells_ptr ys }) (rotate s.cells_ptr ys)
rotate-IsRing s [] r = r
rotate-IsRing s (y ∷ ys) r =
    let a = s.cells_ptr in
    record {
      path =
          Linked-snoc s.next s.prev s.next s.prev y a ys r.distinct.1 (λ z m k. refl) (λ z m. refl)
            r.close r.back r.path.2;
      close = ap s.next (last-snoc y a ys) ∙ r.path.0;
      back = r.path.1 ∙ sym (last-snoc y a ys);
      distinct = Distinct-snoc (y ∷ ys) a r.distinct.1 r.distinct.0;
      free = λ c m. r.free c (ground (arith, m, has-append c ys (a ∷ [])));
    }

has-head_or : (a : ℕ) (ys : List ℕ) → has (head_or a ys) (a ∷ ys) ≡ true
has-head_or a [] = ground arith
has-head_or a (y ∷ ys) = ground arith

-- `cells_next` returns the cell that the ring starts at, and the ring then starts at the next one.
pub cells_next-IsRing :
    (s : Pool) (ys : List ℕ)
    → IsRing s ys
    → (cells_next s ≡ some (s.cells_ptr, record s { cells_ptr = head_or s.cells_ptr ys }))
      × IsRing (record s { cells_ptr = head_or s.cells_ptr ys }) (rotate s.cells_ptr ys)
unfolding cells_next
cells_next-IsRing s ys r =
    let a = s.cells_ptr in
    let here : is_free s a ≡ true = r.free a (ground arith) in
    let there : is_free s (head_or a ys) ≡ true = r.free (head_or a ys) (has-head_or a ys) in
    let next : is_cell s (s.next a) ≡ true =
      ap (λ t. is_cell s t) (next_lem s ys r) ∙ ground arith in
    (
      rw (here, next) (ap (λ t. some (a, record s { cells_ptr = t })) (next_lem s ys r)),
      rotate-IsRing s ys r,
    )

-- The neighbours of a cell on the ring
module _ (s : Pool) (xs : List ℕ) (c : ℕ) where
  next-last : IsRing s (xs ++ (c ∷ [])) → s.next c ≡ s.cells_ptr
  next-last r = ap s.next (sym (last-snoc s.cells_ptr c xs)) ∙ r.close

  next-middle : (z : ℕ) (zs : List ℕ) → IsRing s (xs ++ (c ∷ (z ∷ zs))) → s.next c ≡ z
  next-middle z zs r = next_of s.cells_ptr xs r.path
    where
      next_of : (a : ℕ) (ws : List ℕ) → Linked s.next s.prev a (ws ++ (c ∷ (z ∷ zs))) → s.next c ≡ z
      next_of a [] h = h.2.0
      next_of a (w ∷ ws) h = next_of w ws h.2

  set_other : (f : ℕ → ℕ) (i v y : ℕ) → y ≢ i → set f i v y ≡ f y
  set_other f i v y h = ground arith

  set_same : (f : ℕ → ℕ) (i v : ℕ) → set f i v i ≡ v
  set_same f i v = ground arith

  unlink-free :
      (zs : List ℕ)
      → IsRing s (xs ++ (c ∷ zs))
      → (y : ℕ) → has y (s.cells_ptr ∷ (xs ++ zs)) ≡ true
      → is_free s y ≡ true
  unlink-free zs r y m = r.free y (ground (arith, m, has-append y xs zs, has-append y xs (c ∷ zs)))

  unlinked-Linked :
      (zs : List ℕ)
      → IsRing s (xs ++ (c ∷ zs))
      → has (s.next c) xs ≡ false
      → Linked
          (set s.next (s.prev c) (s.next c))
          (set s.prev (s.next c) (s.prev c))
          s.cells_ptr
          (xs ++ zs)
  unlinked-Linked zs r h =
      let p = s.prev c in
      let n = s.next c in
      Linked-remove s.next s.prev (set s.next p n) (set s.prev n p) c (set_other s.next p n)
        (set_same s.next p n) (set_other s.prev n p) (set_same s.prev n p) s.cells_ptr xs zs
        r.distinct h r.path

  before_lem : (zs : List ℕ) → IsRing s (xs ++ (c ∷ zs)) → s.prev c ≡ last s.cells_ptr xs
  before_lem zs r = prev-middle s.next s.prev s.cells_ptr c xs zs r.path

  unlink_last : IsRing s (xs ++ (c ∷ [])) → IsRing (unlink (s.prev c) (s.next c) s) (xs ++ [])
  unlink_last r =
      let a = s.cells_ptr in
      let before = before_lem [] r in
      let after = next-last r in
      let end = last-nil a xs ∙ sym before in
      record {
        path =
            unlinked-Linked [] r
              (ap (λ t. has t xs) after ∙ ground (arith, r.distinct, has-append a xs (c ∷ [])));
        close =
            ap (set s.next (s.prev c) (s.next c)) end
            ∙ set_same s.next (s.prev c) (s.next c)
            ∙ after;
        back =
            ap (set s.prev (s.next c) (s.prev c)) (sym after)
            ∙ set_same s.prev (s.next c) (s.prev c)
            ∙ sym end;
        distinct = Distinct-remove (a ∷ xs) c [] r.distinct;
        free = unlink-free [] r;
      }

  unlink_middle :
      (z : ℕ) (zs : List ℕ)
      → IsRing s (xs ++ (c ∷ (z ∷ zs)))
      → IsRing (unlink (s.prev c) (s.next c) s) (xs ++ (z ∷ zs))
  unlink_middle z zs r =
      let a = s.cells_ptr in
      let before = before_lem (z ∷ zs) r in
      let after = next-middle z zs r in
      let end : last a (xs ++ (z ∷ zs)) ≡ last a (xs ++ (c ∷ (z ∷ zs))) =
        last-append a z xs zs ∙ sym (last-append a c xs (z ∷ zs)) in
      let apart : has z (a ∷ xs) ≡ false =
        Distinct-apart (a ∷ xs) (c ∷ (z ∷ zs)) z r.distinct (ground arith) in
      let end_apart : has (last z zs) (a ∷ xs) ≡ false =
        Distinct-apart (a ∷ xs) (c ∷ (z ∷ zs)) (last z zs) r.distinct
          (ground (arith, has-last z zs)) in
      record {
        path = unlinked-Linked (z ∷ zs) r (ap (λ t. has t xs) after ∙ ground (arith, apart));
        close =
            set_other s.next (s.prev c) (s.next c) (last a (xs ++ (z ∷ zs))) (λ q.
              not-has_of_eq (last a xs) (last z zs) (a ∷ xs) (has-last a xs) end_apart
                (sym before ∙ sym q ∙ last-append a z xs zs))
            ∙ ap s.next end
            ∙ r.close;
        back =
            set_other s.prev (s.next c) (s.prev c) a
              (λ q. not-has_of_eq a z (a ∷ xs) (ground arith) apart (q ∙ after))
            ∙ r.back
            ∙ sym end;
        distinct = Distinct-remove (a ∷ xs) c (z ∷ zs) r.distinct;
        free = unlink-free (z ∷ zs) r;
      }

  pub unlink-IsRing :
      (zs : List ℕ) → IsRing s (xs ++ (c ∷ zs)) → IsRing (unlink (s.prev c) (s.next c) s) (xs ++ zs)
  unlink-IsRing [] r = unlink_last r
  unlink-IsRing (z ∷ zs) r = unlink_middle z zs r

  -- The neighbours are on the ring, and are other cells.
  pub neighbours :
      (zs : List ℕ)
      → IsRing s (xs ++ (c ∷ zs))
      → (has (s.prev c) (s.cells_ptr ∷ xs) ≡ true)
        × (c ≢ s.prev c)
        × (has (s.next c) (s.cells_ptr ∷ zs) ≡ true)
        × (c ≢ s.next c)
  neighbours zs r =
      let a = s.cells_ptr in
      let before = before_lem zs r in
      let here = ap (λ t. has t (a ∷ xs)) before ∙ has-last a xs in
      let apart : has c (a ∷ xs) ≡ false =
        Distinct-apart (a ∷ xs) (c ∷ zs) c r.distinct (ground arith) in
      (
        here,
        (λ q. not-has_of_eq (s.prev c) c (a ∷ xs) here apart (sym q)),
        next_has zs r,
        next_other zs r,
      )
    where
      next_has :
          (ws : List ℕ) → IsRing s (xs ++ (c ∷ ws)) → has (s.next c) (s.cells_ptr ∷ ws) ≡ true
      next_has [] q = ground (arith, next-last q)
      next_has (w ∷ ws) q = ground (arith, next-middle w ws q)

      next_other : (ws : List ℕ) → IsRing s (xs ++ (c ∷ ws)) → c ≢ s.next c
      next_other [] q e =
          not-has_of_eq s.cells_ptr c (s.cells_ptr ∷ xs) (ground arith)
            (Distinct-apart (s.cells_ptr ∷ xs) (c ∷ []) c q.distinct (ground arith))
            (sym (next-last q) ∙ sym e)
      next_other (w ∷ ws) q e =
          not-has_of_eq w c (w ∷ ws) (ground arith)
            (Distinct-right (s.cells_ptr ∷ xs) (c ∷ (w ∷ ws)) q.distinct).0
            (sym (next-middle w ws q) ∙ sym e)
