-- ===== src/Cells/Ring/Supply.antt =====
-- The allocation of a closure by cells.c when no cells are left that were never used.
use native.Mathlib.Omega.{arith}
use poprc.Prelude.{
  ℕ, suc, ◌+◌, ◌≤◌, ◌<◌, ◌≡◌, refl, ap, sym, ◌∙◌, ◌⊎◌, inl, inr, Bool, true, false, ◌&&◌, not, List,
  ◌∷◌, Option, none, some, leb, ◌==◌, if◌then◌else◌, length, Bool-cases, Option-cases, leb→le,
}
use poprc.Cells.Ring.{Pool, take_cells, from_ring, max_alloc_size, count_alloc, closure_alloc_cells}
use poprc.Cells.Ring.Links.{has}
use poprc.Cells.Ring.Alloc.{
  AllOnRing, OnRing, IsTaken, enough_rounds, from_ring-IsTaken, from_ring-one, within,
}
use poprc.Cells.Ring.Account.{limit, IsPool, closure_alloc_cells-fresh}

-- The state that the ring is allocated from: `uninitialized_cells` is forgotten for a single cell.
abbrev forget : (size : ℕ) → Pool → Pool
forget size s = if size == 1 then record s { uninitialized = none } else s

forget-IsPool :
    (size : ℕ) (s : Pool) (ys : List ℕ)
    → IsPool s ys
    → limit s ≡ s.cells_size
    → IsPool (forget size s) ys × (limit (forget size s) ≡ (forget size s).cells_size)
forget-IsPool size s ys p l =
    elim (size == 1)
      as (λ b.
        let t = if b then record s { uninitialized = none } else s in
        IsPool t ys × (limit t ≡ t.cells_size)) [
          | true ↦
              let r = p.ring in
              (
                record {
                  ring = record {
                    path = r.path;
                    close = r.close;
                    back = r.back;
                    distinct = r.distinct;
                    free = r.free;
                  };
                  count = p.count ∙ l;
                  used = λ i m. omega (arith, p.used i m, l);
                  bound = omega arith;
                },
                refl,
              )
          | false ↦ (p, l)
        ]

forget-ptr : (size : ℕ) (s : Pool) → (forget size s).cells_ptr ≡ s.cells_ptr
forget-ptr size s =
    elim (size == 1)
      as (λ b. (if b then record s { uninitialized = none } else s).cells_ptr ≡ s.cells_ptr) [
        | true ↦ refl
        | false ↦ refl
      ]

forget-count : (size : ℕ) (s : Pool) → (forget size s).alloc_cnt ≡ s.alloc_cnt
forget-count size s =
    elim (size == 1)
      as (λ b. (if b then record s { uninitialized = none } else s).alloc_cnt ≡ s.alloc_cnt) [
        | true ↦ refl
        | false ↦ refl
      ]

forget-AllOnRing :
    (size : ℕ) (s : Pool) (ys : List ℕ) → AllOnRing s ys → AllOnRing (forget size s) ys
forget-AllOnRing size s ys h =
    elim (size == 1) as (λ b. AllOnRing (if b then record s { uninitialized = none } else s) ys) [
      | true ↦ h
      | false ↦ h
    ]

-- A chunk of the ring is given out, and counted.
taken-IsPool :
    (size c : ℕ) (s : Pool) (ys : List ℕ) (s' : Pool)
    → IsPool s ys
    → limit s ≡ s.cells_size
    → (t : IsTaken size c s ys s') → IsPool (record s' { alloc_cnt = s'.alloc_cnt + size }) t.rest
taken-IsPool size c s ys s' p l t =
    let top : limit s' ≡ limit s =
      ap (λ o. elim o [ none ↦ s'.cells_size | some u ↦ u ]) t.same.fresh
      ∙ ap (λ n. elim s.uninitialized [ none ↦ n | some u ↦ u ]) t.same.size in
    record {
      ring = record {
        path = t.ring.path;
        close = t.ring.close;
        back = t.ring.back;
        distinct = t.ring.distinct;
        free = t.ring.free;
      };
      count = omega (arith, p.count, t.count, t.same.count, top);
      used = λ i m. omega (
        arith,
        p.used i
            (and_left (has i (s.cells_ptr ∷ ys)) (not (within c size i)) (sym (t.members i) ∙ m)),
        top,
      );
      bound = omega (arith, top, t.same.size, p.bound);
    }
  where
    and_left : (a b : Bool) → (a && b) ≡ true → a ≡ true
    and_left a b h = ground arith

take_cells-from_ring :
    (k size : ℕ) (s : Pool)
    → limit s ≡ s.cells_size
    → 0 < size
    → take_cells k size s ≡ from_ring k size (forget size s)
unfolding take_cells
take_cells-from_ring k size s l h = elim (Option-cases s.uninitialized) [
  | inl e ↦ rw e refl
  | inr (u, e) ↦
      let top = sym (ap (λ o. elim o [ none ↦ s.cells_size | some u ↦ u ]) e) ∙ l in
      let full : leb (u + size) s.cells_size ≡ false = ground arith in rw (e, full) refl
]

counted_lem :
    (k size : ℕ) (s : Pool)
    → (o : Option (Option (ℕ × Pool))) → take_cells k size s ≡ o
    → (closure_alloc_cells k size s ≡ some none)
      ⊎ (closure_alloc_cells k size s ≡ count_alloc size o)
unfolding closure_alloc_cells
counted_lem k size s o e =
    elim (Bool-cases (leb size max_alloc_size && leb (s.alloc_cnt + size) s.cells_size)) [
      | inl b ↦ inr (rw (b, e) refl)
      | inr b ↦ inl (rw b refl)
    ]

counted-fits_lem :
    (k size : ℕ) (s : Pool)
    → (o : Option (Option (ℕ × Pool))) → size ≤ max_alloc_size
    → s.alloc_cnt + size ≤ s.cells_size
    → take_cells k size s ≡ o
    → closure_alloc_cells k size s ≡ count_alloc size o
unfolding closure_alloc_cells
counted-fits_lem k size s o h w e =
    let small : leb size max_alloc_size ≡ true = ground arith in
    let fits : leb (s.alloc_cnt + size) s.cells_size ≡ true = ground arith in
    rw (small, fits, e) refl

-- With no cell left that was never used, and all free cells on the ring, the allocation of a closure
-- ends. It fails, or it gives out cells that were all on the ring, takes these and no others off it,
-- counts them as given out, and keeps the ring and the account.
pub closure_alloc_cells-IsPool :
    (k size : ℕ) (s : Pool) (ys : List ℕ)
    → IsPool s ys
    → limit s ≡ s.cells_size
    → AllOnRing s ys
    → 0 < size
    → enough_rounds (length ys) size ≤ k
    → (closure_alloc_cells k size s ≡ some none)
      ⊎ ((c : ℕ) × (s' : Pool) × (zs : List ℕ) × (closure_alloc_cells k size s
            ≡ some (some (c, s')))
          × IsPool s' zs
          × ((i : ℕ)
              → has i (s'.cells_ptr ∷ zs) ≡ (has i (s.cells_ptr ∷ ys) && not (within c size i)))
          × OnRing c size s ys
          × (s'.alloc_cnt ≡ s.alloc_cnt + size))
closure_alloc_cells-IsPool k size s ys p l all h w =
    let (q, m) = forget-IsPool size s ys p l in
    elim (from_ring-IsTaken k size (forget size s) ys q.ring (forget-AllOnRing size s ys all) w) [
      | inl e ↦ elim (counted_lem k size s (some none) (take_cells-from_ring k size s l h ∙ e)) [
        | inl f ↦ inl f
        | inr f ↦ inl f
      ]
      | inr (c, s', e, t) ↦
          let taken = take_cells-from_ring k size s l h ∙ e in
          elim (counted_lem k size s (some (some (c, s'))) taken) [
            | inl f ↦ inl f
            | inr f ↦ inr (
              c,
              record s' { alloc_cnt = s'.alloc_cnt + size },
              t.rest,
              f,
              taken-IsPool size c (forget size s) ys s' q m t,
              λ i.
                  t.members i
                  ∙ ap (λ a. has i (a ∷ ys) && not (within c size i)) (forget-ptr size s),
              λ i lo hi. ap (λ a. has i (a ∷ ys)) (sym (forget-ptr size s)) ∙ t.taken i lo hi,
              ap (λ n. n + size) (t.same.count ∙ forget-count size s),
            )
          ]
    ]

-- A cell can be allocated as long as two are on the ring.
pub closure_alloc_cells-one :
    (k : ℕ) (s : Pool) (y : ℕ) (ys : List ℕ)
    → IsPool s (y ∷ ys)
    → (c : ℕ) × (s' : Pool) × (zs : List ℕ) × (closure_alloc_cells (suc (suc k)) 1 s
        ≡ some (some (c, s')))
      × IsPool s' zs
closure_alloc_cells-one k s y ys p = elim (Option-cases s.uninitialized) [
  | inl e ↦ by_ring (top_lem none e)
  | inr (u, e) ↦ elim (Bool-cases (leb (u + 1) s.cells_size)) [
    | inl b ↦
        let (s', q, r, o) =
          closure_alloc_cells-fresh (suc (suc k)) 1 u s (y ∷ ys) p e (omega arith)
            (leb→le (u + 1) s.cells_size b) in
        (u, s', y ∷ ys, q, r)
    | inr b ↦ by_ring (top_lem (some u) e ∙ ground (arith, b, p.bound, top_lem (some u) e))
  ]
]
  where
    top_lem :
        (o : Option ℕ)
        → s.uninitialized ≡ o
        → limit s ≡ (elim o [ none ↦ s.cells_size | some u ↦ u ])
    top_lem o e = ap (λ o. elim o [ none ↦ s.cells_size | some u ↦ u ]) e

    by_ring :
        limit s ≡ s.cells_size
        → (c : ℕ) × (s' : Pool) × (zs : List ℕ) × (closure_alloc_cells (suc (suc k)) 1 s
            ≡ some (some (c, s')))
          × IsPool s' zs
    by_ring l =
        let (q, m) = forget-IsPool 1 s (y ∷ ys) p l in
        let (s', e, t) = from_ring-one k (forget 1 s) y ys q.ring in
        (
          s.cells_ptr,
          record s' { alloc_cnt = s'.alloc_cnt + 1 },
          t.rest,
          counted-fits_lem (suc (suc k)) 1 s (some (some (s.cells_ptr, s'))) (omega arith)
              (omega (arith, p.count, l))
              (take_cells-from_ring (suc (suc k)) 1 s l (omega arith) ∙ e),
          taken-IsPool 1 s.cells_ptr (forget 1 s) (y ∷ ys) s' q m t,
        )
