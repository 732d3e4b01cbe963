-- ===== src/Maps/Entries.antt =====
-- Maps as association lists: the interface to startle/map.c can be met.
use native.Mathlib.Omega.{arith}
use mathlib.Core.Option.{none-ne-some}
use poprc.Prelude.{
  ℕ, suc, ◌≤◌, ◌<◌, ◌≡◌, refl, ap, sym, ◌∙◌, true, false, List, [], ◌∷◌, some, ltb, if◌then◌else◌,
  length, ◌=t◌, =t_refl, =t→eq, Bool-cases, inl, inr,
}
use poprc.Maps.{StringMap, lookup}

pub record Entries (V : Type 0) : Type 0 where
  pub room : ℕ
  pub entries : List (List ℕ × V)

abbrev pub put : {V : Type 0} → Entries V → List ℕ → V → Entries V
put m k v = if ltb (length m.entries) m.room then record m { entries = (k, v) ∷ m.entries } else m

pub put-here :
    {V : Type 0} (m : Entries V) (k : List ℕ) (v : V)
    → length m.entries < m.room
    → put m k v ≡ record m { entries = (k, v) ∷ m.entries }
put-here m k v h = let e : ltb (length m.entries) m.room ≡ true = ground arith in rw e refl

pub put-room : {V : Type 0} (m : Entries V) (k : List ℕ) (v : V) → (put m k v).room ≡ m.room
put-room m k v =
    elim (ltb (length m.entries) m.room)
      as (λ b. (if b then record m { entries = (k, v) ∷ m.entries } else m).room ≡ m.room) [
        | true ↦ refl
        | false ↦ refl
      ]

pub put-full :
    {V : Type 0} (m : Entries V) (k : List ℕ) (v : V) → m.room ≤ length m.entries → put m k v ≡ m
put-full m k v h = let e : ltb (length m.entries) m.room ≡ false = ground arith in rw e refl

abbrev pub set_value : {V : Type 0} → List ℕ → V → List (List ℕ × V) → List (List ℕ × V)
set_value k v [] = []
set_value k v ((l, w) ∷ ps) = if k =t l then (l, v) ∷ ps else (l, w) ∷ set_value k v ps

pub length-set_value :
    {V : Type 0} (k : List ℕ) (v : V) (ps : List (List ℕ × V))
    → length (set_value k v ps) ≡ length ps
length-set_value k v [] = refl
length-set_value k v ((l, w) ∷ ps) = elim (Bool-cases (k =t l)) [
  | inl e ↦ rw e refl
  | inr e ↦ rw e (ap suc (length-set_value k v ps))
]

pub lookup-set_value :
    {V : Type 0} (k : List ℕ) (v : V) (ps : List (List ℕ × V)) (old : V)
    → lookup k ps ≡ some old
    → lookup k (set_value k v ps) ≡ some v
lookup-set_value k v [] old h = absurd (none-ne-some old h)
lookup-set_value k v ((l, w) ∷ ps) old h = elim (Bool-cases (k =t l)) [
  | inl e ↦ rw (e, e) refl
  | inr e ↦ rw (e, e) (lookup-set_value k v ps old (sym (miss e) ∙ h))
]
  where
    miss : (k =t l) ≡ false → lookup k ((l, w) ∷ ps) ≡ lookup k ps
    miss e = rw e refl

pub lookup-set_value_other :
    {V : Type 0} (k : List ℕ) (v : V) (ps : List (List ℕ × V)) (j : List ℕ)
    → (j =t k) ≡ false
    → lookup j (set_value k v ps) ≡ lookup j ps
lookup-set_value_other k v [] j h = refl
lookup-set_value_other k v ((l, w) ∷ ps) j h = elim (Bool-cases (k =t l)) [
  | inl e ↦
      let miss : (j =t l) ≡ false = ap (λ t. j =t t) (sym (=t→eq k l e)) ∙ h in rw (e, miss) refl
  | inr e ↦ elim (Bool-cases (j =t l)) [
    | inl b ↦ rw (e, b) refl
    | inr b ↦ rw (e, b) (lookup-set_value_other k v ps j h)
  ]
]

abbrev pub entries_map : (V : Type 0) → StringMap V
entries_map V = record {
  Map = Entries V;
  map_size = λ m. m.room;
  map_cnt = λ m. length m.entries;
  string_map_find = λ m k. lookup k m.entries;
  string_map_insert = put;
  of_sorted = λ n ps. record { room = n; entries = ps };
  size-insert = put-room;
  cnt-insert = λ m k v h. ap (λ t. length t.entries) (put-here m k v h) ∙ omega arith;
  find-insert = λ m k v h n. ap (λ t. lookup k t.entries) (put-here m k v h) ∙ rw (=t_refl k) refl;
  find-insert_other = λ m k v l h n. ap (λ t. lookup l t.entries) (put-here m k v h) ∙ rw n refl;
  insert-full = put-full;
  size-of_sorted = λ n ps. refl;
  cnt-of_sorted = λ n ps. refl;
  find-of_sorted = λ n ps k s. refl;
  set_second = λ m k v. record m { entries = set_value k v m.entries };
  size-set = λ m k v. refl;
  cnt-set = λ m k v. length-set_value k v m.entries;
  find-set = λ m k v old h. lookup-set_value k v m.entries old h;
  find-set_other = λ m k v l h. lookup-set_value_other k v m.entries l h;
  copy_into = λ n m. record m { room = n };
  size-copy = λ n m. refl;
  cnt-copy = λ n m. refl;
  find-copy = λ n m k. refl;
}
