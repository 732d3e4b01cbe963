-- ===== src/Maps.antt =====
-- The maps of startle/map.c as an interface: what parse/parse.c and module.c use of them.
pub mod Entries
use poprc.Prelude.{
  ℕ, ◌+◌, ◌≤◌, ◌<◌, ◌≡◌, Bool, true, false, List, [], ◌∷◌, Option, none, some, ltb, ◌==◌,
  if◌then◌else◌, length, ◌=t◌,
}

-- The first value of a key
abbrev pub lookup : {V : Type 0} → List ℕ → List (List ℕ × V) → Option V
lookup k [] = none
lookup k ((k', v) ∷ ps) = if k =t k' then some v else lookup k ps

-- The order of `strcmp`
abbrev pub text_ltb : List ℕ → List ℕ → Bool
text_ltb xs [] = false
text_ltb [] (y ∷ ys) = true
text_ltb (x ∷ xs) (y ∷ ys) = if x == y then text_ltb xs ys else ltb x y

abbrev pub Sorted : {V : Type 0} → List (List ℕ × V) → Type 0
Sorted [] = Unit
Sorted ((k, v) ∷ []) = Unit
Sorted ((k, v) ∷ ((k', v') ∷ ps)) = (text_ltb k k' ≡ true) × Sorted ((k', v') ∷ ps)

-- Maps from strings, as startle/map.c keeps them in an array: of sorted entries, or by insertions. A
-- full map does not take an entry.
pub record StringMap (V : Type 0) : Type 1 where
  pub Map : Type 0
  pub map_size : Map → ℕ
  pub map_cnt : Map → ℕ
  pub string_map_find : Map → List ℕ → Option V
  pub string_map_insert : Map → List ℕ → V → Map
  pub of_sorted : (size : ℕ) → List (List ℕ × V) → Map
  pub size-insert : (m : Map) (k : List ℕ) (v : V) → map_size (string_map_insert m k v) ≡ map_size m
  pub cnt-insert :
      (m : Map) (k : List ℕ) (v : V)
      → map_cnt m < map_size m
      → map_cnt (string_map_insert m k v) ≡ map_cnt m + 1
  pub find-insert :
      (m : Map) (k : List ℕ) (v : V)
      → map_cnt m < map_size m
      → string_map_find m k ≡ none
      → string_map_find (string_map_insert m k v) k ≡ some v
  pub find-insert_other :
      (m : Map) (k : List ℕ) (v : V) (l : List ℕ)
      → map_cnt m < map_size m
      → (l =t k) ≡ false
      → string_map_find (string_map_insert m k v) l ≡ string_map_find m l
  pub insert-full :
      (m : Map) (k : List ℕ) (v : V) → map_size m ≤ map_cnt m → string_map_insert m k v ≡ m
  pub size-of_sorted : (n : ℕ) (ps : List (List ℕ × V)) → map_size (of_sorted n ps) ≡ n
  pub cnt-of_sorted : (n : ℕ) (ps : List (List ℕ × V)) → map_cnt (of_sorted n ps) ≡ length ps
  pub find-of_sorted :
      (n : ℕ) (ps : List (List ℕ × V)) (k : List ℕ)
      → Sorted ps
      → string_map_find (of_sorted n ps) k ≡ lookup k ps
  -- An entry that was found is given another value.
  pub set_second : Map → List ℕ → V → Map
  pub size-set : (m : Map) (k : List ℕ) (v : V) → map_size (set_second m k v) ≡ map_size m
  pub cnt-set : (m : Map) (k : List ℕ) (v : V) → map_cnt (set_second m k v) ≡ map_cnt m
  pub find-set :
      (m : Map) (k : List ℕ) (v old : V)
      → string_map_find m k ≡ some old
      → string_map_find (set_second m k v) k ≡ some v
  pub find-set_other :
      (m : Map) (k : List ℕ) (v : V) (l : List ℕ)
      → (l =t k) ≡ false
      → string_map_find (set_second m k v) l ≡ string_map_find m l
  -- The entries, copied into a map of another size.
  pub copy_into : ℕ → Map → Map
  pub size-copy : (n : ℕ) (m : Map) → map_size (copy_into n m) ≡ n
  pub cnt-copy : (n : ℕ) (m : Map) → map_cnt (copy_into n m) ≡ map_cnt m
  pub find-copy :
      (n : ℕ) (m : Map) (k : List ℕ) → string_map_find (copy_into n m) k ≡ string_map_find m k
