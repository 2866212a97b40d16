-- ===== src/Prelude/Maps.antt =====
-- Go's maps and sets, as association lists and lists.
use Prim.Native.Nat.{◌+◌, ◌≤◌}
use mathlib.Core.Path.{◌≡◌, refl}
use mathlib.Core.Bool.{Bool, true, false, not, ◌&&◌, ◌||◌}
use mathlib.Core.Option.{Option, none, some}
use mathlib.Core.List.{List, [], ◌∷◌, ◌++◌}
use native.Mathlib.Omega.{arith}
use kive.Prelude.Tests.{if◌then◌else◌, Key, ◌==◌}
use kive.Prelude.Lists.{length, length-append}

module _ {K V : Type 0} ⦃key : Key K⦄ where
  -- `v, ok := m[k]`
  unfoldable pub get : K → List (K × V) → Option V
  get k [] = none
  get k ((j, v) ∷ m) = if j == k then some v else get k m

  -- `m[k] = v`
  unfoldable pub put : K → V → List (K × V) → List (K × V)
  put k v [] = (k, v) ∷ []
  put k v ((j, w) ∷ m) = if j == k then (k, v) ∷ m else (j, w) ∷ put k v m

  -- `delete(m, k)`
  unfoldable pub remove : K → List (K × V) → List (K × V)
  remove k [] = []
  remove k ((j, v) ∷ m) = let rest = remove k m in if j == k then rest else (j, v) ∷ rest

  pub get-put :
      (k j : K) (v : V) (m : List (K × V))
      → get j (put k v m) ≡ (if k == j then some v else get j m)
  unfolding get put
  get-put k j v [] = refl
  get-put k j v ((i, w) ∷ m) = ground (arith, get-put k j v m)

  pub get-remove :
      (k j : K) (m : List (K × V)) → get j (remove k m) ≡ (if k == j then none else get j m)
  unfolding get remove
  get-remove k j [] = ground arith
  get-remove k j ((i, w) ∷ m) = ground (arith, get-remove k j m)

  -- One entry for each key.
  abbrev pub Distinct : List (K × V) → Type 0
  Distinct [] = Unit
  Distinct ((k, v) ∷ m) = (get k m ≡ none) × Distinct m

  pub put-Distinct : (k : K) (v : V) (m : List (K × V)) → Distinct m → Distinct (put k v m)
  unfolding get put
  put-Distinct k v [] h = (refl, tt)
  put-Distinct k v ((j, w) ∷ m) h = ground (arith, put-Distinct k v m, get-put k j v m)

module _ {K : Type 0} ⦃key : Key K⦄ where
  -- `_, ok := s[k]`
  unfoldable pub has : K → List K → Bool
  has k [] = false
  has k (j ∷ s) = j == k || has k s

  -- `s[k] = struct{}{}`
  unfoldable pub insert : K → List K → List K
  unfolding has
  insert k s = if has k s then s else s ++ k ∷ []

  -- `delete(s, k)`
  unfoldable pub delete : K → List K → List K
  delete k [] = []
  delete k (j ∷ s) = let rest = delete k s in if j == k then rest else j ∷ rest

  pub has-append : (k : K) (s t : List K) → has k (s ++ t) ≡ (has k s || has k t)
  unfolding has
  has-append k [] t = refl
  has-append k (j ∷ s) t = ground (arith, has-append k s t)

  pub has-insert : (k j : K) (s : List K) → has j (insert k s) ≡ (k == j || has j s)
  unfolding insert has
  has-insert k j s = ground (arith, has-append j s (k ∷ []))

  pub has-delete : (k j : K) (s : List K) → has j (delete k s) ≡ (not (k == j) && has j s)
  unfolding delete has
  has-delete k j [] = ground arith
  has-delete k j (i ∷ s) = ground (arith, has-delete k j s)

  -- No member stands twice.
  abbrev pub Unique : List K → Type 0
  Unique [] = Unit
  Unique (k ∷ s) = (has k s ≡ false) × Unique s

  pub append-Unique : (k : K) (s : List K) → has k s ≡ false → Unique s → Unique (s ++ k ∷ [])
  unfolding has
  append-Unique k [] h u = (refl, tt)
  append-Unique k (j ∷ s) h u = ground (arith, append-Unique k s, has-append j s (k ∷ []))

  pub insert-Unique : (k : K) (s : List K) → Unique s → Unique (insert k s)
  unfolding insert
  insert-Unique k s u = ground (arith, append-Unique k s)

  pub delete-Unique : (k : K) (s : List K) → Unique s → Unique (delete k s)
  unfolding delete has
  delete-Unique k [] u = tt
  delete-Unique k (j ∷ s) u = ground (arith, delete-Unique k s, has-delete k j s)

  pub length-insert :
      (k : K) (s : List K) → length (insert k s) ≡ (if has k s then length s else length s + 1)
  unfolding insert
  length-insert k s = ground (arith, length-append s (k ∷ []))

  pub delete_absent : (k : K) (s : List K) → has k s ≡ false → delete k s ≡ s
  unfolding delete has
  delete_absent k [] h = refl
  delete_absent k (j ∷ s) h = ground (arith, delete_absent k s)

  pub length-delete :
      (k : K) (s : List K) → Unique s → has k s ≡ true → length (delete k s) + 1 ≡ length s
  unfolding delete has
  length-delete k [] u h = ground arith
  length-delete k (j ∷ s) u h = ground (arith, length-delete k s, delete_absent k s)

  pub length-delete-le : (k : K) (s : List K) → length (delete k s) ≤ length s
  unfolding delete
  length-delete-le k [] = omega arith
  length-delete-le k (j ∷ s) = ground (arith, length-delete-le k s)

module _ {K V : Type 0} ⦃key : Key K⦄ where
  -- `for k, v := range m { v.… = … }` over a map of pointers
  unfoldable pub map_values : (V → V) → List (K × V) → List (K × V)
  map_values f [] = []
  map_values f ((k, v) ∷ m) = (k, f v) ∷ map_values f m

  pub get-map_values :
      (f : V → V) (k : K) (m : List (K × V))
      → get k (map_values f m) ≡ elim (get k m) [ none ↦ none | some v ↦ some (f v) ]
  unfolding map_values get
  get-map_values f k [] = refl
  get-map_values f k ((j, v) ∷ m) = ground (arith, get-map_values f k m)

  pub map_values-Distinct : (f : V → V) (m : List (K × V)) → Distinct m → Distinct (map_values f m)
  unfolding map_values
  map_values-Distinct f [] h = tt
  map_values-Distinct f ((k, v) ∷ m) h =
      ground (arith, map_values-Distinct f m, get-map_values f k m)
