-- ===== src/Prelude/Dict.antt =====
-- Go's maps, as association lists. Go iterates over a map in any order: a statement about all
-- association lists is a statement about every order.
use Prim.Native.Nat.{suc, ◌+◌}
use mathlib.Core.Path.{◌≡◌, refl}
use mathlib.Core.Bool.{Bool}
use mathlib.Core.List.{List, [], ◌∷◌}
use mathlib.Core.Option.{Option, none, some}
use native.Mathlib.Omega.{arith}
use event_stream_rainstorm.Prelude.Tests.{Eq, ◌==◌, if◌then◌else◌, is_some}
use event_stream_rainstorm.Prelude.Lists.{length, All}

abbrev pub Dict {ℓ κ} : Type ℓ → Type κ → Type (ℓ ⊔ κ)
Dict K V = List (K × V)

module _ {ℓ κ} {K : Type ℓ} {V : Type κ} ⦃e : Eq K⦄ where
  -- `v, ok := m[k]`
  unfoldable pub get : K → Dict K V → Option V
  get k [] = none
  get k ((j, v) ∷ d) = if j == k then some v else get k d

  abbrev pub has : K → Dict K V → Bool
  has k d = is_some (get k d)

  -- `m[k] = v`
  unfoldable pub put : K → V → Dict K V → Dict K V
  put k v [] = (k, v) ∷ []
  put k v ((j, w) ∷ d) = if j == k then (k, v) ∷ d else (j, w) ∷ put k v d

  -- `delete(m, k)`
  unfoldable pub remove : K → Dict K V → Dict K V
  remove k [] = []
  remove k ((j, v) ∷ d) = let rest = remove k d in if j == k then rest else (j, v) ∷ rest

  -- A write through the pointer that `m[k]` holds.
  unfoldable pub adjust : K → (V → V) → Dict K V → Dict K V
  adjust k f [] = []
  adjust k f ((j, v) ∷ d) = if j == k then (j, f v) ∷ d else (j, v) ∷ adjust k f d

  pub get-put :
      (k j : K) (v : V) (d : Dict K V) → get j (put k v d) ≡ (if k == j then some v else get j d)
  unfolding get put
  get-put k j v [] = refl
  get-put k j v ((i, w) ∷ d) =
      ground (arith, e.decides k j, e.decides i k, e.decides i j, get-put k j v d)

  pub get-remove :
      (k j : K) (d : Dict K V) → get j (remove k d) ≡ (if k == j then none else get j d)
  unfolding get remove
  get-remove k j [] = ground arith
  get-remove k j ((i, w) ∷ d) =
      ground (arith, e.decides k j, e.decides i k, e.decides i j, get-remove k j d)

  pub get-adjust :
      (k j : K) (f : V → V) (d : Dict K V)
      → get j (adjust k f d)
        ≡ (if k == j then elim (get j d) [ none ↦ none | some v ↦ some (f v) ] else get j d)
  unfolding get adjust
  get-adjust k j f [] = ground arith
  get-adjust k j f ((i, w) ∷ d) =
      ground (arith, e.decides k j, e.decides i k, e.decides i j, get-adjust k j f d)

  -- Every key stands once, as in a real map.
  abbrev pub IsMap : Dict K V → Type κ
  IsMap [] = Unit
  IsMap ((k, v) ∷ d) = (get k d ≡ none) × IsMap d

module _ {ℓ κ} {K : Type ℓ} {V : Type κ} ⦃e : Eq K⦄ where
  pub put-IsMap : (k : K) (v : V) (d : Dict K V) → IsMap d → IsMap (put k v d)
  unfolding put get
  put-IsMap k v [] m = (refl, tt)
  put-IsMap k v ((j, w) ∷ d) m =
      ground (arith, put-IsMap k v d m.1, get-put k j v d, e.decides j k, e.decides k j)

  pub remove-IsMap : (k : K) (d : Dict K V) → IsMap d → IsMap (remove k d)
  unfolding remove get
  remove-IsMap k [] m = tt
  remove-IsMap k ((j, w) ∷ d) m = ground (arith, remove-IsMap k d m.1, get-remove k j d)

  pub adjust-IsMap : (k : K) (f : V → V) (d : Dict K V) → IsMap d → IsMap (adjust k f d)
  unfolding adjust get
  adjust-IsMap k f [] m = tt
  adjust-IsMap k f ((j, w) ∷ d) m =
      ground (arith, adjust-IsMap k f d m.1, get-adjust k j f d, e.decides j k, e.decides k j)

  pub put-All {μ} :
      (P : K × V → Type μ) (k : K) (v : V) (d : Dict K V) → All P d → P (k, v) → All P (put k v d)
  unfolding put
  put-All P k v [] h p = (p, tt)
  put-All P k v ((j, w) ∷ d) h p = ground (arith, put-All P k v d h.1)

  pub length-put :
      (k : K) (v : V) (d : Dict K V)
      → length (put k v d) ≡ (if is_some (get k d) then length d else suc (length d))
  unfolding put get
  length-put k v [] = refl
  length-put k v ((j, w) ∷ d) = ground (arith, length-put k v d)

  pub remove_absent : (k : K) (d : Dict K V) → get k d ≡ none → remove k d ≡ d
  unfolding remove get
  remove_absent k [] h = refl
  remove_absent k ((j, w) ∷ d) h = ground (arith, remove_absent k d)

  pub length-remove :
      (k : K) (d : Dict K V)
      → IsMap d
      → length (remove k d) + (if is_some (get k d) then 1 else 0) ≡ length d
  unfolding remove get
  length-remove k [] m = omega arith
  length-remove k ((j, w) ∷ d) m =
      ground (arith, length-remove k d m.1, e.decides j k, remove_absent k d)

-- A `for … range` loop that writes through each pointer.
module _ {ℓ κ μ} {K : Type ℓ} {V : Type κ} {W : Type μ} where
  unfoldable pub map_values : (K → V → W) → Dict K V → Dict K W
  map_values f [] = []
  map_values f ((k, v) ∷ d) = (k, f k v) ∷ map_values f d

  pub get-map_values :
      ⦃e : Eq K⦄
      → (f : K → V → W) (k : K) (d : Dict K V)
      → get k (map_values f d) ≡ elim (get k d) [ none ↦ none | some v ↦ some (f k v) ]
  unfolding get map_values
  get-map_values ⦃e⦄ f k [] = refl
  get-map_values ⦃e⦄ f k ((j, v) ∷ d) = ground (arith, e.decides j k, get-map_values f k d)

pub ruleset dict_laws = (get-put, get-remove, get-adjust, get-map_values)
