-- ===== src/Common/Maps.antt =====
-- A Go map as an association list: reading, `m[k] = v` and `delete(m, k)`, with their laws.
use mathlib.Core.Path.{◌≡◌, refl}
use mathlib.Core.Option.{Option, none, some}
use mathlib.Core.List.{List, [], ◌∷◌}
use native.Mathlib.Omega.{arith}
use ebookfs.Common.Tests.{if◌then◌else◌}
use ebookfs.Common.Keys.{Comparable, same}

abbrev pub Dict {ℓ κ} : Type ℓ → Type κ → Type (ℓ ⊔ κ)
Dict K V = List (K × V)

module _ {ℓ κ} {K : Type ℓ} {V : Type κ} ⦃e : Comparable K⦄ where
  unfoldable pub get : Dict K V → K → Option V
  get [] k = none
  get ((j, v) ∷ m) k = if same j k then some v else get m k

  unfoldable pub delete : Dict K V → K → Dict K V
  delete [] k = []
  delete ((j, v) ∷ m) k = let rest = delete m k in if same j k then rest else (j, v) ∷ rest

  unfoldable pub put : Dict K V → K → V → Dict K V
  put m k v = (k, v) ∷ delete m k

  pub get-nil : (k : K) → get [] k ≡ none
  unfolding get
  get-nil k = refl

  pub get-delete :
      (m : Dict K V) (k j : K) → get (delete m k) j ≡ (if same k j then none else get m j)
  unfolding get delete
  get-delete [] k j = ground arith
  get-delete ((i, v) ∷ m) k j =
      ground (arith, get-delete m k j, e.beq_iff i k, e.beq_iff i j, e.beq_iff k j)

  pub get-put :
      (m : Dict K V) (k : K) (v : V) (j : K)
      → get (put m k v) j ≡ (if same k j then some v else get m j)
  unfolding get put
  get-put m k v j = ground (arith, get-delete m k j)

pub ruleset dict_laws = (get-nil, get-delete, get-put)
