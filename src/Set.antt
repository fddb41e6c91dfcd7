-- ===== src/Set.antt =====
-- internal/set/set.go: a set of keys as its membership test.
pub mod Difference
mod Tests
use geas.Prelude.{Bool, true, false, List, [], ◌∷◌, Eq, ◌==◌, if◌then◌else◌}

abbrev pub Set {ℓ} : Type ℓ → Type ℓ
Set K = K → Bool

abbrev pub no_keys {ℓ} : {K : Type ℓ} → Set K
no_keys k = false

module _ {ℓ} {K : Type ℓ} ⦃e : Eq K⦄ where
  abbrev pub add : K → Set K → Set K
  add k s j = if k == j then true else s j

  abbrev pub includes : Set K → K → Bool
  includes s k = s k

  unfoldable pub add_all : List K → Set K → Set K
  add_all [] s = s
  add_all (x ∷ xs) s = add_all xs (add x s)

  unfoldable pub not_included : List K → Set K → List K
  not_included [] s = []
  not_included (x ∷ xs) s = if includes s x then not_included xs s else x ∷ not_included xs s

  unfoldable pub diff : List K → List K → List K
  unfolding add_all not_included
  diff a b = not_included a (add_all b no_keys)
