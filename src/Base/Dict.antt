-- ===== src/Base/Dict.antt =====
-- Python dicts as association lists in insertion order.
use mathlib.Core.List.{List, [], ◌∷◌}
use mathlib.Core.Option.{Option, none, some}
use mathlib.Core.Path.{◌≡◌, refl, ap, ◌∙◌}
use native.Mathlib.Omega.{arith}
use logs_interceptor_python.Base.Tests.{Comparable, ◌==◌, if◌then◌else◌}

abbrev pub Dict {ℓ κ} : Type ℓ → Type κ → Type (ℓ ⊔ κ)
Dict K V = List (K × V)

module _ {ℓ κ} {K : Type ℓ} {V : Type κ} ⦃e : Comparable K⦄ where
  -- `d.get(k)`
  unfoldable pub lookup : K → Dict K V → Option V
  lookup k [] = none
  lookup k (x ∷ d) = if x.0 == k then some x.1 else lookup k d

  -- `d[k] = v`: a key that is there keeps its place.
  unfoldable pub insert : K → V → Dict K V → Dict K V
  insert k v [] = (k, v) ∷ []
  insert k v (x ∷ d) = if x.0 == k then (x.0, v) ∷ d else x ∷ insert k v d

  -- `d.pop(k, None)`, without the value
  unfoldable pub erase : K → Dict K V → Dict K V
  erase k [] = []
  erase k (x ∷ d) = if x.0 == k then d else x ∷ erase k d

  -- `{**d, **u}`
  unfoldable pub update : Dict K V → Dict K V → Dict K V
  update d [] = d
  update d (x ∷ u) = update (insert x.0 x.1 d) u

  pub lookup-insert :
      (k j : K) (v : V) (d : Dict K V)
      → lookup j (insert k v d) ≡ (if k == j then some v else lookup j d)
  unfolding lookup insert
  lookup-insert k j v [] = refl
  lookup-insert k j v (x ∷ d) =
      ground
        (arith, e.equals_iff k j, e.equals_iff x.0 k, e.equals_iff x.0 j, lookup-insert k j v d)

  -- The value of the last pair with a key, if there is one.
  unfoldable pub latest : K → Dict K V → Option V → Option V
  latest k [] o = o
  latest k (x ∷ u) o = latest k u (if x.0 == k then some x.1 else o)

  pub lookup-update : (j : K) (d u : Dict K V) → lookup j (update d u) ≡ latest j u (lookup j d)
  unfolding update latest
  lookup-update j d [] = refl
  lookup-update j d (x ∷ u) =
      lookup-update j (insert x.0 x.1 d) u ∙ ap (latest j u) (lookup-insert x.0 j x.1 d)
