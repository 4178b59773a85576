-- ===== src/Prelude/Maps.antt =====
-- A Go map as an association list: the laws of reading after each write.
use mathlib.Core.Path.{◌≡◌, refl}
use mathlib.Core.Option.{Option, none, some}
use mathlib.Core.List.{List, [], ◌∷◌}
use native.Mathlib.Omega.{arith}
use zensor_server.Prelude.Tests.{Eq, ◌==◌, ==_iff, if◌then◌else◌}

abbrev pub Dict {ℓ κ} : Type ℓ → Type κ → Type (ℓ ⊔ κ)
Dict K V = List (K × V)

-- The first value, or the second where there is none.
abbrev pub or_else {ℓ} : {A : Type ℓ} → Option A → Option A → Option A
or_else none y = y
or_else (some v) _ = some v

module _ {ℓ κ} {K : Type ℓ} {V : Type κ} ⦃e : Eq K⦄ where
  -- `m[k]`
  unfoldable pub lookup : K → Dict K V → Option V
  lookup k [] = none
  lookup k ((j, v) ∷ d) = if j == k then some v else lookup k d

  -- `m[k] = v`
  unfoldable pub insert : K → V → Dict K V → Dict K V
  insert k v [] = (k, v) ∷ []
  insert k v ((j, w) ∷ d) = if j == k then (k, v) ∷ d else (j, w) ∷ insert k v d

  -- `delete(m, k)`
  unfoldable pub erase : K → Dict K V → Dict K V
  erase k [] = []
  erase k ((j, w) ∷ d) = let rest = erase k d in if j == k then rest else (j, w) ∷ rest

  pub lookup-insert :
      (k j : K) (v : V) (d : Dict K V)
      → lookup j (insert k v d) ≡ (if k == j then some v else lookup j d)
  unfolding lookup insert
  lookup-insert k j v [] = refl
  lookup-insert k j v ((i, w) ∷ d) =
      ground (arith, ==_iff k j, ==_iff i k, ==_iff i j, lookup-insert k j v d)

  pub lookup-erase :
      (k j : K) (d : Dict K V) → lookup j (erase k d) ≡ (if k == j then none else lookup j d)
  unfolding lookup erase
  lookup-erase k j [] = ground (arith, ==_iff k j)
  lookup-erase k j ((i, w) ∷ d) =
      ground (arith, ==_iff k j, ==_iff i k, ==_iff i j, lookup-erase k j d)

  -- `maps.Copy(dst, src)`
  unfoldable pub copy_into : Dict K V → Dict K V → Dict K V
  copy_into [] dst = dst
  copy_into ((k, v) ∷ src) dst = insert k v (copy_into src dst)

  pub lookup-copy_into :
      (j : K) (src dst : Dict K V)
      → lookup j (copy_into src dst) ≡ or_else (lookup j src) (lookup j dst)
  unfolding copy_into lookup
  lookup-copy_into j [] dst = refl
  lookup-copy_into j ((k, v) ∷ src) dst =
      ground (arith, lookup-insert k j v (copy_into src dst), lookup-copy_into j src dst)
