-- ===== src/Common/Assoc.antt =====
-- Go maps with string keys, as association lists.
use mathlib.Core.Path.{◌≡◌, refl, subst}
use mathlib.Core.List.{List, [], ◌∷◌}
use mathlib.Core.Option.{Option, none, some}
use mathlib.Core.Logic.{inl, inr}
use native.Mathlib.Omega.{arith}
use alfa_hakaton.Common.Bools.{if◌then◌else◌, Bool-cases}
use alfa_hakaton.Common.Text.{Bytes, bytes_eq, bytes_eq_iff}

module _ {ℓ} {V : Type ℓ} where
  unfoldable pub lookup : Bytes → List (Bytes × V) → Option V
  lookup k [] = none
  lookup k ((j, v) ∷ m) = if bytes_eq j k then some v else lookup k m

  unfoldable pub insert : Bytes → V → List (Bytes × V) → List (Bytes × V)
  insert k v [] = (k, v) ∷ []
  insert k v ((j, w) ∷ m) = if bytes_eq j k then (k, v) ∷ m else (j, w) ∷ insert k v m

  unfoldable pub delete : Bytes → List (Bytes × V) → List (Bytes × V)
  delete k [] = []
  delete k ((j, w) ∷ m) = if bytes_eq j k then delete k m else (j, w) ∷ delete k m

  pub lookup-insert :
      (k j : Bytes) (v : V) (m : List (Bytes × V))
      → lookup j (insert k v m) ≡ (if bytes_eq k j then some v else lookup j m)
  unfolding lookup insert
  lookup-insert k j v [] = refl
  lookup-insert k j v ((i, w) ∷ m) =
      ground (arith, bytes_eq_iff k j, bytes_eq_iff i k, bytes_eq_iff i j, lookup-insert k j v m)

  pub lookup-delete :
      (k j : Bytes) (m : List (Bytes × V))
      → lookup j (delete k m) ≡ (if bytes_eq k j then none else lookup j m)
  unfolding lookup delete
  lookup-delete k j [] = ground arith
  lookup-delete k j ((i, w) ∷ m) =
      ground (arith, bytes_eq_iff k j, bytes_eq_iff i k, bytes_eq_iff i j, lookup-delete k j m)

  -- No key twice, as in a Go map.
  abbrev pub IsUnique : List (Bytes × V) → Type ℓ
  IsUnique [] = Unit
  IsUnique ((k, v) ∷ m) = (lookup k m ≡ none) × IsUnique m

  pub insert-IsUnique :
      (k : Bytes) (v : V) (m : List (Bytes × V)) → IsUnique m → IsUnique (insert k v m)
  unfolding insert lookup
  insert-IsUnique k v [] u = (refl, tt)
  insert-IsUnique k v ((j, w) ∷ m) u = elim (Bool-cases (bytes_eq j k)) [
    | inl e ↦ rw e (subst (λ z. lookup z m ≡ none) ((bytes_eq_iff j k).0 e) u.0, u.1)
    | inr e ↦ rw e (
      rw (lookup-insert k j v m) (ground (arith, bytes_eq_iff j k, bytes_eq_iff k j, u.0)),
      insert-IsUnique k v m u.1,
    )
  ]

  pub delete-IsUnique : (k : Bytes) (m : List (Bytes × V)) → IsUnique m → IsUnique (delete k m)
  unfolding delete lookup
  delete-IsUnique k [] u = tt
  delete-IsUnique k ((j, w) ∷ m) u = elim (Bool-cases (bytes_eq j k)) [
    | inl e ↦ rw e (delete-IsUnique k m u.1)
    | inr e ↦ rw e (
      rw (lookup-delete k j m) (ground (arith, bytes_eq_iff j k, bytes_eq_iff k j, u.0)),
      delete-IsUnique k m u.1,
    )
  ]
