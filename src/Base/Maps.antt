-- ===== src/Base/Maps.antt =====
-- Go's maps with text keys, as association lists: each key once, in no particular order.
use Prim.Native.String.{String}
use text.Mathlib.TextEquality.{eq_iff}
use text.Mathlib.TextPositions.{eq_refl}
use mathlib.Core.Path.{◌≡◌, refl, sym, ap, ◌∙◌}
use mathlib.Core.Logic.{◌≢◌, inl, inr}
use mathlib.Core.Bool.{not}
use mathlib.Core.List.{List, [], ◌∷◌}
use mathlib.Core.Option.{Option, none, some}
use raspi_media_player.Base.Tests.{if◌then◌else◌, same, same_ne, Bool-cases}
use raspi_media_player.Base.Lists.{keep, All, Pairwise, Pairwise-keep}

module _ {ℓ} {V : Type ℓ} where
  abbrev pub lookup : String → List (String × V) → Option V
  lookup k [] = none
  lookup k ((j, v) ∷ m) = let rest = lookup k m in if same j k then some v else rest

  abbrev pub delete : String → List (String × V) → List (String × V)
  delete k = keep (λ e. not (same e.0 k))

  abbrev pub insert : String → V → List (String × V) → List (String × V)
  insert k v m = (k, v) ∷ delete k m

-- Every key stands once.
abbrev pub IsMap {ℓ} : {V : Type ℓ} → List (String × V) → Type 0
IsMap = Pairwise (λ a b. b.0 ≢ a.0)

module _ {ℓ} {V : Type ℓ} where
  pub lookup-delete_self : (k : String) (m : List (String × V)) → lookup k (delete k m) ≡ none
  lookup-delete_self k [] = refl
  lookup-delete_self k ((j, v) ∷ m) = elim (Bool-cases (same j k)) [
    | inl e ↦ rw e (lookup-delete_self k m)
    | inr e ↦ rw (e, e) (lookup-delete_self k m)
  ]

  pub lookup-delete_ne :
      (k q : String) (m : List (String × V)) → q ≢ k → lookup q (delete k m) ≡ lookup q m
  lookup-delete_ne k q [] h = refl
  lookup-delete_ne k q ((j, v) ∷ m) h = elim (Bool-cases (same j k)) [
    | inl e ↦ rw (e, same_ne j q (λ p. h (sym p ∙ (eq_iff j k).0 e))) (lookup-delete_ne k q m h)
    | inr e ↦ rw (e, lookup-delete_ne k q m h) refl
  ]

  pub lookup-insert_self :
      (k : String) (v : V) (m : List (String × V)) → lookup k (insert k v m) ≡ some v
  lookup-insert_self k v m = rw (eq_refl k) refl

  pub lookup-insert_ne :
      (k q : String) (v : V) (m : List (String × V)) → q ≢ k → lookup q (insert k v m) ≡ lookup q m
  lookup-insert_ne k q v m h = rw (same_ne k q (λ p. h (sym p))) (lookup-delete_ne k q m h)

  pub delete-absent : (k : String) (m : List (String × V)) → All (λ e. e.0 ≢ k) (delete k m)
  delete-absent k [] = tt
  delete-absent k ((j, v) ∷ m) = elim (Bool-cases (same j k)) [
    | inl e ↦ rw e (delete-absent k m)
    | inr e ↦ rw e ((λ p. cc ((eq_iff j k).1 p)), delete-absent k m)
  ]

  pub delete-IsMap : (k : String) (m : List (String × V)) → IsMap m → IsMap (delete k m)
  delete-IsMap k m h = Pairwise-keep (λ a b. b.0 ≢ a.0) (λ e. not (same e.0 k)) m h

  pub insert-IsMap : (k : String) (v : V) (m : List (String × V)) → IsMap m → IsMap (insert k v m)
  insert-IsMap k v m h = (delete-absent k m, delete-IsMap k m h)

  pub delete-none : (k : String) (m : List (String × V)) → All (λ e. e.0 ≢ k) m → delete k m ≡ m
  delete-none k [] h = refl
  delete-none k ((j, v) ∷ m) h = rw (same_ne j k h.0, delete-none k m h.1) refl

  -- Deleting what an insertion put in leaves the others.
  pub delete-insert :
      (k : String) (v : V) (m : List (String × V)) → delete k (insert k v m) ≡ delete k m
  delete-insert k v m = rw (eq_refl k) (delete-none k (delete k m) (delete-absent k m))

  pub insert-insert :
      (k : String) (v w : V) (m : List (String × V)) → insert k w (insert k v m) ≡ insert k w m
  insert-insert k v w m = ap (◌∷◌ (k, w)) (delete-insert k v m)
