-- ===== src/Base/GoMap/Laws.antt =====
-- The laws of maps: what a lookup returns after each operation.
use mathlib.Core.Path.{◌≡◌, refl}
use mathlib.Core.Logic.{◌≢◌}
use mathlib.Core.Option.{Option, none, some}
use mathlib.Core.Option
use mathlib.Core.List.{[], ◌∷◌}
use native.Mathlib.Omega.{arith}
use frag_kv.Base.Tests.{if◌then◌else◌}
use frag_kv.Base.Text.{Str, str_eq, str_eq_iff, str_eq_refl, str_eq_ne}
use frag_kv.Base.GoMap.{GoMap, lookup, insert, erase, modify, map_values}

module _ {ℓ} {V : Type ℓ} (k j : Str) where
  pub lookup-insert :
      (v : V) (m : GoMap V) → lookup j (insert k v m) ≡ (if str_eq k j then some v else lookup j m)
  unfolding lookup insert
  lookup-insert v [] = refl
  lookup-insert v ((i, w) ∷ m) =
      ground (arith, str_eq_iff k j, str_eq_iff i k, str_eq_iff i j, lookup-insert v m)

  pub lookup-erase :
      (m : GoMap V) → lookup j (erase k m) ≡ (if str_eq k j then none else lookup j m)
  unfolding lookup erase
  lookup-erase [] = ground arith
  lookup-erase ((i, w) ∷ m) =
      ground (arith, str_eq_iff k j, str_eq_iff i k, str_eq_iff i j, lookup-erase m)

  pub lookup-modify :
      (f : V → V) (m : GoMap V)
      → lookup j (modify k f m) ≡ (if str_eq k j then Option.map f (lookup j m) else lookup j m)
  unfolding lookup modify
  lookup-modify f [] = ground arith
  lookup-modify f ((i, w) ∷ m) =
      ground (arith, str_eq_iff k j, str_eq_iff i k, str_eq_iff i j, lookup-modify f m)

pub lookup-map_values {ℓ} :
    {V : Type ℓ} (j : Str) (f : V → V) (m : GoMap V)
    → lookup j (map_values f m) ≡ Option.map f (lookup j m)
unfolding lookup map_values
lookup-map_values j f [] = refl
lookup-map_values j f ((i, w) ∷ m) = ground (arith, lookup-map_values j f m)

pub lookup-nil {ℓ} : {V : Type ℓ} (j : Str) → lookup {V = V} j [] ≡ none
unfolding lookup
lookup-nil j = refl

pub ruleset map_laws = (lookup-nil, lookup-insert, lookup-erase, lookup-modify, lookup-map_values)

module _ {ℓ} {V : Type ℓ} where
  pub lookup-insert_self : (k : Str) (v : V) (m : GoMap V) → lookup k (insert k v m) ≡ some v
  lookup-insert_self k v m = simp (lookup-insert, str_eq_refl)

  pub lookup-insert_ne :
      (k j : Str) (v : V) (m : GoMap V) → k ≢ j → lookup j (insert k v m) ≡ lookup j m
  lookup-insert_ne k j v m h = simp lookup-insert (rw (str_eq_ne k j h))

  pub lookup-erase_self : (k : Str) (m : GoMap V) → lookup k (erase k m) ≡ none
  lookup-erase_self k m = simp (lookup-erase, str_eq_refl)

  pub lookup-erase_ne : (k j : Str) (m : GoMap V) → k ≢ j → lookup j (erase k m) ≡ lookup j m
  lookup-erase_ne k j m h = simp lookup-erase (rw (str_eq_ne k j h))
