-- ===== src/Base/GoMap/Entries.antt =====
-- Predicates that hold of every entry of a map.
use mathlib.Core.Path.{◌≡◌, sym, subst}
use mathlib.Core.Logic.{◌≢◌, inl, inr}
use mathlib.Core.Option.{some}
use mathlib.Core.List.{[], ◌∷◌}
use native.Mathlib.Omega.{arith}
use frag_kv.Base.Tests.{Bool-cases}
use frag_kv.Base.Lists.{All}
use frag_kv.Base.Text.{Str, str_eq, str_eq_iff}
use frag_kv.Base.GoMap.{GoMap, lookup, insert, modify}

-- A predicate on the entries of a map.
module _ {V : Type 0} (P : Str → V → Type 0) where
  abbrev pub AllEntries : GoMap V → Type 0
  AllEntries = All (λ e. P e.0 e.1)

  pub AllEntries-insert :
      (k : Str) (v : V) (m : GoMap V) → P k v → AllEntries m → AllEntries (insert k v m)
  unfolding insert
  AllEntries-insert k v [] good h = (good, tt)
  AllEntries-insert k v ((j, w) ∷ m) good (here, later) = elim (Bool-cases (str_eq j k)) [
    | inl same ↦ rw same (good, later)
    | inr other ↦ rw other (here, AllEntries-insert k v m good later)
  ]

  pub AllEntries-lookup :
      (k : Str) (v : V) (m : GoMap V) → AllEntries m → lookup k m ≡ some v → P k v
  unfolding lookup
  AllEntries-lookup k v [] h found = absurd (cc found)
  AllEntries-lookup k v ((j, w) ∷ m) (here, later) found = elim (Bool-cases (str_eq j k)) [
    | inl same ↦
        let e : w ≡ v = ground (arith, same) in
        subst (λ i. P i v) ((str_eq_iff j k).0 same) (subst (P j) e here)
    | inr other ↦ AllEntries-lookup k v m later (ground (arith, other))
  ]

pub AllEntries-modify :
    {V : Type 0} (P Q : Str → V → Type 0) (k : Str) (f : V → V) (m : GoMap V)
    → ((v : V) → P k v → Q k (f v))
    → ((j : Str) (v : V) → j ≢ k → P j v → Q j v)
    → AllEntries P m
    → AllEntries Q (modify k f m)
unfolding modify
AllEntries-modify P Q k f [] change keep h = tt
AllEntries-modify P Q k f ((j, w) ∷ m) change keep (here, later) = elim (Bool-cases (str_eq j k)) [
  | inl same ↦
      let e : j ≡ k = (str_eq_iff j k).0 same in
      rw same (
        subst (λ i. Q i (f w)) (sym e) (change w (subst (λ i. P i w) e here)),
        AllEntries-modify P Q k f m change keep later,
      )
  | inr other ↦ rw other (
    keep j w (λ e. absurd (cc (other, (str_eq_iff j k).1 e))) here,
    AllEntries-modify P Q k f m change keep later,
  )
]

pub AllEntries-weaken :
    {V : Type 0} (P Q : Str → V → Type 0) (m : GoMap V)
    → ((j : Str) (v : V) → P j v → Q j v)
    → AllEntries P m
    → AllEntries Q m
AllEntries-weaken P Q [] weaker h = tt
AllEntries-weaken P Q ((j, w) ∷ m) weaker (here, later) =
    (weaker j w here, AllEntries-weaken P Q m weaker later)
