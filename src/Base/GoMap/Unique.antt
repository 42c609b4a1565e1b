-- ===== src/Base/GoMap/Unique.antt =====
-- Maps with one entry for each key, as those of Go are.
use mathlib.Core.Path.{◌≡◌, refl, sym, ap, ◌∙◌, subst}
use mathlib.Core.Logic.{inl, inr}
use mathlib.Core.Logic.Or
use mathlib.Core.Bool.{Bool, true, false, Bool-set}
use mathlib.Core.Option.{Option, none, some}
use mathlib.Core.List.{[], ◌∷◌, Mem, mem-cons, mem-cons_self, mem-cons_of_mem, not-mem-nil}
use native.Mathlib.Omega.{arith}
use frag_kv.Base.Tests.{Bool-cases}
use frag_kv.Base.Text.{Str, str_eq, str_eq_iff}
use frag_kv.Base.GoMap.{GoMap, lookup, insert}
use frag_kv.Base.GoMap.Laws.{lookup-insert, lookup-nil}

abbrev pub NoRepeats {ℓ} : {V : Type ℓ} → GoMap V → Type ℓ
NoRepeats [] = Unit
NoRepeats ((k, v) ∷ m) = (lookup k m ≡ none) × NoRepeats m

pub insert-NoRepeats :
    {V : Type 0} (k : Str) (v : V) (m : GoMap V) → NoRepeats m → NoRepeats (insert k v m)
unfolding insert
insert-NoRepeats k v [] h = (lookup-nil k, tt)
insert-NoRepeats k v ((j, w) ∷ m) (first, rest) = elim (Bool-cases (str_eq j k)) [
  | inl same ↦ rw same (subst (λ i. lookup i m ≡ none) ((str_eq_iff j k).0 same) first, rest)
  | inr other ↦ rw other (
    lookup-insert k j v m ∙ ground (arith, first, str_eq_iff j k, str_eq_iff k j, other),
    insert-NoRepeats k v m rest,
  )
]

-- What a lookup of a flag finds is false.
abbrev pub is_false : Option Bool → Bool
is_false none = false
is_false (some true) = false
is_false (some false) = true

-- An entry that is false is found.
pub entry_found :
    (k : Str) (m : GoMap Bool) → NoRepeats m → Mem (k, false) m → is_false (lookup k m) ≡ true
unfolding lookup
entry_found k [] h member = absurd (not-mem-nil member)
entry_found k ((j, up) ∷ m) (first, rest) member =
    Or.elim (Bool-set _ _) (mem-cons.0 member)
      (λ e.
        let same : str_eq j k ≡ true = (str_eq_iff j k).1 (sym (ap (λ p. p.0) e)) in
        rw same (rw (sym (ap (λ p. p.1) e)) refl))
      (λ later.
        let found = entry_found k m rest later in
        elim (Bool-cases (str_eq j k)) [
          | inr other ↦ rw other found
          | inl same ↦ absurd (
              cc (
                sym (ap is_false first),
                ap (λ i. is_false (lookup i m)) ((str_eq_iff j k).0 same),
                found,
              ))
        ])

false_entry :
    (k j : Str) (up : Bool)
    → is_false (some up) ≡ true
    → j ≡ k
    → ◌≡◌ {A = Str × Bool} (j, up) (k, false)
false_entry k j true h e = absurd (cc h)
false_entry k j false h e = ap (λ (i : Str). (i, false)) e

-- An entry that is found to be false is in the map.
pub found_entry : (k : Str) (m : GoMap Bool) → is_false (lookup k m) ≡ true → Mem (k, false) m
unfolding lookup
found_entry k [] found = absurd (cc found)
found_entry k ((j, up) ∷ m) found = elim (Bool-cases (str_eq j k)) [
  | inr other ↦ mem-cons_of_mem (j, up) (found_entry k m (rw other at found))
  | inl same ↦
      subst (λ (p : Str × Bool). Mem p ((j, up) ∷ m))
        (false_entry k j up (rw same at found) ((str_eq_iff j k).0 same)) mem-cons_self
]
