-- ===== src/Placement/Insertion.antt =====
-- A sort for runs of internal/placement/placement.go: insertion does what is asked of sort.Slice.
use mathlib.Core.Bool.{Bool-set}
use mathlib.Core.List.{Mem, Pairwise, mem-cons, mem-cons_self, mem-cons_of_mem}
use mathlib.Core.List
use mathlib.Core.List.Perm
use mathlib.Core.Logic.Or
use frag_kv.Base.{◌≡◌, List, [], ◌∷◌, Bool, false, Perm, if◌then◌else◌, Bool-cases, inl, inr}
use frag_kv.Placement.Outside.{SortSlice, IsOrder}

module _ {A : Type 0} (less : A → A → Bool) where
  unfoldable pub place_in : A → List A → List A
  place_in x [] = x ∷ []
  place_in x (y ∷ ys) = let rest = place_in x ys in if less y x then y ∷ rest else x ∷ y ∷ ys

  unfoldable pub insertion_sort : List A → List A
  unfolding place_in
  insertion_sort [] = []
  insertion_sort (x ∷ xs) = place_in x (insertion_sort xs)

  place_in_perm : (x : A) (ys : List A) → Perm (place_in x ys) (x ∷ ys)
  unfolding place_in
  place_in_perm x [] = Perm.refl _
  place_in_perm x (y ∷ ys) = elim (Bool-cases (less y x)) [
    | inl yes_less ↦ rw yes_less (Perm.trans (Perm.cons y (place_in_perm x ys)) (Perm.swap x y ys))
    | inr no_less ↦ rw no_less (Perm.refl _)
  ]

  pub insertion_sort_perm : (xs : List A) → Perm (insertion_sort xs) xs
  unfolding insertion_sort
  insertion_sort_perm [] = Perm.refl _
  insertion_sort_perm (x ∷ xs) =
      Perm.trans (place_in_perm x (insertion_sort xs)) (Perm.cons x (insertion_sort_perm xs))

  abbrev InOrder : A → A → Type 0
  InOrder a b = less b a ≡ false

  IsOrder-within :
      {xs ys : List A} → ((a : A) → Mem a ys → Mem a xs) → IsOrder less xs → IsOrder less ys
  IsOrder-within sub o = record {
    asymmetric = λ a b ma mb. o.asymmetric a b (sub a ma) (sub b mb);
    negatively_transitive =
        λ a b c ma mb mc. o.negatively_transitive a b c (sub a ma) (sub b mb) (sub c mc);
  }

  place_in_ordered :
      (x : A) (ys : List A)
      → IsOrder less (x ∷ ys)
      → Pairwise InOrder ys
      → Pairwise InOrder (place_in x ys)
  unfolding place_in
  place_in_ordered x [] o p = List.Pairwise-cons.1 (λ a m. absurd (List.not-mem-nil m), p)
  place_in_ordered x (y ∷ ys) o p =
      let (below, later) = List.Pairwise-cons.0 p in
      let within =
        IsOrder-within
          (λ a m.
            Or.elim List.Mem-prop (mem-cons.0 m) (λ e. mem-cons.1 (Or.inl e))
              (λ n. mem-cons_of_mem _ (mem-cons_of_mem _ n)))
          o in
      elim (Bool-cases (less y x)) [
        | inl yes_less ↦ rw yes_less (
            List.Pairwise-cons.1 (
              λ a m.
                  Or.elim (Bool-set _ _) (mem-cons.0 ((Perm.mem_iff (place_in_perm x ys)).0 m))
                    (λ e.
                      rw e
                        (o.asymmetric y x (mem-cons_of_mem _ mem-cons_self) mem-cons_self yes_less))
                    (λ n. below a n),
              place_in_ordered x ys within later,
            ))
        | inr no_less ↦ rw no_less (
            List.Pairwise-cons.1 (
              λ a m.
                  Or.elim (Bool-set _ _) (mem-cons.0 m) (λ e. rw e no_less)
                    (λ n.
                      o.negatively_transitive a y x (mem-cons_of_mem _ (mem-cons_of_mem _ n))
                        (mem-cons_of_mem _ mem-cons_self) mem-cons_self (below a n) no_less),
              p,
            ))
      ]

  pub insertion_sort_ordered :
      (xs : List A) → IsOrder less xs → Pairwise InOrder (insertion_sort xs)
  unfolding insertion_sort
  insertion_sort_ordered [] o = Pairwise.nil
  insertion_sort_ordered (x ∷ xs) o =
      place_in_ordered x (insertion_sort xs)
        (IsOrder-within (λ a m. (Perm.mem_iff (Perm.cons x (insertion_sort_perm xs))).0 m) o)
        (insertion_sort_ordered xs (IsOrder-within (λ a m. mem-cons_of_mem _ m) o))

unfoldable pub by_insertion : SortSlice
unfolding insertion_sort
by_insertion = record {
  sort = λ A less xs. insertion_sort less xs;
  sort_perm = λ A less xs. insertion_sort_perm less xs;
  sort_ordered = λ A less xs o. insertion_sort_ordered less xs o;
}
