-- ===== src/Fragment/Ids.antt =====
-- `ID` of internal/fragment/fragment.go names one fragment.
use mathlib.Core.List.{cons-eq-cons}
use frag_kv.Base.{subst, sym, Str, ℕ, [], ◌∷◌, ◌++◌, ◌≡◌, ◌≢◌, refl, ap₂, arith, slash, Lacks, inl}
use frag_kv.Base.Decimal.{itoa, itoa-IsDigit, IsDigit-Lacks, itoa_injective}
use frag_kv.Fragment.{id}

-- A text that lacks a byte is not one that holds it.
lacks_middle : (b : ℕ) (p s : Str) → Lacks b (p ++ b ∷ s) → ⊥
lacks_middle b [] s h = h.0 refl
lacks_middle b (c ∷ p) s h = lacks_middle b p s h.1

pub id_named : (key : Str) (i : ℕ) → id key i ≢ []
unfolding id
id_named [] i e = cc e
id_named (c ∷ key) i e = cc e

-- The last separator of a text divides it in one way.
pub last_part_unique :
    (b : ℕ) (p q s t : Str) → Lacks b s → Lacks b t → p ++ b ∷ s ≡ q ++ b ∷ t → (p ≡ q) × (s ≡ t)
last_part_unique b [] [] s t hs ht h = (refl, (cons-eq-cons.0 h).1)
last_part_unique b [] (d ∷ q) s t hs ht h =
    absurd (lacks_middle b q t (subst (Lacks b) ((cons-eq-cons.0 h).1) hs))
last_part_unique b (c ∷ p) [] s t hs ht h =
    absurd (lacks_middle b p s (subst (Lacks b) (sym ((cons-eq-cons.0 h).1)) ht))
last_part_unique b (c ∷ p) (d ∷ q) s t hs ht h =
    let (same_head, same_tail) = cons-eq-cons.0 h in
    let (same_start, same_end) = last_part_unique b p q s t hs ht same_tail in
    (ap₂ ◌∷◌ same_head same_start, same_end)

pub itoa_lacks_slash : (n : ℕ) → Lacks slash (itoa n)
itoa_lacks_slash n = IsDigit-Lacks slash (itoa n) (inl (omega arith)) (itoa-IsDigit n)

-- Two fragments with one ID have the same key and the same index, whatever bytes the keys hold.
pub id_injective : (k k' : Str) (i i' : ℕ) → id k i ≡ id k' i' → (k ≡ k') × (i ≡ i')
unfolding id
id_injective k k' i i' h =
    let (same_key, same_digits) =
      last_part_unique slash k k' (itoa i) (itoa i') (itoa_lacks_slash i) (itoa_lacks_slash i') h in
    (same_key, itoa_injective i i' same_digits)
