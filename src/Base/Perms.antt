-- ===== src/Base/Perms.antt =====
-- Permutations, lengths and predicates over whole lists.
use mathlib.Core.List.{List, [], ◌∷◌, map, Perm, Mem, Permᴰ, mem-cons_self, mem-cons_of_mem}
use mathlib.Core.List
use mathlib.Core.Logic.{∥∥₁_elim, ∥∥₁_map}
use mathlib.Core.Path.{◌≡◌, refl, ap, ◌∙◌}
use native.Mathlib.Nat.{ℕ_set}
use Prim.Native.Nat.{suc}
use frag_kv.Base.Lists.{length, All}

pub length-permᴰ {ℓ} : {A : Type ℓ} {xs ys : List A} → Permᴰ xs ys → length xs ≡ length ys
length-permᴰ Permᴰ.nil = refl
length-permᴰ (Permᴰ.cons e p) = ap suc (length-permᴰ p)
length-permᴰ (Permᴰ.swap e f) = refl
length-permᴰ (Permᴰ.trans p q) = length-permᴰ p ∙ length-permᴰ q

pub length-perm {ℓ} : {A : Type ℓ} {xs ys : List A} → Perm xs ys → length xs ≡ length ys
length-perm p = ∥∥₁_elim p (ℕ_set _ _) length-permᴰ

pub map-perm {ℓ κ} :
    {A : Type ℓ} {B : Type κ} (f : A → B) {xs ys : List A} → Perm xs ys → Perm (map f xs) (map f ys)
map-perm f p = ∥∥₁_map p (λ q. List.Permᴰ.map f q)

pub All_of_mem {ℓ κ} :
    {A : Type ℓ} {P : A → Type κ} (xs : List A) → ((a : A) → Mem a xs → P a) → All P xs
All_of_mem [] h = tt
All_of_mem (x ∷ xs) h = (h x mem-cons_self, All_of_mem xs (λ a m. h a (mem-cons_of_mem x m)))
