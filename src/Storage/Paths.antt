-- ===== src/Storage/Paths.antt =====
-- `chunkPath` of internal/storage/storage.go: which IDs share a file.
use mathlib.Core.List.{append_cancel_left, append_cancel_right}
use frag_kv.Base.{
  Str, ℕ, ◌≡◌, refl, sym, ap, ap₂, ◌∙◌, [], ◌∷◌, ◌++◌, arith, slash, Lacks, codes, replace_all, inr,
  ◌==◌, if◌then◌else◌,
}
use mathlib.Core.List.{cons-eq-cons}
use frag_kv.Base.Decimal.{itoa, itoa-IsDigit, IsDigit-Lacks, itoa_injective}
use frag_kv.Fragment.{id}
use frag_kv.Fragment.Ids.{last_part_unique, itoa_lacks_slash}
use frag_kv.Storage.{chunk_path}

replace_all-append :
    (a b : ℕ) (s t : Str) → replace_all a b (s ++ t) ≡ replace_all a b s ++ replace_all a b t
unfolding replace_all
replace_all-append a b [] t = refl
replace_all-append a b (c ∷ s) t = ap (◌∷◌ (if c == a then b else c)) (replace_all-append a b s t)

replace_all-Lacks : (a b : ℕ) (s : Str) → Lacks a s → replace_all a b s ≡ s
unfolding replace_all
replace_all-Lacks a b [] h = refl
replace_all-Lacks a b (c ∷ s) h = ground (arith, replace_all-Lacks a b s, h.0)

escape_head : (s : Str) → replace_all slash b'_' (slash ∷ s) ≡ b'_' ∷ replace_all slash b'_' s
unfolding replace_all
escape_head s = refl

-- The escaped ID of a key without a slash.
escaped_id :
    (k : Str) (i : ℕ) → Lacks slash k → replace_all slash b'_' (id k i) ≡ k ++ b'_' ∷ itoa i
unfolding id
escaped_id k i h =
    replace_all-append slash b'_' k (slash ∷ itoa i)
    ∙ ap₂ ◌++◌ (replace_all-Lacks slash b'_' k h)
        (escape_head (itoa i) ∙ ap (◌∷◌ b'_') (replace_all-Lacks slash b'_' _ (itoa_lacks_slash i)))

itoa_lacks_underscore : (n : ℕ) → Lacks b'_' (itoa n)
itoa_lacks_underscore n = IsDigit-Lacks b'_' (itoa n) (inr (omega arith)) (itoa-IsDigit n)

-- Two fragment IDs of keys without a slash that share a file have the same key and the same index.
pub chunk_path_injective :
    (dir k k' : Str) (i i' : ℕ)
    → Lacks slash k
    → Lacks slash k'
    → chunk_path dir (id k i) ≡ chunk_path dir (id k' i')
    → (k ≡ k') × (i ≡ i')
unfolding chunk_path
chunk_path_injective dir k k' i i' h h' e =
    let same_name = (cons-eq-cons.0 (append_cancel_left dir _ _ e)).1 in
    let same_escape = append_cancel_right _ _ (codes ".chunk") same_name in
    let same_text = sym (escaped_id k i h) ∙ same_escape ∙ escaped_id k' i' h' in
    let (same_key, same_digits) =
      last_part_unique b'_' k k' (itoa i) (itoa i') (itoa_lacks_underscore i)
        (itoa_lacks_underscore i') same_text in
    (same_key, itoa_injective i i' same_digits)

-- Two IDs that differ only in a slash against an underscore share a file.
pub chunk_path-clash :
    (dir p q : Str) → chunk_path dir (p ++ slash ∷ q) ≡ chunk_path dir (p ++ b'_' ∷ q)
unfolding chunk_path
chunk_path-clash dir p q =
    rw (replace_all-append slash b'_' p (slash ∷ q), replace_all-append slash b'_' p (b'_' ∷ q))
      (unfold replace_all in refl)
