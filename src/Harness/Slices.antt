-- ===== src/Harness/Slices.antt =====
-- PutValue of experiments/harness/harness.go against kvctl: the slices of the plan are the chunks of
-- Split.
use frag_kv.Base.{
  Str, ℕ, zero, suc, ◌+◌, ◌*◌, ◌≤◌, ◌<◌, ◌≡◌, refl, sym, ap, ap₂, ◌∙◌, List, [], ◌∷◌, map, some,
  true, arith, length, take, drop, length-take, length-drop, drop_all, leb, if◌then◌else◌,
}
use mathlib.Core.List.{cons-eq-cons}
use frag_kv.Base.Int.{ℤ, pos, wrap64, wrap64_id, +ℤ-pos, max_int64, ◌+ℤ◌, ltb_ℤ}
use frag_kv.Fragment.{Info, Reader, bytes_of, effective_size}
use frag_kv.Fragment.Chunks.{chunks}
use frag_kv.Fragment.Collects.{infos}
use frag_kv.Fragment.Splits.{input_chunks, effective_size_pos}
use frag_kv.Metadata.Store.Sizes.{shape}
use frag_kv.Kvctl.{pair_up}
use frag_kv.Harness.{slice_bounds, slice, slices, slice_in, chunk_of, add_job}

add_one_times : (i c : ℕ) → (i + 1) * c ≡ i * c + c
add_one_times i c = omega arith

drop-drop : (m n : ℕ) (s : Str) → drop m (drop n s) ≡ drop (n + m) s
drop-drop m zero s = ap (λ (n : ℕ). drop n s) (omega arith)
drop-drop m (suc n) [] = drop_all m [] (omega arith) ∙ sym (drop_all (suc n + m) [] (omega arith))
drop-drop m (suc n) (c ∷ s) =
    drop-drop m n s ∙ ap (λ (k : ℕ). drop k (c ∷ s)) {x = suc (n + m)} (omega arith)

take_taken : (n : ℕ) (s : Str) → take (length (take n s)) s ≡ take n s
take_taken zero s = refl
take_taken (suc n) [] = refl
take_taken (suc n) (c ∷ s) = ap (◌∷◌ c) (take_taken n s)

-- A slice within the value.
slice_within :
    (content : Str) (start len : ℕ)
    → start + len ≤ length content
    → slice content (pos start) (pos (start + len)) ≡ some (take len (drop start content))
unfolding slice
slice_within content start len fits =
    let in_order : leb start (start + len) ≡ true = ground arith in
    let inside : leb (start + len) (length content) ≡ true = ground (arith, fits) in
    rw (slice, in_order, inside) (ap (λ (n : ℕ). some (take n (drop start content))) (omega arith))

capped : (l e : ℕ) → e ≤ l → (if ltb_ℤ (pos l) (pos e) then pos l else pos e) ≡ pos e
capped l e h = ground (arith, h)

bounds_within :
    (c : ℕ) (content : Str) (f : Info) (i len : ℕ)
    → f.index ≡ i
    → f.size ≡ pos len
    → i * c + len ≤ length content
    → length content ≤ max_int64
    → slice_bounds c content f ≡ (pos (i * c), pos (i * c + len))
unfolding slice_bounds
bounds_within c content f i len index size fits small =
    let start : wrap64 (pos (f.index * c)) ≡ pos (i * c) =
      ap (λ (j : ℕ). wrap64 (pos (j * c))) index ∙ wrap64_id (pos (i * c)) (omega arith) in
    let end : wrap64 (pos (f.index * c)) +ℤ f.size ≡ pos (i * c + len) =
      ap₂ ◌+ℤ◌ start size ∙ +ℤ-pos (i * c) len (omega arith) in
    ap₂ (λ st en. (st, if ltb_ℤ (pos (length content)) en then pos (length content) else en)) start
      end
    ∙ ap (λ (e : ℤ). (pos (i * c), e)) (capped (length content) (i * c + len) fits)

slices-chunks :
    (fuel c : ℕ) (content u key : Str) (i : ℕ) (fs : List Info)
    → 0 < c
    → u ≡ drop (i * c) content
    → length content ≤ max_int64
    → map shape fs ≡ map shape (infos key i (chunks fuel c u))
    → slices c content fs ≡ pair_up fs (chunks fuel c u)
unfolding slices chunk_of pair_up chunks infos frag_kv.Fragment.id frag_kv.Fragment.new_info
slices-chunks zero c content u key i [] h e small same = refl
slices-chunks zero c content u key i (f ∷ fs) h e small same = absurd (cc same)
slices-chunks (suc fuel) c content [] key i [] h e small same = refl
slices-chunks (suc fuel) c content [] key i (f ∷ fs) h e small same = absurd (cc same)
slices-chunks (suc fuel) c content (x ∷ u) key i [] h e small same = absurd (cc same)
slices-chunks (suc fuel) c content (x ∷ u) key i (f ∷ fs) h e small same =
    let (first, rest) = cons-eq-cons.0 same in
    let len : ℕ = length (take c (x ∷ u)) in
    let left = ap length e ∙ length-drop (i * c) content in
    let fits : i * c + len ≤ length content = omega (arith, left, length-take c (x ∷ u)) in
    let bounds =
      bounds_within c content f i len (ap (λ t. t.1) first) (ap (λ t. t.2) first) fits small in
    let cut : slice content (pos (i * c)) (pos (i * c + len)) ≡ some (take c (x ∷ u)) =
      slice_within content (i * c) len fits
      ∙ ap (λ (t : Str). some (take len t)) (sym e)
      ∙ ap some (take_taken c (x ∷ u)) in
    let chunk : chunk_of c content f ≡ some (take c (x ∷ u)) = ap (slice_in content) bounds ∙ cut in
    let next : drop c (x ∷ u) ≡ drop ((i + 1) * c) content =
      ap (drop c) e
      ∙ drop-drop c (i * c) content
      ∙ ap (λ (n : ℕ). drop n content) (sym (add_one_times i c)) in
    let later = slices-chunks fuel c content (drop c (x ∷ u)) key (i + 1) fs h next small rest in
    rw (slices, chunk) (ap (add_job f (take c (x ∷ u))) later)

-- For a plan whose fragments have the IDs, indices and sizes of the chunks that Split cuts from the value
-- with its chunk size, as `PrepareKey` makes it, and a value whose length an int64 holds: PutValue cuts
-- without a panic, and sends with each fragment exactly the chunk that kvctl sends with it.
pub slices-pair_up :
    (key : Str) (r : Reader) (chunk_size : ℤ) (fs : List Info)
    → length r.unread ≤ max_int64
    → map shape fs ≡ map shape (infos key 0 (input_chunks r chunk_size))
    → slices (bytes_of (effective_size chunk_size)) r.unread fs
      ≡ pair_up fs (input_chunks r chunk_size)
slices-pair_up key r chunk_size fs small same =
    let (n, positive) = effective_size_pos chunk_size in
    slices-chunks (length r.unread + 1) (bytes_of (effective_size chunk_size)) r.unread r.unread key
      0 fs (rw positive (omega arith)) (ap (λ (k : ℕ). drop k r.unread) {x = 0} (omega arith)) small
      same
