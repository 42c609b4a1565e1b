-- ===== src/Fragment/Chunks.antt =====
-- The chunks of a text, as their definition says: the reference that `Split` is held to.
use native.Mathlib.Nat.{div-eq_of_lt, div-eq-sub-div}
use native.Mathlib.Decide.{dec_lt}
use frag_kv.Base.{
  sym, Str, ℕ, zero, suc, ◌+◌, ◌-◌, ◌/◌, ◌≤◌, ◌<◌, ◌≡◌, refl, ap, ◌∙◌, List, [], ◌∷◌, ◌++◌, arith,
  length, take, drop, take-append-drop, length-take, length-drop, All,
}
use mathlib.Core.List.{flatten}

-- `fuel` chunks at most, each of `size` bytes but for the last.
unfoldable pub chunks : ℕ → ℕ → Str → List Str
chunks zero size s = []
chunks (suc fuel) size [] = []
chunks (suc fuel) size (c ∷ s) = take size (c ∷ s) ∷ chunks fuel size (drop size (c ∷ s))

-- The chunks of a text, in order, are the text.
pub flatten-chunks :
    (fuel size : ℕ) (s : Str) → 0 < size → length s ≤ fuel → flatten (chunks fuel size s) ≡ s
unfolding chunks flatten
flatten-chunks zero size [] h f = refl
flatten-chunks zero size (c ∷ s) h f = absurd (omega arith)
flatten-chunks (suc fuel) size [] h f = refl
flatten-chunks (suc fuel) size (c ∷ s) h f =
    ap (λ (t : Str). take size (c ∷ s) ++ t)
      (flatten-chunks fuel size (drop size (c ∷ s)) h (omega (arith, length-drop size (c ∷ s))))
    ∙ take-append-drop size (c ∷ s)

-- Every chunk holds at least one byte and at most `size`.
pub chunks_sizes :
    (fuel size : ℕ) (s : Str)
    → 0 < size
    → All (λ c. (0 < length c) × (length c ≤ size)) (chunks fuel size s)
unfolding chunks
chunks_sizes zero size s h = tt
chunks_sizes (suc fuel) size [] h = tt
chunks_sizes (suc fuel) size (c ∷ s) h = (
  (omega (arith, length-take size (c ∷ s)), omega (arith, length-take size (c ∷ s))),
  chunks_sizes fuel size (drop size (c ∷ s)) h,
)

abbrev pub ceil_div : ℕ → ℕ → ℕ
ceil_div n d = (n + d - 1) / d

pub ceil_div-zero : (d : ℕ) → 0 < d → ceil_div 0 d ≡ 0
ceil_div-zero d h = div-eq_of_lt (omega arith)

pub ceil_div_step : (n d : ℕ) → 0 < d → 0 < n → ceil_div n d ≡ suc (ceil_div (n - d) d)
ceil_div_step n d h k =
    div-eq-sub-div {m = d} {n = n + d - 1} h (omega arith) ∙ omega (arith, same_quotient)
  where
    same_quotient : (n + d - 1 - d) / d ≡ (n - d + d - 1) / d
    same_quotient = elim (dec_lt n d) [
      | yes lt ↦
          div-eq_of_lt {n = n + d - 1 - d} {m = d} (omega arith)
          ∙ sym (div-eq_of_lt {n = n - d + d - 1} {m = d} (omega arith))
      | no ge ↦ ap (λ (m : ℕ). m / d) (omega arith)
    ]

-- The number of chunks is the length over the size, rounded up.
pub length-chunks :
    (fuel size : ℕ) (s : Str)
    → 0 < size
    → length s ≤ fuel
    → length (chunks fuel size s) ≡ ceil_div (length s) size
unfolding chunks
length-chunks zero size [] h f = sym (ceil_div-zero size h)
length-chunks zero size (c ∷ s) h f = absurd (omega arith)
length-chunks (suc fuel) size [] h f = sym (ceil_div-zero size h)
length-chunks (suc fuel) size (c ∷ s) h f =
    ap suc (length-chunks fuel size (drop size (c ∷ s)) h (omega (arith, length-drop size (c ∷ s))))
    ∙ ap (λ (n : ℕ). suc (ceil_div n size)) (length-drop size (c ∷ s))
    ∙ sym (ceil_div_step (suc (length s)) size h (omega arith))
