-- ===== src/Metadata/Store/Sizes.antt =====
-- The number and the sizes of the fragments that `PrepareKey` of internal/metadata/store.go plans,
-- against the chunks that `Split` of internal/fragment/fragment.go cuts.
use native.Mathlib.Decide.{dec_lt}
use native.Mathlib.Nat.{mul-add-mod_self_right, mod-eq_of_lt, mod_self}
use frag_kv.Base.{
  Str, ℕ, zero, suc, ◌+◌, ◌-◌, ◌*◌, ◌%◌, ◌≤◌, ◌<◌, ◌≡◌, refl, sym, ap, ap₂, ◌∙◌, List, [], ◌∷◌, map,
  arith, length, drop, length-take, length-drop, min, true, false, ◌==◌,
}
use frag_kv.Base.Int.{ℤ, pos, +ℤ-pos, -ℤ-pos, max_int64, div_pos, mod_pos, ◌-ℤ◌}
use frag_kv.Fragment
use frag_kv.Fragment.{Info, new_info}
use frag_kv.Fragment.Chunks.{chunks, ceil_div, ceil_div-zero, ceil_div_step}
use frag_kv.Fragment.Collects.{infos}
use frag_kv.Placement.{Node, Placer}
use frag_kv.Placement.Outside.{Floats}
use frag_kv.Metadata.Setup.{Config}
use frag_kv.Metadata.Types.{Catalog}
use frag_kv.Metadata.Store.{num_fragments, fragment_size, planned, plan_from, at_least_one}

num_fragments-at_least_one :
    (c t : ℕ)
    → 0 < c
    → t + c ≤ max_int64
    → num_fragments c (pos t) ≡ at_least_one (pos (ceil_div t c))
unfolding num_fragments div_pos
num_fragments-at_least_one c t h fits =
    ap (λ (z : ℤ). at_least_one (div_pos z c))
      (ap (λ (z : ℤ). z -ℤ pos 1) (+ℤ-pos t c fits) ∙ -ℤ-pos (t + c) 1 (omega arith) fits)

-- For a size above zero the number is the size over the chunk size, rounded up.
pub num_fragments-pos :
    (c t : ℕ) → 0 < c → 0 < t → t + c ≤ max_int64 → num_fragments c (pos t) ≡ pos (ceil_div t c)
num_fragments-pos c t h positive fits =
    num_fragments-at_least_one c t h fits ∙ rw (ceil_div_step t c h positive)

pub num_fragments-zero : (c : ℕ) → 0 < c → c ≤ max_int64 → num_fragments c (pos 0) ≡ pos 1
num_fragments-zero c h fits =
    num_fragments-at_least_one c 0 h (omega arith) ∙ rw (ceil_div-zero c h)

-- What a client takes from a planned fragment to cut the value.
abbrev pub shape : Info → Str × ℕ × ℤ
shape f = (f.id, f.index, f.size)

-- The last of several fragments has the bytes that are left.
last_size :
    (i c rest : ℕ) → 0 < rest → rest ≤ c → fragment_size c (pos (i * c + rest)) true ≡ pos rest
unfolding fragment_size mod_pos
last_size i c rest h fits = elim (dec_lt rest c) [
  | yes lt ↦
      let rem : (i * c + rest) % c ≡ rest = mul-add-mod_self_right i c rest ∙ mod-eq_of_lt lt in
      ground (arith, rem)
  | no ge ↦
      let whole : rest ≡ c = omega arith in
      let rem : (i * c + rest) % c ≡ 0 =
        mul-add-mod_self_right i c rest ∙ ap (λ (r : ℕ). r % c) whole ∙ mod_self c in
      ground (arith, rem)
]

-- The size of the fragment at index `i`, where `rest` bytes are left to plan in `left` fragments.
size_at :
    (i c rest left t num : ℕ)
    → 0 < c
    → 0 < rest
    → suc left ≡ ceil_div rest c
    → t ≡ i * c + rest
    → num ≡ i + suc left
    → fragment_size c (pos t) (i == (num - 1)) ≡ pos (min c rest)
size_at i c rest left t num h k count total is_num =
    let step : suc left ≡ suc (ceil_div (rest - c) c) = count ∙ ceil_div_step rest c h k in
    elim (dec_lt c rest) [
      | yes more ↦
          let later = ceil_div_step (rest - c) c h (omega arith) in
          let inner : (i == (num - 1)) ≡ false = ground (arith, step, later) in
          rw inner (unfold fragment_size in ap pos (omega arith))
      | no all ↦
          let none_left : ceil_div (rest - c) c ≡ 0 =
            ap (λ (n : ℕ). ceil_div n c) (let e : rest - c ≡ 0 = omega arith in e)
            ∙ ceil_div-zero c h in
          let last : (i == (num - 1)) ≡ true = ground (arith, step, none_left) in
          rw (last, total) (last_size i c rest k (omega arith) ∙ ap pos (omega arith))
    ]

module _ (fl : Floats) (place : Placer fl) (cfg : Config) (key : Str) (nodes : List (Node fl))
    (s : Catalog) where
  abbrev plan : ℕ → ℕ → ℕ → ℕ → List Info
  plan total num left i = plan_from fl place cfg key (pos total) nodes s num left i

  pub length-plan_from :
      (total : ℤ) (num left i : ℕ)
      → length (plan_from fl place cfg key total nodes s num left i) ≡ left
  unfolding plan_from
  length-plan_from total num zero i = refl
  length-plan_from total num (suc left) i = ap suc (length-plan_from total num left (i + 1))

  pub plan_shapes :
      (fuel left i t num : ℕ) (u : Str)
      → 0 < cfg.chunk_size
      → length u ≤ fuel
      → left ≡ ceil_div (length u) cfg.chunk_size
      → (0 < length u → t ≡ i * cfg.chunk_size + length u)
      → num ≡ i + left
      → map shape (plan t num left i) ≡ map shape (infos key i (chunks fuel cfg.chunk_size u))
  unfolding plan_from infos chunks planned new_info
  plan_shapes zero zero i t num u h f count total is_num = refl
  plan_shapes zero (suc left) i t num [] h f count total is_num =
      absurd (omega (arith, ceil_div-zero cfg.chunk_size h))
  plan_shapes zero (suc left) i t num (x ∷ u) h f count total is_num = absurd (omega arith)
  plan_shapes (suc fuel) zero i t num [] h f count total is_num = refl
  plan_shapes (suc fuel) (suc left) i t num [] h f count total is_num =
      absurd (omega (arith, ceil_div-zero cfg.chunk_size h))
  plan_shapes (suc fuel) zero i t num (x ∷ u) h f count total is_num =
      absurd (omega (arith, ceil_div_step (suc (length u)) cfg.chunk_size h (omega arith)))
  plan_shapes (suc fuel) (suc left) i t num (x ∷ u) h f count total is_num =
      let c = cfg.chunk_size in
      let rest : ℕ = suc (length u) in
      let at_i : t ≡ i * c + rest = total (omega arith) in
      let cut = length-drop c (x ∷ u) in
      let taken = length-take c (x ∷ u) in
      let step = ceil_div_step rest c h (omega arith) in
      ap₂ ◌∷◌
        (ap (λ (z : ℤ). (Fragment.id key i, i, z))
          (size_at i c rest left t num h (omega arith) count at_i is_num ∙ ap pos (sym taken)))
        (plan_shapes fuel left (i + 1) t num (drop c (x ∷ u)) h (omega (arith, cut))
          (omega (arith, count, step) ∙ ap (λ (n : ℕ). ceil_div n c) (sym cut))
          (λ more. omega (arith, cut, at_i)) (omega arith))
