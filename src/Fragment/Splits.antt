-- ===== src/Fragment/Splits.antt =====
-- `Split` of internal/fragment/fragment.go against its reference: the chunks of the input are handed
-- to the callback one by one, and the plan records those that were.
use frag_kv.Base.{
  Str, ℕ, zero, suc, ◌+◌, ◌≤◌, ◌<◌, ◌≡◌, refl, ap, ap₂, ◌∙◌, List, [], ◌∷◌, Option, none, some,
  arith, length, take, drop, take_all, drop_all, length-drop, leb, Bool-cases, inl, inr,
}
use frag_kv.Base.Int.{ℤ, pos, negsuc}
use frag_kv.Fragment.{
  Fault, Plan, Reader, Outcome, SplitError, callback, reading, add_info, split_loop, split,
  effective_size, bytes_of,
}
use frag_kv.Fragment.Chunks.{chunks}

-- What a run of the callback over chunks leaves: those handed over, the error, the state.
pub record Fed (S E : Type 0) : Type 0 where
  pub handed : List Str
  pub error : Option E
  pub state : S

module _ {S E : Type 0} (fn : ℕ → Str → S → S × Option E) where
  -- The callback on each chunk in turn, until it fails.
  unfoldable pub feed : ℕ → List Str → S → Fed S E
  feed i [] s = record { handed = []; error = none; state = s }
  feed i (c ∷ cs) s =
      let (s', err) = fn i c s in
      let later = feed (i + 1) cs s' in
      elim err [
        | some e ↦ record { handed = c ∷ []; error = some e; state = s' }
        | none ↦ record later { handed = c ∷ later.handed }
      ]

-- The plan after the chunks from index `i` on.
unfoldable pub extend : Str → Plan → ℕ → List Str → Plan
extend key plan i [] = plan
extend key plan i (c ∷ cs) = extend key (add_info key plan i c) (i + 1) cs

abbrev pub final_error : {E : Type 0} → Option E → Option Fault → Option (SplitError E)
final_error (some e) fault = some (callback e)
final_error none (some e) = some (reading e)
final_error none none = none

abbrev pub outcome_of : {S E : Type 0} → Str → Plan → ℕ → Option Fault → Fed S E → Outcome S E
outcome_of key plan i fault fed = record {
  plan = extend key plan i fed.handed;
  error = final_error fed.error fault;
  state = fed.state;
}

chunks-nil : (fuel size : ℕ) → chunks fuel size [] ≡ []
unfolding chunks
chunks-nil zero size = refl
chunks-nil (suc fuel) size = refl

chunks_one :
    (fuel n c : ℕ) (u : Str) → length u ≤ n → chunks (suc fuel) (suc n) (c ∷ u) ≡ (c ∷ u) ∷ []
unfolding chunks
chunks_one fuel n c u h =
    ap₂ (λ (s : Str) (t : Str). (c ∷ s) ∷ chunks fuel (suc n) t) (take_all n u h) (drop_all n u h)
    ∙ ap (λ (cs : List Str). (c ∷ u) ∷ cs) (chunks-nil fuel (suc n))

module _ {S E : Type 0} (key : Str) (n : ℕ) (fn : ℕ → Str → S → S × Option E)
    (fault : Option Fault) where
  abbrev reader : Str → Reader
  reader u = record { unread = u; fault = fault }

  -- The last round with bytes: fewer than a chunk are left.
  split_loop_last :
      (fuel c : ℕ) (u : Str) (plan : Plan) (i : ℕ) (s : S)
      → length u < n
      → split_loop key (suc n) fn (suc fuel) (reader (c ∷ u)) plan i s
        ≡ some (outcome_of key plan i fault (feed fn i (chunks (suc fuel) (suc n) (c ∷ u)) s))
  unfolding split_loop feed extend
  split_loop_last fuel c u plan i s short = rw (chunks_one fuel n c u (omega arith)) (ground arith)

  -- The loop, with fuel for one round more than the unread bytes.
  split_loop-feed :
      (fuel : ℕ) (u : Str) (plan : Plan) (i : ℕ) (s : S)
      → length u < fuel
      → split_loop key (suc n) fn fuel (reader u) plan i s
        ≡ some (outcome_of key plan i fault (feed fn i (chunks fuel (suc n) u) s))
  unfolding split_loop feed extend chunks
  split_loop-feed zero u plan i s h = elim h [ ]
  split_loop-feed (suc fuel) [] plan i s h = ground arith
  split_loop-feed (suc fuel) (c ∷ u) plan i s h = elim (Bool-cases (leb (suc n) (suc (length u)))) [
    | inl full ↦
        let later = add_info key plan i (c ∷ take n u) in
        let shorter : length (drop n u) < fuel = omega (arith, length-drop n u) in
        ground
          (arith, split_loop-feed fuel (drop n u) later (i + 1) (fn i (c ∷ take n u) s).0 shorter)
    | inr last ↦ split_loop_last fuel c u plan i s (ground arith)
  ]

-- A chunk size above zero is used as it stands, any other means the default.
pub effective_size_pos : (z : ℤ) → (n : ℕ) × (effective_size z ≡ pos (suc n))
unfolding effective_size
effective_size_pos (pos zero) = (8388607, refl)
effective_size_pos (pos (suc n)) = (n, refl)
effective_size_pos (negsuc n) = (8388607, refl)

abbrev pub empty_plan : Str → ℤ → Plan
empty_plan key chunk_size = record {
  key = key;
  total_size = pos 0;
  chunk_size = effective_size chunk_size;
  fragments = [];
}

-- The chunks of an input for a declared chunk size.
abbrev pub input_chunks : Reader → ℤ → List Str
input_chunks r chunk_size =
    chunks (length r.unread + 1) (bytes_of (effective_size chunk_size)) r.unread

-- `Split` always ends. For every reader, declared chunk size and callback, it hands the chunks of
-- the input to the callback in order until the callback fails, its plan records exactly the chunks
-- that were handed over, and its error is the callback's or else the one that the reader ends with.
pub split-feed :
    {S E : Type 0} (key : Str) (r : Reader) (chunk_size : ℤ) (fn : ℕ → Str → S → S × Option E)
    (s : S)
    → split key r chunk_size fn s
      ≡ some (
          outcome_of key
            (empty_plan key chunk_size)
            0
            r.fault
            (feed fn 0 (input_chunks r chunk_size) s))
unfolding split
split-feed key r chunk_size fn s =
    let (n, positive) = effective_size_pos chunk_size in
    rw positive
      (split_loop-feed key n fn r.fault (length r.unread + 1) r.unread _ 0 s (omega arith))
