-- ===== src/Harness/Reads.antt =====
-- GetValue of experiments/harness/harness.go against the storage nodes of the system: the bytes that it
-- copies into the result.
use mathlib.Core.Option.{some-injective}
use frag_kv.Base.{
  Str, ℕ, zero, suc, ◌+◌, ◌-◌, ◌*◌, ◌≤◌, ◌<◌, ◌≡◌, refl, sym, ap, ap₂, ◌∙◌, subst, List, [], ◌∷◌,
  ◌++◌, Option, none, some, true, arith, slash, Lacks, All, length, take, drop, leb, take_all,
  take-append-drop, append_assoc, length-append, length-take, length-drop, get_elem?,
}
use frag_kv.Base.Int.{pos, wrap64, wrap64_id, max_int64}
use frag_kv.Fragment.{Info}
use frag_kv.Fragment.Chunks.{chunks}
use frag_kv.Transport.{fragment_url}
use frag_kv.Kvctl.{Json, Result, ok, download_request}
use frag_kv.Kvctl.Downloads.{IsStored, Aligned, asked, all_asked}
use frag_kv.Cluster.{Setup, Network, World, services}
use frag_kv.Cluster.Nodes.{KeptAt}
use frag_kv.Cluster.Requests.{download_answer}
use frag_kv.Harness.{zeros, copy_at, fetch, fill}

pub length-zeros : (n : ℕ) → length (zeros n) ≡ n
unfolding zeros
length-zeros zero = refl
length-zeros (suc n) = ap suc (length-zeros n)

drop-zeros : (m n : ℕ) → drop m (zeros n) ≡ zeros (n - m)
unfolding zeros
drop-zeros zero n = ap zeros (omega arith)
drop-zeros (suc m) zero = ap zeros {x = 0} (omega arith)
drop-zeros (suc m) (suc n) = drop-zeros m n ∙ ap zeros (omega arith)

take_prefix : (s t : Str) → take (length s) (s ++ t) ≡ s
take_prefix [] t = refl
take_prefix (c ∷ s) t = ap (◌∷◌ c) (take_prefix s t)

drop_prefix : (s t : Str) (n : ℕ) → drop (length s + n) (s ++ t) ≡ drop n t
drop_prefix [] t n = ap (λ (k : ℕ). drop k t) (omega arith)
drop_prefix (c ∷ s) t n =
    ap (λ (k : ℕ). drop k (c ∷ (s ++ t))) {y = suc (length s + n)} (omega arith) ∙ drop_prefix s t n

-- A chunk that is copied behind the bytes that are there.
copied :
    (before u : Str) (c : ℕ)
    → copy_at (before ++ zeros (length u)) (pos (length before)) (take c u)
      ≡ some ((before ++ take c u) ++ zeros (length (drop c u)))
unfolding copy_at
copied before u c =
    let result : Str = before ++ zeros (length u) in
    let whole : length result ≡ length before + length u =
      length-append before (zeros (length u))
      ∙ ap (◌+◌ (length before)) (length-zeros (length u)) in
    let inside : leb (length before) (length result) ≡ true = ground (arith, whole) in
    let middle : take (length result - length before) (take c u) ≡ take c u =
      take_all (length result - length before) (take c u) (omega (arith, whole, length-take c u)) in
    let end : drop (length before + length (take c u)) result ≡ zeros (length (drop c u)) =
      drop_prefix before (zeros (length u)) (length (take c u))
      ∙ drop-zeros (length (take c u)) (length u)
      ∙ ap zeros (omega (arith, length-take c u, length-drop c u)) in
    rw (copy_at, inside, take_prefix before (zeros (length u)), middle, end) refl

module _ (setup : Setup) (net : Network) (now : ℕ) (key : Str) (cs : List Str)
    (single : Lacks slash key) (json : Json) where
  abbrev fetched : Info → World → World × Result (Option Str)
  fetched f w = fetch (services setup net now) json f.id f.node_addrs none w

  -- The first address returns the chunk.
  fetch_runs :
      (f : Info) (w : World) (st : IsStored setup key cs w.stores f)
      → fetched f w ≡ (asked setup net now key cs single f st.held.primary w, ok (some st.content))
  unfolding fetch
  fetch_runs f w st =
      let held = st.held in
      let answer =
        download_answer setup net now key cs single held.primary (download_request f.id) w.stores
          st.job.position refl (ap (fragment_url []) st.job.named) st.content held.host
          (subst (λ id. KeptAt setup.metas id st.content held.primary w.stores) st.job.named
            held.kept) in
      ap (λ addrs. fetch (services setup net now) json f.id addrs none w) held.addressed
      ∙ rw (fetch, answer) refl

  -- The copies leave the chunks of `u` behind what is there, for fragments from index `i` on.
  pub fill_runs :
      (fuel c : ℕ) (before u : Str) (i : ℕ) (fs : List Info) (w : World)
      → 0 < c
      → length u < fuel
      → (0 < length u → length before ≡ i * c)
      → length before + length u ≤ max_int64
      → ((k : ℕ) → get_elem? cs (i + k) ≡ get_elem? (chunks fuel c u) k)
      → Aligned key i fs (chunks fuel c u)
      → All (IsStored setup key cs w.stores) fs
      → (fill (services setup net now) json c fs (before ++ zeros (length u)) none w).1
        ≡ ok (before ++ u)
  unfolding fill chunks zeros
  fill_runs zero c before u i fs w some_size enough at fits cut al stored = absurd (omega arith)
  fill_runs (suc fuel) c before [] i [] w some_size enough at fits cut al stored = refl
  fill_runs (suc fuel) c before [] i (f ∷ fs) w some_size enough at fits cut al stored = elim al [ ]
  fill_runs (suc fuel) c before (x ∷ u) i [] w some_size enough at fits cut al stored = elim al [ ]
  fill_runs (suc fuel) c before (x ∷ u) i (f ∷ fs) w some_size enough at fits cut (named, index, al)
        (st, sts) =
      let start = at (omega arith) in
      let content : st.content ≡ take c (x ∷ u) =
        some-injective _ _ (
          sym st.job.cut ∙ ap (get_elem? cs) (sym st.job.numbered ∙ index ∙ omega arith) ∙ cut 0) in
      let offset : wrap64 (pos (f.index * c)) ≡ pos (length before) =
        ap (λ (j : ℕ). wrap64 (pos (j * c))) index
        ∙ ap (λ (n : ℕ). wrap64 (pos n)) (sym start)
        ∙ wrap64_id (pos (length before)) (omega arith) in
      let next : Str = drop c (x ∷ u) in
      let left = length-drop c (x ∷ u) in
      let taken = length-take c (x ∷ u) in
      let w' = asked setup net now key cs single f st.held.primary w in
      let put : copy_at (before ++ zeros (length (x ∷ u))) (wrap64 (pos (f.index * c))) st.content
          ≡ some ((before ++ take c (x ∷ u)) ++ zeros (length next)) =
        ap₂ (copy_at (before ++ zeros (length (x ∷ u)))) offset content ∙ copied before (x ∷ u) c in
      let later =
        fill_runs fuel c (before ++ take c (x ∷ u)) next (i + 1) fs w' some_size
          (omega (arith, left))
          (λ more. omega (arith, start, length-append before (take c (x ∷ u)), taken, left))
          (omega (arith, length-append before (take c (x ∷ u)), taken, left))
          (λ k. ap (get_elem? cs) (omega arith) ∙ cut (suc k)) al
          (all_asked setup net now key cs single fs f w st sts) in
      let whole : (before ++ take c (x ∷ u)) ++ next ≡ before ++ x ∷ u =
        append_assoc before (take c (x ∷ u)) next ∙ ap (◌++◌ before) (take-append-drop c (x ∷ u)) in
      let result : Str = (before ++ take c (x ∷ u)) ++ zeros (length next) in
      rw (fill, fetch_runs f w st, put)
        (ap (λ p. (fill (services setup net now) json c fs result none p.0).1) (fetch_runs f w st)
          ∙ later
          ∙ ap ok whole)
