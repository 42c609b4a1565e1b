-- ===== src/Fragment/RoundTrip.antt =====
-- `Split` into a store of fragments, and `Assemble` from it: the value comes back.
use mathlib.Core.List.{flatten}
use frag_kv.Base.{
  Str, ℕ, ◌+◌, ◌<◌, ◌≡◌, refl, ap, ◌∙◌, List, [], ◌∷◌, ◌++◌, Option, none, some, arith, length,
  append_assoc, append-nil, str_eq, str_eq_iff, str_eq_refl, Bool-cases, inl, inr,
}
use frag_kv.Base.GoMap.{GoMap, lookup, insert}
use frag_kv.Base.GoMap.Laws.{lookup-insert}
use frag_kv.Base.Int.{ℤ}
use frag_kv.Fragment.{
  Fault, Info, Reader, Outcome, new_info, split, effective_size, bytes_of, id, Fetched, bytes,
  fetch_failed, fetching, assemble,
}
use frag_kv.Fragment.Ids.{id_injective}
use frag_kv.Fragment.Chunks.{flatten-chunks}
use frag_kv.Fragment.Splits.{feed, extend, empty_plan, input_chunks, split-feed, effective_size_pos}
use frag_kv.Fragment.Collects.{infos, fragments-extend}

-- A callback that stores each chunk under its ID, and a fetch from that store.
unfoldable pub keep_chunk : Str → ℕ → Str → GoMap Str → GoMap Str × Option Fault
keep_chunk key index chunk m = (insert (id key index) chunk m, none)

abbrev pub fetched : Option Str → Fetched
fetched none = fetch_failed 0
fetched (some c) = bytes c

unfoldable pub fetch_from : GoMap Str → Str → Fetched
fetch_from m fid = fetched (lookup fid m)

-- A writer that takes every byte.
unfoldable pub append_to : Str → Str → Str × Option Fault
append_to chunk w = (w ++ chunk, none)

-- A fetch that has the chunks of a key from index `i` on.
abbrev pub Serves : (Str → Fetched) → Str → ℕ → List Str → Type 0
Serves fetch key i [] = Unit
Serves fetch key i (c ∷ cs) = (fetch (id key i) ≡ bytes c) × Serves fetch key (i + 1) cs

pub assemble-Serves :
    (fetch : Str → Fetched) (key : Str) (i : ℕ) (cs : List Str) (w : Str)
    → Serves fetch key i cs
    → assemble append_to fetch w (infos key i cs) ≡ (w ++ flatten cs, none)
unfolding assemble infos append_to flatten new_info
assemble-Serves fetch key i [] w h = rw append-nil
assemble-Serves fetch key i (c ∷ cs) w (here, later) =
    rw here (assemble-Serves fetch key (i + 1) cs (w ++ c) later ∙ rw append_assoc)

-- When the fragments of a key can be fetched from some index on and the fragment after them cannot, the
-- run ends with the error of that fetch: what was fetched before is written and no more.
pub assemble_fetch_fails :
    (fetch : Str → Fetched) (key : Str) (i : ℕ) (cs : List Str) (w : Str) (f : Info)
    (fs : List Info) (e : Fault)
    → Serves fetch key i cs
    → fetch f.id ≡ fetch_failed e
    → assemble append_to fetch w (infos key i cs ++ f ∷ fs)
      ≡ (w ++ flatten cs, some (fetching f.id e))
unfolding assemble infos append_to flatten new_info
assemble_fetch_fails fetch key i [] w f fs e h fails = rw (fails, append-nil)
assemble_fetch_fails fetch key i (c ∷ cs) w f fs e (here, later) fails =
    rw here
      (assemble_fetch_fails fetch key (i + 1) cs (w ++ c) f fs e later fails ∙ rw append_assoc)

module _ (key : Str) where
  handed-keep :
      (i : ℕ) (cs : List Str) (m : GoMap Str)
      → ((feed (keep_chunk key) i cs m).handed ≡ cs) × ((feed (keep_chunk key) i cs m).error ≡ none)
  unfolding feed keep_chunk
  handed-keep i [] m = (refl, refl)
  handed-keep i (c ∷ cs) m =
      let (handed, error) = handed-keep (i + 1) cs (insert (id key i) c m) in
      (ap (λ (t : List Str). c ∷ t) handed, error)

  abbrev kept : ℕ → List Str → GoMap Str → GoMap Str
  kept i cs m = (feed (keep_chunk key) i cs m).state

  -- Later chunks do not touch earlier ones.
  lookup-kept :
      (i j : ℕ) (cs : List Str) (m : GoMap Str)
      → j < i
      → lookup (id key j) (kept i cs m) ≡ lookup (id key j) m
  unfolding feed keep_chunk
  lookup-kept i j [] m h = refl
  lookup-kept i j (c ∷ cs) m h =
      lookup-kept (i + 1) j cs (insert (id key i) c m) (omega arith)
      ∙ lookup-insert (id key i) (id key j) c m
      ∙ elim (Bool-cases (str_eq (id key i) (id key j))) [
        | inl same ↦
            let equal = id_injective key key i j ((str_eq_iff (id key i) (id key j)).0 same) in
            absurd (omega (arith, equal.1))
        | inr other ↦ rw other
      ]

  kept-Serves : (i : ℕ) (cs : List Str) (m : GoMap Str) → Serves (fetch_from (kept i cs m)) key i cs
  unfolding feed keep_chunk fetch_from
  kept-Serves i [] m = tt
  kept-Serves i (c ∷ cs) m = (
    ap fetched {y = some c} (
        lookup-kept (i + 1) i cs (insert (id key i) c m) (omega arith)
        ∙ lookup-insert (id key i) (id key i) c m
        ∙ rw (str_eq_refl (id key i))),
    kept-Serves (i + 1) cs (insert (id key i) c m),
  )

-- Splitting an input into a store of fragments ends with no error, and assembling the fragments of
-- its plan from that store writes the input back, byte for byte, whatever the store held before.
pub assemble-split :
    (key : Str) (r : Reader) (chunk_size : ℤ) (m : GoMap Str)
    → r.fault ≡ none
    → (o : Outcome (GoMap Str) Fault) × (split key r chunk_size (keep_chunk key) m ≡ some o)
      × (o.error ≡ none)
      × (assemble append_to (fetch_from o.state) [] o.plan.fragments ≡ (r.unread, none))
assemble-split key r chunk_size m sound =
    let (n, positive) = effective_size_pos chunk_size in
    let cs = input_chunks r chunk_size in
    let (handed, no_error) = handed-keep key 0 cs m in
    let nonzero : 0 < bytes_of (effective_size chunk_size) = rw positive (omega arith) in
    let whole = flatten-chunks (length r.unread + 1) _ r.unread nonzero (omega arith) in
    (
      record {
        plan = extend key (empty_plan key chunk_size) 0 cs;
        error = none;
        state = kept key 0 cs m;
      },
      split-feed key r chunk_size (keep_chunk key) m ∙ rw (handed, no_error, sound),
      refl,
      rw (fragments-extend key (empty_plan key chunk_size) 0 cs)
          (assemble-Serves _ key 0 cs [] (kept-Serves key 0 cs m) ∙ rw whole),
    )
