-- ===== src/Fragment/Tests.antt =====
-- Runs of internal/fragment/fragment.go on seven bytes in chunks of three.
use mathlib.Core.List.{flatten}
use frag_kv.Base.{
  Str, ℕ, zero, suc, ◌+◌, ◌≡◌, refl, List, [], ◌∷◌, ◌++◌, Option, none, some, codes, arith,
}
use frag_kv.Base.GoMap.{GoMap}
use frag_kv.Base.Int.{ℤ, pos, negsuc}
use frag_kv.Fragment.{
  Fault, Info, Plan, Reader, Outcome, id, split, assemble, effective_size, bytes_of, Fetched, bytes,
  fetch_failed, AssembleError, fetching, new_info, callback, SplitError,
}
use frag_kv.Fragment.Splits.{feed, outcome_of, empty_plan, input_chunks, split-feed}
use frag_kv.Fragment.Collects.{collect, infos}
use frag_kv.Fragment.RoundTrip.{
  keep_chunk, fetch_from, append_to, assemble_fetch_fails, assemble-split,
}

abbrev key : Str
key = codes "k"

abbrev seven : ℕ
seven = 7

abbrev input : Reader
input = record { unread = codes "abcdefg"; fault = none }

abbrev cut_off : Reader
cut_off = record { unread = codes "abcdefg"; fault = some 4 }

-- A callback that fails on the second chunk.
abbrev refuse_second : ℕ → Str → ℕ → ℕ × Option Fault
refuse_second zero chunk n = (n + 1, none)
refuse_second (suc i) chunk n = (n, some (suc i))

split-feed_example :
    split key cut_off (negsuc 0) collect []
    ≡ some (
        outcome_of key
          (empty_plan key (negsuc 0))
          0
          (some 4)
          (feed (collect {E = Fault}) 0 (input_chunks cut_off (negsuc 0)) []))
split-feed_example = split-feed key cut_off (negsuc 0) collect []

assemble-split_example :
    (o : Outcome (GoMap Str) Fault) × (split key input (pos 3) (keep_chunk key) [] ≡ some o)
    × (o.error ≡ none)
    × (assemble append_to (fetch_from o.state) [] o.plan.fragments ≡ (codes "abcdefg", none))
assemble-split_example = assemble-split key input (pos 3) [] refl

-- A store that has the first of two chunks.
abbrev half_stored : GoMap Str
half_stored = (codes "k/0", codes "abc") ∷ []

assemble_fetch_fails_example :
    assemble append_to
      (fetch_from half_stored)
      []
      (infos key 0 (codes "abc" ∷ []) ++ new_info key 1 (codes "def") ∷ [])
    ≡ (flatten (codes "abc" ∷ []), some (fetching (new_info key 1 (codes "def")).id 0))
unfolding id fetch_from new_info frag_kv.Base.GoMap.lookup frag_kv.Base.Decimal.itoa
assemble_fetch_fails_example =
    assemble_fetch_fails (fetch_from half_stored) key 0 (codes "abc" ∷ []) []
      (new_info key 1 (codes "def")) [] 0 (refl, tt) refl

abbrev three_chunks : List Str
three_chunks = codes "abc" ∷ codes "def" ∷ codes "g" ∷ []

abbrev collected_run : Option (Outcome (List Str) Fault)
collected_run = some (record {
  plan = record {
    key = key;
    total_size = pos 7;
    chunk_size = pos 3;
    fragments = infos key 0 three_chunks;
  };
  error = none;
  state = three_chunks;
})

split_runs : split key input (pos 3) collect [] ≡ collected_run
unfolding split infos collect frag_kv.Fragment.split_loop frag_kv.Fragment.add_info
    frag_kv.Base.Int.◌+ℤ◌
split_runs = refl
