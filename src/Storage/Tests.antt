-- ===== src/Storage/Tests.antt =====
-- Runs of internal/storage/storage.go on a store that holds one fragment.
use frag_kv.Base.{
  Str, ℕ, ◌≡◌, ◌≢◌, refl, ap, List, [], ◌∷◌, Option, none, some, codes, arith, slash, Lacks, All,
  length, str_eq_iff, str_eq, replace_all,
}
use frag_kv.Base.Codec.{Codec}
use frag_kv.Base.Encode.{nat, int, str, pair, via, codec_of}
use frag_kv.Base.GoMap.{GoMap, lookup}
use frag_kv.Base.Int.{pos}
use frag_kv.Fragment
use frag_kv.Fragment.{Fault, Reader}
use frag_kv.Storage.{FragmentMeta, Store, writing, ok, Faults, healthy, chunk_path, put, meta, get}
use frag_kv.Storage.Paths.{chunk_path_injective, chunk_path-clash}
use frag_kv.Storage.Writes.{get_after_failed_copy}
use frag_kv.Storage.Reads.{get-put_clash}
use frag_kv.Storage.Refinement.{
  Write, put_of, delete_of, IsSound, Implements, run_writes, spec_writes, objects, store-Implements,
}
use frag_kv.Storage.Invariant.{IsFragmentId, IsConsistent, put-IsConsistent}

unfoldable pub json : Codec FragmentMeta
json = codec_of (
    via (λ m. (m.id, (m.size, m.created_at)))
      (λ t. record { id = t.0; size = t.1.0; created_at = t.1.1 }) (λ m. refl)
      (pair str (pair int nat)))

abbrev a_slash_0 : Str
a_slash_0 = codes "a/0"

abbrev b_slash_0 : Str
b_slash_0 = codes "b/0"

abbrev a_underscore_0 : Str
a_underscore_0 = codes "a_0"

abbrev plain : Reader
plain = record { unread = codes "hello"; fault = none }

abbrev no_space : Faults
no_space = record healthy { write = some 28; written = 2 }

abbrev locked : Faults
locked = record healthy { update = some 5 }

abbrev empty_store : Store
empty_store = record { chunks_dir = codes "d"; files = []; index = [] }

abbrev first_meta : FragmentMeta
first_meta = record { id = a_slash_0; size = pos 3; created_at = 1 }

-- The store after the fragment "a/0" was put.
abbrev pub one_stored : Store
one_stored = record empty_store {
  files = (codes "d/a_0.chunk", codes "old") ∷ [];
  index = (a_slash_0, json.marshal first_meta) ∷ [];
}

abbrev first_index : ℕ
first_index = 0

a_lacks_slash : Lacks slash (codes "a")
a_lacks_slash = (omega arith, tt)

chunk_path_injective_example : (codes "a" ≡ codes "a") × (first_index ≡ first_index)
chunk_path_injective_example =
    chunk_path_injective (codes "d") (codes "a") (codes "a") first_index first_index a_lacks_slash
      a_lacks_slash refl

chunk_path-clash_example : chunk_path (codes "d") a_slash_0 ≡ chunk_path (codes "d") a_underscore_0
chunk_path-clash_example = chunk_path-clash (codes "d") (codes "a") (codes "0")

paths_differ : chunk_path (codes "d") b_slash_0 ≢ chunk_path (codes "d") a_slash_0
unfolding chunk_path replace_all str_eq
paths_differ same = absurd (cc ((str_eq_iff _ _).1 same))

ids_differ : a_underscore_0 ≢ a_slash_0
ids_differ same = absurd cc

reads_old : get json healthy a_slash_0 one_stored ≡ ok (codes "old")
unfolding get meta lookup str_eq chunk_path replace_all
reads_old = ground (arith, json.unmarshal-marshal first_meta)

get-put_clash_example :
    get json healthy a_slash_0 (put json healthy a_underscore_0 plain 7 one_stored).0
    ≡ ok (codes "hello")
unfolding chunk_path frag_kv.Base.replace_all
get-put_clash_example =
    get-put_clash json a_underscore_0 plain 7 one_stored a_slash_0 (codes "old") refl ids_differ
      refl reads_old

get_after_failed_copy_example :
    ((put json no_space a_slash_0 plain 7 one_stored).1 ≡ some (writing 28))
    × (get json healthy a_slash_0 (put json no_space a_slash_0 plain 7 one_stored).0
        ≢ ok (codes "old"))
get_after_failed_copy_example =
    get_after_failed_copy json a_slash_0 no_space plain 7 one_stored 28 (codes "old") refl refl refl

a_slash_0-IsFragmentId : IsFragmentId a_slash_0
unfolding Fragment.id frag_kv.Base.Decimal.itoa
a_slash_0-IsFragmentId = record { key = codes "a"; index = 0; plain = a_lacks_slash; made = refl }

empty-IsConsistent : IsConsistent json empty_store
unfolding lookup
empty-IsConsistent = record { entry = λ f v p. absurd (cc p) }

abbrev filled : Store
filled = (put json healthy a_slash_0 plain 7 empty_store).0

filled-IsConsistent : IsConsistent json filled
filled-IsConsistent =
    put-IsConsistent json a_slash_0 plain 7 empty_store refl a_slash_0-IsFragmentId
      empty-IsConsistent

put_runs :
    (put json healthy b_slash_0 plain 7 one_stored).0.files
    ≡ (codes "d/a_0.chunk", codes "old") ∷ (codes "d/b_0.chunk", codes "hello") ∷ []
unfolding put frag_kv.Base.GoMap.insert chunk_path frag_kv.Base.replace_all
put_runs = refl

abbrev two_writes : List Write
two_writes = put_of (codes "b/0") plain 7 ∷ delete_of a_slash_0 ∷ []

two_writes-IsSound : All IsSound two_writes
unfolding Fragment.id frag_kv.Base.Decimal.itoa
two_writes-IsSound = (
  (record { key = codes "b"; index = 0; plain = (omega arith, tt); made = refl }, refl),
  (record { key = codes "a"; index = 0; plain = (omega arith, tt); made = refl }, tt),
)

store-Implements_example :
    Implements json
      (run_writes json two_writes filled)
      (spec_writes two_writes (objects json filled))
store-Implements_example =
    store-Implements json two_writes filled two_writes-IsSound filled-IsConsistent
