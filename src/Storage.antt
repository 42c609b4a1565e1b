-- ===== src/Storage.antt =====
-- internal/storage/storage.go: the fragments of one node, as files and an index of their metadata.
-- The files are a map from paths to contents and the bucket `fragments` is a map from IDs to encoded
-- metadata. `Faults` says which calls of the operating system and of bbolt fail.
pub mod Reads
pub mod Writes
pub mod Paths
pub mod Invariant
pub mod Refinement
pub mod Tests
use frag_kv.Base.{
  Str, ℕ, ◌+◌, List, [], ◌∷◌, ◌++◌, Option, none, some, slash, length, take, codes, replace_all,
  ◌≡◌, refl,
}
use frag_kv.Base.Codec.{Codec}
use frag_kv.Base.GoMap.{GoMap, RangeOrder, lookup, insert, erase, keys, values}
use frag_kv.Base.Int.{ℤ, pos, ◌+ℤ◌}
use frag_kv.Fragment.{Fault, Reader}

pub record FragmentMeta : Type 0 where
  pub id : Str
  pub size : ℤ
  pub created_at : ℕ

pub record Store : Type 0 where
  pub chunks_dir : Str
  pub files : GoMap Str
  pub index : GoMap Str

pub data Error : Type 0 where
  not_found : Error
  blank_key : Error
  creating_dir opening_db creating_bucket : Fault → Error
  creating writing reading opening removing database : Fault → Error
  decoding : Error

-- The value and error results of a read.
pub data Result {ℓ} (A : Type ℓ) : Type ℓ where
  err : Error → Result A
  ok : A → Result A

infixl 5 ◌>>=◌ ◌>>◌
-- if err != nil { return err }
abbrev pub ◌>>=◌ {ℓ κ} : {A : Type ℓ} {B : Type κ} → Result A → (A → Result B) → Result B
m >>= next = elim m [ err e ↦ err e | ok a ↦ next a ]

abbrev pub ◌>>◌ {ℓ} : {B : Type ℓ} → Result (Unit {0}) → Result B → Result B
first >> second = first >>= λ _. second

-- The calls that fail. A write that fails has written `written` bytes.
pub record Faults : Type 0 where
  pub mkdir : Option Fault
  pub open_db : Option Fault
  pub bucket : Option Fault
  pub create : Option Fault
  pub write : Option Fault
  pub written : ℕ
  pub close : Option Fault
  pub read : Option Fault
  pub remove : Option Fault
  pub update : Option Fault
  pub view : Option Fault

abbrev pub healthy : Faults
healthy = record {
  mkdir = none;
  open_db = none;
  bucket = none;
  create = none;
  write = none;
  written = 0;
  close = none;
  read = none;
  remove = none;
  update = none;
  view = none;
}

-- chunkPath
unfoldable pub chunk_path : Str → Str → Str
chunk_path chunks_dir id = chunks_dir ++ slash ∷ (replace_all slash b'_' id ++ codes ".chunk")

-- The first error of two.
abbrev pub or_else : Option Fault → Option Fault → Option Fault
or_else (some e) later = some e
or_else none later = later

abbrev pub check : Option Fault → (Fault → Error) → Result (Unit {0})
check none wrap = ok tt
check (some e) wrap = err (wrap e)

-- Open, on a directory that holds these files and this index.
unfoldable pub open_store : Faults → Str → GoMap Str → GoMap Str → Result Store
open_store faults data_dir files index = do
  check faults.mkdir creating_dir
  check faults.open_db opening_db
  check faults.bucket creating_bucket
  ok (record { chunks_dir = data_dir ++ slash ∷ codes "chunks"; files = files; index = index })

module _ (json : Codec FragmentMeta) where
  -- os.Remove(path), its error ignored
  unfoldable pub discard : Option Fault → Str → Store → Store
  discard (some e) path s = s
  discard none path s = record s { files = erase path s.files }

  -- The transaction that ends `Put`; bbolt refuses a blank key.
  unfoldable pub record_meta : Option Fault → FragmentMeta → Store → Store × Option Error
  record_meta (some e) meta s = (s, some (database e))
  record_meta none meta s = elim meta.id [
    | [] ↦ (s, some blank_key)
    | c ∷ id ↦ (record s { index = insert (c ∷ id) (json.marshal meta) s.index }, none)
  ]

  -- What follows io.Copy and Close: `copied` is the error of the two.
  unfoldable pub after_copy :
      Option Fault → Faults → Str → Str → ℕ → Str → Store → Store × Option Error
  unfolding discard record_meta
  after_copy (some e) faults path id now content s = (
    discard faults.remove path
        (record s { files = insert path (take faults.written content) s.files }),
    some (writing e),
  )
  after_copy none faults path id now content s =
      record_meta faults.update (record { id = id; size = pos (length content); created_at = now })
        (record s { files = insert path content s.files })

  -- Put
  unfoldable pub put : Faults → Str → Reader → ℕ → Store → Store × Option Error
  unfolding after_copy
  put faults id r now s =
      let path = chunk_path s.chunks_dir id in
      elim faults.create [
        | some e ↦ (s, some (creating e))
        | none ↦
            after_copy (or_else (or_else faults.write r.fault) faults.close) faults path id now
              r.unread s
      ]

  abbrev decode : Option FragmentMeta → Result FragmentMeta
  decode none = err decoding
  decode (some meta) = ok meta

  abbrev decode_entry : Option Str → Result FragmentMeta
  decode_entry none = err not_found
  decode_entry (some v) = decode (json.unmarshal v)

  -- Meta
  unfoldable pub meta : Faults → Str → Store → Result FragmentMeta
  meta faults id s = check faults.view database >> decode_entry (lookup id s.index)

  abbrev content_of : Option Str → Result Str
  content_of none = err not_found
  content_of (some content) = ok content

  -- Get
  unfoldable pub get : Faults → Str → Store → Result Str
  unfolding meta
  get faults id s = do
    m ← meta faults id s
    check faults.read reading
    content_of (lookup (chunk_path s.chunks_dir id) s.files)

  -- GetStream: the file's content and the size that the index states.
  unfoldable pub get_stream : Faults → Str → Store → Result (Str × ℤ)
  unfolding meta
  get_stream faults id s = do
    m ← meta faults id s
    check faults.read opening
    content ← content_of (lookup (chunk_path s.chunks_dir id) s.files)
    ok (content, m.size)

  -- Delete
  unfoldable pub delete : Faults → Str → Store → Store × Option Error
  delete faults id s = elim faults.remove [
    | some e ↦ (s, some (removing e))
    | none ↦
        (let s' : Store = record s { files = erase (chunk_path s.chunks_dir id) s.files } in
          elim faults.update [
            | some e ↦ (s', some (database e))
            | none ↦ (record s' { index = erase id s.index }, none)
          ])
  ]

  -- List, in the order in which bbolt visits the bucket.
  unfoldable pub list : RangeOrder → Faults → Store → Result (List Str)
  list order faults s = check faults.view database >> ok (keys (order.range Str s.index))

  sum_sizes : ℤ → List Str → Result ℤ
  sum_sizes total [] = ok total
  sum_sizes total (v ∷ vs) = elim (json.unmarshal v) [
    | none ↦ err decoding
    | some m ↦ sum_sizes (total +ℤ m.size) vs
  ]

  -- DiskUsage
  unfoldable pub disk_usage : RangeOrder → Faults → Store → Result ℤ
  unfolding sum_sizes
  disk_usage order faults s =
      check faults.view database >> sum_sizes (pos 0) (values (order.range Str s.index))
