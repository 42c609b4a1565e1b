-- ===== src/Storage/Writes.antt =====
-- What `Put` and `Delete` of internal/storage/storage.go do to the files and the index.
use frag_kv.Base.{Str, ℕ, ◌≡◌, ◌≢◌, refl, [], none, some, arith, length, take, List-cases, inl, inr}
use frag_kv.Base.Codec.{Codec}
use frag_kv.Base.GoMap.{insert, erase}
use frag_kv.Base.GoMap.Laws.{lookup-erase_self}
use frag_kv.Base.Int.{pos}
use frag_kv.Fragment.{Fault, Reader}
use frag_kv.Storage.{
  FragmentMeta, Store, writing, ok, Faults, healthy, chunk_path, put, get, delete, or_else,
  record_meta,
}

abbrev pub meta_of : Str → Reader → ℕ → FragmentMeta
meta_of id r now = record { id = id; size = pos (length r.unread); created_at = now }

module _ (json : Codec FragmentMeta) (id : Str) where
  -- The store after a `Put` that nothing disturbs.
  abbrev pub stored : Reader → ℕ → Store → Store
  stored r now s = record s {
    files = insert (chunk_path s.chunks_dir id) r.unread s.files;
    index = insert id (json.marshal (meta_of id r now)) s.index;
  }

  pub put-healthy :
      (r : Reader) (now : ℕ) (s : Store)
      → r.fault ≡ none
      → id ≢ []
      → put json healthy id r now s ≡ (stored r now s, none)
  unfolding put record_meta
  put-healthy r now s h named = elim (List-cases id) [
    | inl empty ↦ absurd (named empty)
    | inr (c, rest, e) ↦ rw h (ground (arith, e))
  ]

  -- A `Put` that creates its file but cannot read or write all bytes, or close the file, and then removes
  -- it, returns that error, and what the ID held before is lost: whatever the store, `Get` does not
  -- return bytes.
  pub get_after_failed_copy :
      (faults : Faults) (r : Reader) (now : ℕ) (s : Store) (e : Fault) (content : Str)
      → faults.create ≡ none
      → faults.remove ≡ none
      → or_else (or_else faults.write r.fault) faults.close ≡ some e
      → ((put json faults id r now s).1 ≡ some (writing e))
        × (get json healthy id (put json faults id r now s).0 ≢ ok content)
  unfolding put get
  get_after_failed_copy faults r now s e content c m h =
      let path = chunk_path s.chunks_dir id in
      ground (arith, lookup-erase_self path (insert path (take faults.written r.unread) s.files))

  pub delete-healthy :
      (s : Store)
      → delete json healthy id s ≡ (
        record s { files = erase (chunk_path s.chunks_dir id) s.files; index = erase id s.index },
        none,
      )
  unfolding delete
  delete-healthy s = refl
