-- ===== src/Storage/Reads.antt =====
-- What `Get`, `GetStream` and `Meta` of internal/storage/storage.go return after `Put` and `Delete`.
use frag_kv.Base.{
  Str, ℕ, suc, ◌+◌, ◌≡◌, ◌≢◌, refl, sym, ap, ◌∙◌, [], ◌∷◌, ◌++◌, none, arith, length, length-append,
  codes, slash, replace_all,
}
use frag_kv.Base.Codec.{Codec}
use frag_kv.Base.GoMap.Laws.{
  lookup-insert_self, lookup-insert_ne, lookup-erase_self, lookup-erase_ne,
}
use frag_kv.Base.Int.{pos}
use frag_kv.Fragment.{Reader}
use frag_kv.Storage.{
  FragmentMeta, Store, not_found, ok, err, healthy, chunk_path, put, meta, get, get_stream, delete,
}
use frag_kv.Storage.Writes.{meta_of, stored, put-healthy, delete-healthy}

length-replace_all : (old new : ℕ) (s : Str) → length (replace_all old new s) ≡ length s
unfolding replace_all
length-replace_all old new [] = refl
length-replace_all old new (c ∷ s) = ap suc (length-replace_all old new s)

length-chunk_path : (dir id : Str) → length (chunk_path dir id) ≡ length dir + 7 + length id
unfolding chunk_path
length-chunk_path dir id =
    let name : Str = replace_all slash b'_' id ++ codes ".chunk" in
    omega (
      arith,
      length-append dir (slash ∷ name),
      length-append (replace_all slash b'_' id) (codes ".chunk"),
      length-replace_all slash b'_' id,
    )

no_bytes : (s : Str) → length s ≡ 0 → s ≡ []
no_bytes [] h = refl
no_bytes (c ∷ s) h = absurd (omega (arith, h))

module _ (json : Codec FragmentMeta) (id : Str) where
  -- What the reads return of the store after such a `Put`.
  pub get-stored :
      (r : Reader) (now : ℕ) (s : Store)
      → (get json healthy id (stored json id r now s) ≡ ok r.unread)
        × (meta json healthy id (stored json id r now s) ≡ ok (meta_of id r now))
        × (get_stream json healthy id (stored json id r now s)
            ≡ ok (r.unread, pos (length r.unread)))
  unfolding get meta get_stream
  get-stored r now s = ground (
    arith,
    lookup-insert_self id (json.marshal (meta_of id r now)) s.index,
    lookup-insert_self (chunk_path s.chunks_dir id) r.unread s.files,
    json.unmarshal-marshal (meta_of id r now),
  )

  pub get_stream-stored_ne :
      (r : Reader) (now : ℕ) (s : Store) (other : Str)
      → chunk_path s.chunks_dir id ≢ chunk_path s.chunks_dir other
      → get_stream json healthy other (stored json id r now s) ≡ get_stream json healthy other s
  unfolding meta get_stream
  get_stream-stored_ne r now s other apart =
      let different : id ≢ other = λ e. apart (ap (chunk_path s.chunks_dir) e) in
      ground (
        arith,
        lookup-insert_ne id other (json.marshal (meta_of id r now)) s.index different,
        lookup-insert_ne _ _ r.unread s.files apart,
      )

  -- After a `Put` that nothing disturbs, `Get` returns the bytes of the reader, `Meta` the ID, the
  -- number of bytes and the time, and `GetStream` the bytes with their number.
  pub get-put :
      (r : Reader) (now : ℕ) (s : Store)
      → r.fault ≡ none
      → id ≢ []
      → (get json healthy id (put json healthy id r now s).0 ≡ ok r.unread)
        × (meta json healthy id (put json healthy id r now s).0 ≡ ok (meta_of id r now))
        × (get_stream json healthy id (put json healthy id r now s).0
            ≡ ok (r.unread, pos (length r.unread)))
  get-put r now s h named = rw (put-healthy json id r now s h named) (get-stored r now s)

  -- A `Put` of one ID that nothing disturbs leaves what `Get` and `Meta` return of every ID with another file unchanged.
  pub get-put_ne :
      (r : Reader) (now : ℕ) (s : Store) (other : Str)
      → r.fault ≡ none
      → id ≢ []
      → chunk_path s.chunks_dir id ≢ chunk_path s.chunks_dir other
      → (get json healthy other (put json healthy id r now s).0 ≡ get json healthy other s)
        × (meta json healthy other (put json healthy id r now s).0 ≡ meta json healthy other s)
  unfolding get meta
  get-put_ne r now s other h named apart =
      let different : id ≢ other = λ e. apart (ap (chunk_path s.chunks_dir) e) in
      rw (put-healthy json id r now s h named) (
        ground (
          arith,
          lookup-insert_ne id other (json.marshal (meta_of id r now)) s.index different,
          lookup-insert_ne _ _ r.unread s.files apart,
        ))

  clash_named : (dir other : Str) → id ≢ other → chunk_path dir id ≡ chunk_path dir other → id ≢ []
  clash_named dir other different same empty =
      let lengths : length id ≡ length other =
        omega (arith, length-chunk_path dir id, length-chunk_path dir other, ap length same) in
      different (empty ∙ sym (no_bytes other (omega (arith, lengths, ap length empty))))

  -- For two different IDs that share a file: a `Put` of one that nothing disturbs replaces the content
  -- that `Get` returned of the other.
  pub get-put_clash :
      (r : Reader) (now : ℕ) (s : Store) (other content : Str)
      → r.fault ≡ none
      → id ≢ other
      → chunk_path s.chunks_dir id ≡ chunk_path s.chunks_dir other
      → get json healthy other s ≡ ok content
      → get json healthy other (put json healthy id r now s).0 ≡ ok r.unread
  unfolding get
  get-put_clash r now s other content h different same held =
      rw (put-healthy json id r now s h (clash_named s.chunks_dir other different same)) (
        ground (
          arith,
          same,
          lookup-insert_ne id other (json.marshal (meta_of id r now)) s.index different,
          lookup-insert_self (chunk_path s.chunks_dir id) r.unread s.files,
        ))

  -- After a `Delete` that nothing disturbs, `Get`, `Meta` and `GetStream` do not find the ID.
  pub get-delete :
      (s : Store)
      → (get json healthy id (delete json healthy id s).0 ≡ err not_found)
        × (meta json healthy id (delete json healthy id s).0 ≡ err not_found)
        × (get_stream json healthy id (delete json healthy id s).0 ≡ err not_found)
  unfolding get meta get_stream
  get-delete s =
      let gone = lookup-erase_self id s.index in
      rw (delete-healthy json id s) (ground (arith, gone))

  -- A `Delete` of one ID that nothing disturbs leaves what `Get` returns of every ID with another file unchanged.
  pub get-delete_ne :
      (s : Store) (other : Str)
      → chunk_path s.chunks_dir id ≢ chunk_path s.chunks_dir other
      → get json healthy other (delete json healthy id s).0 ≡ get json healthy other s
  unfolding get meta
  get-delete_ne s other apart = rw (delete-healthy json id s) (
      ground (
        arith,
        lookup-erase_ne id other s.index (λ e. apart (ap (chunk_path s.chunks_dir) e)),
        lookup-erase_ne _ _ s.files apart,
      ))

  pub meta-delete_ne :
      (s : Store) (other : Str)
      → id ≢ other
      → meta json healthy other (delete json healthy id s).0 ≡ meta json healthy other s
  unfolding meta
  meta-delete_ne s other different =
      rw (delete-healthy json id s) (ground (arith, lookup-erase_ne id other s.index different))
