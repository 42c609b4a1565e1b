-- ===== src/Storage/Invariant.antt =====
-- The index and the files of internal/storage/storage.go agree.
use frag_kv.Base.{
  [], Str, ℕ, ◌≡◌, ◌≢◌, refl, sym, ap, ◌∙◌, subst, none, some, arith, length, slash, Lacks, str_eq,
  str_eq_iff, Bool-cases, inl, inr,
}
use mathlib.Core.Path.{subst₂}
use frag_kv.Base.Codec.{Codec}
use frag_kv.Base.GoMap.{lookup, insert, erase}
use frag_kv.Base.GoMap.Laws.{
  lookup-insert_self, lookup-insert_ne, lookup-erase_self, lookup-erase_ne,
}
use frag_kv.Base.Int.{pos}
use frag_kv.Fragment.{Fault, Reader}
use frag_kv.Fragment
use frag_kv.Fragment.Ids.{id_named}
use frag_kv.Storage.{FragmentMeta, Store, ok, healthy, chunk_path, put, meta, get, delete}
use frag_kv.Storage.Paths.{chunk_path_injective}
use frag_kv.Storage.Writes.{meta_of, stored, put-healthy, delete-healthy}

-- An ID that the metadata service makes: of a key without a slash.
pub record IsFragmentId (f : Str) : Type 0 where
  pub key : Str
  pub index : ℕ
  pub plain : Lacks slash key
  pub made : f ≡ Fragment.id key index

pub named_id : (id : Str) → IsFragmentId id → id ≢ []
named_id id is_id e = id_named is_id.key is_id.index (sym is_id.made ∙ e)

module _ (json : Codec FragmentMeta) where
  -- The entry of an ID has its file, and states the ID and the size of that file.
  pub record Entry (s : Store) (f v : Str) : Type 0 where
    pub meta : FragmentMeta
    pub content : Str
    pub is_id : IsFragmentId f
    pub decoded : json.unmarshal v ≡ some meta
    pub names : meta.id ≡ f
    pub has_file : lookup (chunk_path s.chunks_dir f) s.files ≡ some content
    pub sized : meta.size ≡ pos (length content)

  pub record IsConsistent (s : Store) : Type 0 where
    pub entry : (f v : Str) → lookup f s.index ≡ some v → Entry s f v

  pub paths_apart :
      (dir f g : Str)
      → IsFragmentId f
      → IsFragmentId g
      → f ≢ g
      → chunk_path dir f ≢ chunk_path dir g
  paths_apart dir f g a b different same =
      let same' : chunk_path dir (Fragment.id a.key a.index)
          ≡ chunk_path dir (Fragment.id b.key b.index) =
        ap (chunk_path dir) (sym a.made) ∙ same ∙ ap (chunk_path dir) b.made in
      let (k, i) = chunk_path_injective dir a.key b.key a.index b.index a.plain b.plain same' in
      different (a.made ∙ cc (k, i) ∙ sym b.made)

  stored-Entry :
      (id : Str) (r : Reader) (now : ℕ) (s : Store)
      → IsFragmentId id
      → Entry (stored json id r now s) id (json.marshal (meta_of id r now))
  stored-Entry id r now s is_id = record {
    meta = meta_of id r now;
    content = r.unread;
    is_id = is_id;
    decoded = json.unmarshal-marshal (meta_of id r now);
    names = refl;
    has_file = lookup-insert_self (chunk_path s.chunks_dir id) r.unread s.files;
    sized = refl;
  }

  -- An entry stays one where its file keeps its content.
  carry-Entry :
      (s s' : Store) (f v : Str)
      → lookup (chunk_path s'.chunks_dir f) s'.files ≡ lookup (chunk_path s.chunks_dir f) s.files
      → Entry s f v
      → Entry s' f v
  carry-Entry s s' f v kept e = record {
    meta = e.meta;
    content = e.content;
    is_id = e.is_id;
    decoded = e.decoded;
    names = e.names;
    has_file = kept ∙ e.has_file;
    sized = e.sized;
  }

  same-Entry :
      (id : Str) (r : Reader) (now : ℕ) (s : Store) (f v : Str)
      → IsFragmentId id
      → id ≡ f
      → lookup f (stored json id r now s).index ≡ some v
      → Entry (stored json id r now s) f v
  same-Entry id r now s f v is_id same present =
      let v0 = json.marshal (meta_of id r now) in
      let at_id =
        subst (λ (x : Str). lookup x (insert id v0 s.index) ≡ some v) (sym same) present in
      let is_v : v0 ≡ v = cc (lookup-insert_self id v0 s.index, at_id) in
      subst₂ (λ (x y : Str). Entry (stored json id r now s) x y) same is_v
        (stored-Entry id r now s is_id)

  -- A `Put` that nothing disturbs, of an ID that the metadata service makes, keeps the store
  -- consistent.
  pub put-IsConsistent :
      (id : Str) (r : Reader) (now : ℕ) (s : Store)
      → r.fault ≡ none
      → IsFragmentId id
      → IsConsistent s
      → IsConsistent (put json healthy id r now s).0
  put-IsConsistent id r now s sound is_id c =
      rw (put-healthy json id r now s sound (named_id id is_id)) (record {
        entry = λ f v present. elim (Bool-cases (str_eq id f)) [
          | inl same ↦ same-Entry id r now s f v is_id ((str_eq_iff id f).0 same) present
          | inr other ↦
              let different : id ≢ f = λ e. cc (other, (str_eq_iff id f).1 e) in
              let old = c.entry f v (sym (lookup-insert_ne id f _ s.index different) ∙ present) in
              carry-Entry s _ f v
                (lookup-insert_ne _ _ r.unread s.files
                  (paths_apart s.chunks_dir id f is_id old.is_id different))
                old
        ];
      })

  -- A `Delete` that nothing disturbs, of an ID that the metadata service makes, keeps the store
  -- consistent.
  pub delete-IsConsistent :
      (id : Str) (s : Store)
      → IsFragmentId id
      → IsConsistent s
      → IsConsistent (delete json healthy id s).0
  delete-IsConsistent id s is_id c = rw (delete-healthy json id s) (record {
    entry = λ f v present.
        let different : id ≢ f = λ e.
          cc (present, lookup-erase_self id s.index, ap (λ x. lookup x (erase id s.index)) e) in
        let old = c.entry f v (sym (lookup-erase_ne id f s.index different) ∙ present) in
        carry-Entry s _ f v
          (lookup-erase_ne _ _ s.files (paths_apart s.chunks_dir id f is_id old.is_id different))
          old;
  })

  -- In a consistent store `Get` returns a content for every ID of the index, of the size that its
  -- metadata states.
  pub get-IsConsistent :
      (s : Store) (f v : Str)
      → IsConsistent s
      → lookup f s.index ≡ some v
      → (m : FragmentMeta) × (content : Str) × (meta json healthy f s ≡ ok m)
        × (get json healthy f s ≡ ok content)
        × (m.size ≡ pos (length content))
  unfolding meta get
  get-IsConsistent s f v c present =
      let e = c.entry f v present in
      (e.meta, e.content, ground (arith, e.decoded), ground (arith, e.decoded, e.has_file), e.sized)
