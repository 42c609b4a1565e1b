-- ===== src/Storage/Refinement.antt =====
-- What a node's store of internal/storage/storage.go is for its callers: a map from fragment IDs to
-- contents and metadata. The specification is that map, with the escaping of paths, the files and the
-- index forgotten.
use frag_kv.Base.{
  Str, ℕ, ◌≡◌, ◌≢◌, sym, ap, ap₂, ◌∙◌, List, [], ◌∷◌, Option, none, some, arith, All, str_eq,
  str_eq_iff, Bool-cases, Option-cases, inl, inr, if◌then◌else◌,
}
use frag_kv.Base.Codec.{Codec}
use frag_kv.Base.GoMap.{lookup}
use frag_kv.Fragment.{Reader}
use frag_kv.Storage.{
  FragmentMeta, Store, Result, not_found, ok, err, healthy, put, meta, get, delete,
}
use frag_kv.Storage.Writes.{meta_of}
use frag_kv.Storage.Reads.{get-put, get-put_ne, get-delete, get-delete_ne, meta-delete_ne}
use frag_kv.Storage.Invariant.{
  IsFragmentId, IsConsistent, paths_apart, named_id, put-IsConsistent, delete-IsConsistent,
  get-IsConsistent,
}

pub record Object : Type 0 where
  pub content : Str
  pub meta : FragmentMeta

-- The specification's state: what is stored under each ID.
abbrev pub Objects : Type 0
Objects = Str → Option Object

-- The writes of a caller.
pub data Write : Type 0 where
  put_of : Str → Reader → ℕ → Write
  delete_of : Str → Write

-- A write of an ID that the metadata service makes, whose reader does not fail.
abbrev pub IsSound : Write → Type 0
IsSound (put_of id r now) = IsFragmentId id × (r.fault ≡ none)
IsSound (delete_of id) = IsFragmentId id

abbrev pub spec_write : Write → Objects → Objects
spec_write (put_of id r now) o f =
    if str_eq id f then some (record { content = r.unread; meta = meta_of id r now }) else o f
spec_write (delete_of id) o f = if str_eq id f then none else o f

abbrev pub spec_writes : List Write → Objects → Objects
spec_writes [] o = o
spec_writes (w ∷ ws) o = spec_writes ws (spec_write w o)

abbrev pub content_answer : Option Object → Result Str
content_answer none = err not_found
content_answer (some o) = ok o.content

abbrev pub meta_answer : Option Object → Result FragmentMeta
meta_answer none = err not_found
meta_answer (some o) = ok o.meta

abbrev pub object_of : Result FragmentMeta → Result Str → Option Object
object_of (ok m) (ok content) = some (record { content = content; meta = m })
object_of m content = none

module _ (json : Codec FragmentMeta) where
  abbrev pub run_write : Write → Store → Store
  run_write (put_of id r now) s = (put json healthy id r now s).0
  run_write (delete_of id) s = (delete json healthy id s).0

  abbrev pub run_writes : List Write → Store → Store
  run_writes [] s = s
  run_writes (w ∷ ws) s = run_writes ws (run_write w s)

  -- The store answers as the specification does, for every ID that the metadata service makes.
  pub record Implements (s : Store) (o : Objects) : Type 0 where
    pub consistent : IsConsistent json s
    pub get_answers : (f : Str) → IsFragmentId f → get json healthy f s ≡ content_answer (o f)
    pub meta_answers : (f : Str) → IsFragmentId f → meta json healthy f s ≡ meta_answer (o f)

  put-Implements :
      (s : Store) (o : Objects) (id : Str) (r : Reader) (now : ℕ)
      → IsFragmentId id
      → r.fault ≡ none
      → Implements s o
      → Implements (put json healthy id r now s).0 (spec_write (put_of id r now) o)
  put-Implements s o id r now is_id sound i =
      let answers : (f : Str)
          → IsFragmentId f
          → (get json healthy f (put json healthy id r now s).0
              ≡ content_answer (spec_write (put_of id r now) o f))
            × (meta json healthy f (put json healthy id r now s).0
                ≡ meta_answer (spec_write (put_of id r now) o f)) =
        λ f is_f. elim (Bool-cases (str_eq id f)) [
          | inl same ↦
              let here = get-put json id r now s sound (named_id id is_id) in
              let is_same : id ≡ f = (str_eq_iff id f).0 same in
              rw same (
                ap (λ g. get json healthy g (put json healthy id r now s).0) (sym is_same) ∙ here.0,
                ap (λ g. meta json healthy g (put json healthy id r now s).0) (sym is_same)
                    ∙ here.1,
              )
          | inr other ↦
              let different : id ≢ f = λ e. absurd (cc (other, (str_eq_iff id f).1 e)) in
              let kept =
                get-put_ne json id r now s f sound (named_id id is_id)
                  (paths_apart json s.chunks_dir id f is_id is_f different) in
              rw other (kept.0 ∙ i.get_answers f is_f, kept.1 ∙ i.meta_answers f is_f)
        ] in
      record {
        consistent = put-IsConsistent json id r now s sound is_id i.consistent;
        get_answers = λ f is_f. (answers f is_f).0;
        meta_answers = λ f is_f. (answers f is_f).1;
      }

  delete-Implements :
      (s : Store) (o : Objects) (id : Str)
      → IsFragmentId id
      → Implements s o
      → Implements (delete json healthy id s).0 (spec_write (delete_of id) o)
  delete-Implements s o id is_id i =
      let answers : (f : Str)
          → IsFragmentId f
          → (get json healthy f (delete json healthy id s).0
              ≡ content_answer (spec_write (delete_of id) o f))
            × (meta json healthy f (delete json healthy id s).0
                ≡ meta_answer (spec_write (delete_of id) o f)) =
        λ f is_f. elim (Bool-cases (str_eq id f)) [
          | inl same ↦
              let gone = get-delete json id s in
              let is_same : id ≡ f = (str_eq_iff id f).0 same in
              rw same (
                ap (λ g. get json healthy g (delete json healthy id s).0) (sym is_same) ∙ gone.0,
                ap (λ g. meta json healthy g (delete json healthy id s).0) (sym is_same) ∙ gone.1,
              )
          | inr other ↦
              let different : id ≢ f = λ e. absurd (cc (other, (str_eq_iff id f).1 e)) in
              rw other (
                get-delete_ne json id s f (paths_apart json s.chunks_dir id f is_id is_f different)
                    ∙ i.get_answers f is_f,
                meta-delete_ne json id s f different ∙ i.meta_answers f is_f,
              )
        ] in
      record {
        consistent = delete-IsConsistent json id s is_id i.consistent;
        get_answers = λ f is_f. (answers f is_f).0;
        meta_answers = λ f is_f. (answers f is_f).1;
      }

  run_writes-Implements :
      (ws : List Write) (s : Store) (o : Objects)
      → All IsSound ws
      → Implements s o
      → Implements (run_writes ws s) (spec_writes ws o)
  run_writes-Implements [] s o sound i = i
  run_writes-Implements (put_of id r now ∷ ws) s o ((is_id, sound), later) i =
      run_writes-Implements ws _ _ later (put-Implements s o id r now is_id sound i)
  run_writes-Implements (delete_of id ∷ ws) s o (is_id, later) i =
      run_writes-Implements ws _ _ later (delete-Implements s o id is_id i)

  -- The map that a store stands for.
  abbrev pub objects : Store → Objects
  objects s f = object_of (meta json healthy f s) (get json healthy f s)

  missing_answers :
      (s : Store) (f : Str)
      → lookup f s.index ≡ none
      → (meta json healthy f s ≡ err not_found) × (get json healthy f s ≡ err not_found)
  unfolding meta get
  missing_answers s f missing = (ground (arith, missing), ground (arith, missing))

  consistent_answers :
      (s : Store) (f : Str)
      → IsConsistent json s
      → (get json healthy f s ≡ content_answer (objects s f))
        × (meta json healthy f s ≡ meta_answer (objects s f))
  consistent_answers s f c = elim (Option-cases (lookup f s.index)) [
    | inl missing ↦
        let (no_meta, no_content) = missing_answers s f missing in
        let view = ap₂ object_of no_meta no_content in
        (no_content ∙ ap content_answer (sym view), no_meta ∙ ap meta_answer (sym view))
    | inr (v, present) ↦
        let (m, content, is_meta, is_content, _) = get-IsConsistent json s f v c present in
        let view = ap₂ object_of is_meta is_content in
        (is_content ∙ ap content_answer (sym view), is_meta ∙ ap meta_answer (sym view))
  ]

  -- A consistent store implements the map from fragment IDs to contents and metadata that it holds, and
  -- goes on to implement it through any sequence of puts and deletes that nothing disturbs, of IDs that
  -- the metadata service makes: `Get` and `Meta` return what the map, changed by the same sequence, has
  -- for an ID, and report an ID without an object as not found.
  pub store-Implements :
      (ws : List Write) (s : Store)
      → All IsSound ws
      → IsConsistent json s
      → Implements (run_writes ws s) (spec_writes ws (objects s))
  store-Implements ws s sound c = run_writes-Implements ws s (objects s) sound (record {
    consistent = c;
    get_answers = λ f is_f. (consistent_answers s f c).0;
    meta_answers = λ f is_f. (consistent_answers s f c).1;
  })
