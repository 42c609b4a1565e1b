-- ===== src/Metadata/Server/Keys.antt =====
-- The life of a key over HTTP: what `handleKeys` of internal/metadata/server.go answers to a GET of a
-- key after a POST or a DELETE of it.
use mathlib.Core.Option
use frag_kv.Base.{
  Str, ℕ, ◌≡◌, ◌≢◌, refl, ap, sym, ◌∙◌, [], ◌∷◌, ◌++◌, Option, none, some, arith, slash, codes,
  Lacks, str_eq, str_eq_ne, str_eq_refl, split_two,
}
use frag_kv.Base.Codec.{Codec}
use frag_kv.Base.GoMap.{RangeOrder}
use frag_kv.Base.Int.{ℤ}
use frag_kv.Placement.{Placer}
use frag_kv.Placement.Outside.{Floats}
use frag_kv.Transport.{Method, get_method, post_method, delete_method}
use frag_kv.Metadata.Setup.{Config, Raft}
use frag_kv.Metadata.Types.{KeyEntry, Catalog, Command}
use frag_kv.Metadata.Fsm.{get_key, commit_entry}
use frag_kv.Metadata.Store.{
  Error, found, not_leader, panicked, commit_key_op, delete_key_op, prepare_key, get_key_op,
  not_found, err,
}
use frag_kv.Metadata.Store.Updates.{get_key-commit, get_key-delete}
use frag_kv.Metadata.Server.{
  failure, Request, Response, entry, Bodies, handle_keys, parts_of, route_key, status_only,
  json_resp, changed, prepared, read_response,
}

split_two-Lacks : (key : Str) → Lacks slash key → split_two slash key ≡ (key, none)
unfolding split_two
split_two-Lacks [] h = refl
split_two-Lacks (c ∷ key) (here, later) = rw (split_two-Lacks key later) (ground (arith, here))

pub split_two-append :
    (key rest : Str) → Lacks slash key → split_two slash (key ++ slash ∷ rest) ≡ (key, some rest)
unfolding split_two
split_two-append [] rest h = refl
split_two-append (c ∷ key) rest (here, later) =
    rw (split_two-append key rest later) (ground (arith, here))

parts_of-key :
    (key : Str) → Lacks slash key → parts_of (codes "/keys/") (codes "/keys/" ++ key) ≡ (key, [])
unfolding parts_of
parts_of-key key h = rw (split_two-Lacks key h)

pub parts_of-action :
    (key action : Str)
    → Lacks slash key
    → parts_of (codes "/keys/") (codes "/keys/" ++ key ++ slash ∷ action) ≡ (key, action)
unfolding parts_of
parts_of-action key action h = rw (split_two-append key action h)

abbrev pub key_request : Method → Str → Request
key_request method key = record { method = method; path = codes "/keys/" ++ key; body = [] }

abbrev pub action_request : Str → Str → Str → Request
action_request key action body = record {
  method = post_method;
  path = codes "/keys/" ++ key ++ slash ∷ action;
  body = body;
}

-- The answer to a GET of a key with this entry.
abbrev pub answer : Option KeyEntry → Response
answer none = status_only 404
answer (some e) = json_resp (entry e)

pub changed-204 : (p : Catalog × Option Error) → (changed 204 p).1.status ≡ 204 → p.1 ≡ none
changed-204 (s, none) h = refl
changed-204 (s, some e) h = absurd (failure_not_204 e h)
  where
    failure_not_204 : (e : Error) → failure e ≢ 204
    failure_not_204 not_leader p = omega (arith, p)
    failure_not_204 panicked p = omega (arith, p)
    failure_not_204 e p = omega (arith, p)

found-none : (o : Option KeyEntry) → found o ≡ err not_found → o ≡ none
found-none none h = refl
found-none (some e) h = absurd (cc h)

read_answer : (o : Option KeyEntry) → read_response entry (found o) ≡ answer o
read_answer none = refl
read_answer (some e) = refl

pub changed_state : (code : ℕ) (p : Catalog × Option Error) → (changed code p).0 ≡ p.0
changed_state code (s, none) = refl
changed_state code (s, some e) = refl

module _ (fl : Floats) (json : Codec Command) (order : RangeOrder) (place : Placer fl)
    (cfg : Config) (raft : Raft) (now : ℕ) (bodies : Bodies) (key : Str) (s : Catalog) where
  abbrev serve : Request → Catalog → Catalog × Response
  serve = handle_keys fl json order place cfg raft now bodies

  abbrev route : Str → Request → Catalog × Response
  route action r = route_key fl json order place cfg raft now bodies key action r s

  key_runs :
      (method : Method)
      → Lacks slash key
      → serve (key_request method key) s ≡ route [] (key_request method key)
  unfolding handle_keys
  key_runs method h =
      ap (λ p. route_key fl json order place cfg raft now bodies p.0 p.1 (key_request method key) s)
        (parts_of-key key h)

  action_runs :
      (action body : Str)
      → Lacks slash key
      → serve (action_request key action body) s ≡ route action (action_request key action body)
  unfolding handle_keys
  action_runs action body h =
      ap
        (λ p.
          route_key fl json order place cfg raft now bodies p.0 p.1 (action_request key action body)
            s)
        (parts_of-action key action h)

  pub get_answer :
      Lacks slash key
      → key ≢ []
      → serve (key_request get_method key) s ≡ (s, answer (get_key key s))
  unfolding str_eq get_key_op
  get_answer h named =
      key_runs get_method h
      ∙ rw (str_eq_ne key [] named) (ap (λ r. (s, r)) (read_answer (get_key key s)))

  pub delete_runs :
      Lacks slash key
      → key ≢ []
      → serve (key_request delete_method key) s ≡ changed 204 (delete_key_op json raft key s)
  unfolding str_eq
  delete_runs h named = key_runs delete_method h ∙ rw (str_eq_ne key [] named)

  pub commit_runs :
      (body : Str)
      → Lacks slash key
      → key ≢ []
      → serve (action_request key (codes "commit") body) s
        ≡ changed 204 (commit_key_op json raft key s)
  unfolding str_eq
  commit_runs body h named = action_runs (codes "commit") body h ∙ rw (str_eq_ne key [] named)

  pub prepare_runs :
      (body : Str) (total : ℤ)
      → Lacks slash key
      → key ≢ []
      → bodies.total_size body ≡ some total
      → serve (action_request key (codes "prepare") body) s
        ≡ prepared (prepare_key fl json order place cfg raft now key total s)
  unfolding str_eq
  prepare_runs body total h named sized =
      action_runs (codes "prepare") body h ∙ rw (str_eq_ne key [] named, sized)

  -- A deletion that is answered with 204 removes the entry of the key.
  pub deleted_entry :
      Lacks slash key
      → key ≢ []
      → (serve (key_request delete_method key) s).1.status ≡ 204
      → get_key key (serve (key_request delete_method key) s).0 ≡ none
  unfolding get_key_op
  deleted_entry h named done =
      let runs = delete_runs h named in
      let deleted = delete_key_op json raft key s in
      let no_error = changed-204 deleted (sym (ap (λ p. p.1.status) runs) ∙ done) in
      let after = get_key-delete json key s raft key no_error in
      ap (λ p. get_key key p.0) runs
      ∙ ap (get_key key) (changed_state 204 deleted)
      ∙ found-none (get_key key deleted.0) (after ∙ rw (str_eq_refl key) refl)

  -- A commit that is answered with 204 marks the entry of the key.
  pub committed_entry :
      (body : Str)
      → Lacks slash key
      → key ≢ []
      → (serve (action_request key (codes "commit") body) s).1.status ≡ 204
      → get_key key (serve (action_request key (codes "commit") body) s).0
        ≡ Option.map commit_entry (get_key key s)
  committed_entry body h named done =
      let runs = commit_runs body h named in
      let committed = commit_key_op json raft key s in
      let no_error = changed-204 committed (sym (ap (λ p. p.1.status) runs) ∙ done) in
      ap (λ p. get_key key p.0) runs
      ∙ ap (get_key key) (changed_state 204 committed)
      ∙ get_key-commit json key s raft key no_error
      ∙ rw (str_eq_refl key)

module _ (fl : Floats) (json : Codec Command) (order : RangeOrder) (place : Placer fl)
    (cfg : Config) (raft : Raft) (now : ℕ) (bodies : Bodies) (key : Str) (s : Catalog) where
  abbrev handle : Request → Catalog → Catalog × Response
  handle = handle_keys fl json order place cfg raft now bodies

  -- For a key that is not empty and has no slash: after a DELETE that is answered with 204, whatever
  -- became of earlier requests, a GET of the key is answered with 404.
  pub handle_keys-deleted :
      Lacks slash key
      → key ≢ []
      → (handle (key_request delete_method key) s).1.status ≡ 204
      → (handle (key_request get_method key) (handle (key_request delete_method key) s).0).1
        ≡ status_only 404
  handle_keys-deleted h named done =
      ap (λ p. p.1) (get_answer fl json order place cfg raft now bodies key _ h named)
      ∙ ap answer (deleted_entry fl json order place cfg raft now bodies key s h named done)

  -- For such a key: after a POST of its commit that is answered with 204, a GET of the key is answered
  -- with the entry that it had, marked as committed, and with 404 where it had none.
  pub handle_keys-committed :
      (body : Str)
      → Lacks slash key
      → key ≢ []
      → (handle (action_request key (codes "commit") body) s).1.status ≡ 204
      → (handle
          (key_request get_method key)
          (handle (action_request key (codes "commit") body) s).0).1
        ≡ answer (Option.map commit_entry (get_key key s))
  handle_keys-committed body h named done =
      ap (λ p. p.1) (get_answer fl json order place cfg raft now bodies key _ h named)
      ∙ ap answer (committed_entry fl json order place cfg raft now bodies key s body h named done)
