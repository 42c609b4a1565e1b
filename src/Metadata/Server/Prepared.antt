-- ===== src/Metadata/Server/Prepared.antt =====
-- A prepare over HTTP: `handlePrepare` of internal/metadata/server.go over `PrepareKey` of
-- internal/metadata/store.go, whatever Raft does.
use frag_kv.Base.{
  Str, ℕ, ◌+◌, ◌≤◌, ◌<◌, ◌≡◌, ◌≢◌, refl, sym, ap, ◌∙◌, subst, List, [], ◌∷◌, Option, none, some,
  arith, slash, codes, Lacks, length,
}
use frag_kv.Base.Codec.{Codec}
use frag_kv.Base.GoMap.{RangeOrder}
use frag_kv.Base.Int.{ℤ, pos, negsuc, max_int64}
use frag_kv.Fragment.{Reader}
use frag_kv.Placement.{Node, Placer}
use frag_kv.Placement.Outside.{Floats}
use frag_kv.Transport.{get_method}
use frag_kv.Metadata.Setup.{Config, Raft}
use frag_kv.Metadata.Types.{KeyEntry, Catalog, Command}
use frag_kv.Metadata.Store.{
  Error, not_leader, panicked, Result, ok, err, apply, hand_to_raft, after_apply, prepare_key,
  prepare_fragments, prepare_on, live_nodes,
}
use frag_kv.Metadata.Store.Updates.{leading}
use frag_kv.Metadata.Store.Prepares.{IsPrepared, prepare_key-IsPrepared}
use frag_kv.Metadata.Server.{failure, Response, entry, Bodies, handle_keys, prepared, json_resp}
use frag_kv.Metadata.Server.Keys.{key_request, action_request, answer, get_answer, prepare_runs}

-- A command that comes back without an error went the way that it goes on a leader.
apply_as_leading :
    (json : Codec Command) (cmd : Command) (s : Catalog) (raft : Raft)
    → (apply json raft cmd s).1 ≡ none
    → apply json raft cmd s ≡ apply json leading cmd s
unfolding apply hand_to_raft
apply_as_leading json cmd s raft h = ground (arith, h)

after_apply_ok :
    (e' e : KeyEntry) (p : Catalog × Option Error) → (after_apply e' p).1 ≡ ok e → p.1 ≡ none
after_apply_ok e' e (s, none) h = refl
after_apply_ok e' e (s, some x) h = absurd (cc h)

abbrev entry_or : KeyEntry → Result KeyEntry → KeyEntry
entry_or e (ok x) = x
entry_or e (err x) = e

ok-injective : (e : KeyEntry) {a b : KeyEntry} → ok a ≡ ok b → a ≡ b
ok-injective e p = ap (entry_or e) p

module _ (fl : Floats) (json : Codec Command) (order : RangeOrder) (place : Placer fl)
    (cfg : Config) (raft : Raft) (now : ℕ) (key : Str) where
  fragments_as_leading :
      (total num : ℤ) (nodes : List (Node fl)) (s : Catalog) (e : KeyEntry)
      → (prepare_fragments fl json place cfg raft now key total nodes num s).1 ≡ ok e
      → prepare_fragments fl json place cfg raft now key total nodes num s
        ≡ prepare_fragments fl json place cfg leading now key total nodes num s
  fragments_as_leading total (negsuc n) nodes s e h = refl
  fragments_as_leading total (pos num) nodes s e h =
      ap (after_apply _) (apply_as_leading json _ s raft (after_apply_ok _ e _ h))

  prepare_on_as_leading :
      (total : ℤ) (nodes : List (Node fl)) (s : Catalog) (e : KeyEntry)
      → (prepare_on fl json place cfg raft now key total nodes s).1 ≡ ok e
      → (nodes ≢ [])
        × (prepare_on fl json place cfg raft now key total nodes s
            ≡ prepare_on fl json place cfg leading now key total nodes s)
  prepare_on_as_leading total [] s e h = absurd (cc h)
  prepare_on_as_leading total (nd ∷ nds) s e h =
      (λ x. absurd (cc x), fragments_as_leading total _ (nd ∷ nds) s e h)

  -- Whatever Raft does, an entry that `PrepareKey` returns is what it promises.
  pub prepare_key_any-IsPrepared :
      (r : Reader) (s : Catalog) (e : KeyEntry)
      → 0 < cfg.chunk_size
      → 0 < length r.unread
      → length r.unread + cfg.chunk_size ≤ max_int64
      → (prepare_key fl json order place cfg raft now key (pos (length r.unread)) s).1 ≡ ok e
      → IsPrepared fl json order place cfg key now r s
          (prepare_key fl json order place cfg raft now key (pos (length r.unread)) s).0
          e
  unfolding prepare_key
  prepare_key_any-IsPrepared r s e h some_bytes fits done =
      let (live, same) =
        prepare_on_as_leading (pos (length r.unread)) (live_nodes fl order s) s e done in
      let (s', e', runs, promised) =
        prepare_key-IsPrepared fl json order place cfg key now r s live h some_bytes fits in
      let both = same ∙ runs in
      let same_entry : e' ≡ e = ok-injective e (sym (ap (λ p. p.1) both) ∙ done) in
      subst (λ t. IsPrepared fl json order place cfg key now r s t e) (sym (ap (λ p. p.0) both))
        (subst (IsPrepared fl json order place cfg key now r s s') same_entry promised)

prepared-200 :
    (p : Catalog × Result KeyEntry)
    → (prepared p).1.status ≡ 200
    → (e : KeyEntry) × (p.1 ≡ ok e)
      × ((prepared p).1 ≡ json_resp (entry e))
      × ((prepared p).0 ≡ p.0)
prepared-200 (s, ok e) h = (e, refl, refl, refl)
prepared-200 (s, err x) h = absurd (failure_not_200 x h)
  where
    failure_not_200 : (x : Error) → failure x ≢ 200
    failure_not_200 not_leader p = omega (arith, p)
    failure_not_200 panicked p = omega (arith, p)
    failure_not_200 x p = omega (arith, p)

module _ (fl : Floats) (json : Codec Command) (order : RangeOrder) (place : Placer fl)
    (cfg : Config) (bodies : Bodies) (key : Str) (single : Lacks slash key) (named : key ≢ [])
    (raft : Raft) (now : ℕ) (s : Catalog) (r : Reader) (body : Str)
    (sized : bodies.total_size body ≡ some (pos (length r.unread))) where
  abbrev after : Catalog × Response
  after =
      handle_keys fl json order place cfg raft now bodies
        (action_request key (codes "prepare") body) s

  -- For a key that is not empty and has no slash, and a value of at least one byte whose size and the
  -- chunk size, which is not 0, an int64 holds together: where the POST of its prepare is answered with
  -- 200, the body is an entry that is what `PrepareKey` promises of the value, and a GET of the key
  -- behind it is answered with that entry.
  pub handle_keys-IsPrepared :
      0 < cfg.chunk_size
      → 0 < length r.unread
      → length r.unread + cfg.chunk_size ≤ max_int64
      → after.1.status ≡ 200
      → (e : KeyEntry) × (after.1 ≡ json_resp (entry e))
        × IsPrepared fl json order place cfg key now r s after.0 e
        × ((handle_keys fl json order place cfg raft now bodies
              (key_request get_method key)
              after.0).1
            ≡ json_resp (entry e))
  handle_keys-IsPrepared h some_bytes fits done =
      let runs =
        prepare_runs fl json order place cfg raft now bodies key s body (pos (length r.unread))
          single named sized in
      let call = prepare_key fl json order place cfg raft now key (pos (length r.unread)) s in
      let (e, is_ok, responds, state) =
        prepared-200 call (sym (ap (λ p. p.1.status) runs) ∙ done) in
      let moved : after.0 ≡ call.0 = ap (λ p. p.0) runs ∙ state in
      let promised =
        subst (λ t. IsPrepared fl json order place cfg key now r s t e) (sym moved)
          (prepare_key_any-IsPrepared fl json order place cfg raft now key r s e h some_bytes fits
            is_ok) in
      (
        e,
        ap (λ p. p.1) runs ∙ responds,
        promised,
        ap (λ p. p.1) (get_answer fl json order place cfg raft now bodies key after.0 single named)
            ∙ ap answer promised.stored,
      )
