-- ===== src/Metadata/Store/Prepares.antt =====
-- `PrepareKey` of internal/metadata/store.go.
use frag_kv.Base.{
  Str, ℕ, zero, suc, ◌+◌, ◌≤◌, ◌<◌, ◌≡◌, ◌≢◌, refl, sym, ap, ◌∙◌, List, [], ◌∷◌, map, Option, none,
  some, false, arith, length, All, str_eq_refl,
}
use frag_kv.Base.Codec.{Codec}
use frag_kv.Base.GoMap.{RangeOrder}
use frag_kv.Base.Int.{ℤ, pos, negsuc, mod_pos, max_int64}
use native.Mathlib.Nat.{zero-mod}
use mathlib.Core.List.{map-map}
use frag_kv.Fragment
use frag_kv.Fragment.{Fault, Info, Reader, effective_size, bytes_of}
use frag_kv.Fragment.Chunks.{chunks, ceil_div}
use frag_kv.Fragment.Splits.{input_chunks}
use frag_kv.Fragment.Collects.{infos}
use frag_kv.Placement.{Node, Placer}
use frag_kv.Placement.Outside.{Floats}
use frag_kv.Metadata.Setup.{Config, Raft, failed_applied}
use frag_kv.Metadata.Types.{KeyEntry, Catalog, Command, bare, put_key}
use frag_kv.Metadata.Fsm.{apply_command, get_key}
use frag_kv.Metadata.Fsm.Lookups.{apply_pointwise}
use frag_kv.Metadata.Store.{
  Error, ok, err, apply, prepare_key, prepare_fragments, prepare_on, live_nodes, num_fragments,
  plan_from, planned, node_url, after_apply,
}
use frag_kv.Metadata.Store.Sizes.{
  num_fragments-pos, num_fragments-zero, shape, plan_shapes, length-plan_from,
}
use frag_kv.Metadata.Store.Updates.{leading, apply-leading, apply_undone}

module _ (fl : Floats) (json : Codec Command) (order : RangeOrder) (place : Placer fl)
    (cfg : Config) where
  -- Where a planned fragment is to go: to the nodes that the strategy chose for its ID among the live
  -- ones, at the addresses under which these are registered, in the same order.
  pub record IsPlaced (s : Catalog) (f : Info) : Type 0 where
    pub nodes_chosen :
        f.node_ids ≡ map (λ nd. nd.id) (place f.id (live_nodes fl order s) cfg.replication_factor)
    pub addresses_parallel : f.node_addrs ≡ map (node_url s) f.node_ids

  plan-IsPlaced :
      (key : Str) (total : ℤ) (s : Catalog) (num left i : ℕ)
      → All (IsPlaced s) (plan_from fl place cfg key total (live_nodes fl order s) s num left i)
  unfolding plan_from planned
  plan-IsPlaced key total s num zero i = tt
  plan-IsPlaced key total s num (suc left) i = (
    record {
      nodes_chosen = refl;
      addresses_parallel = sym (
          map-map (node_url s) (λ (nd : Node fl). nd.id)
            (place (Fragment.id key i) (live_nodes fl order s) cfg.replication_factor));
    },
    plan-IsPlaced key total s num left (i + 1),
  )

  -- What `PrepareKey` promises of a value with these bytes.
  pub record IsPrepared (key : Str) (now : ℕ) (r : Reader) (s s' : Catalog) (e : KeyEntry)
      : Type 0 where
    pub stored : get_key key s' ≡ some e
    pub pending : e.committed ≡ false
    pub named : e.key ≡ key
    pub totals : e.total_size ≡ pos (length r.unread)
    pub chunk : e.chunk_size ≡ pos cfg.chunk_size
    pub stamped : e.created_at ≡ now
    pub counted : length e.fragments ≡ ceil_div (length r.unread) cfg.chunk_size
    pub cut : map shape e.fragments ≡ map shape (infos key 0 (input_chunks r e.chunk_size))
    pub placed : All (IsPlaced s) e.fragments

  abbrev entry_for : Str → ℕ → ℤ → ℕ → Catalog → KeyEntry
  entry_for key now total num s = record {
    key = key;
    total_size = total;
    chunk_size = pos cfg.chunk_size;
    fragments = plan_from fl place cfg key total (live_nodes fl order s) s num num 0;
    created_at = now;
    committed = false;
  }

  prepare_on_some :
      (key : Str) (now : ℕ) (total : ℤ) (s : Catalog) (nodes : List (Node fl))
      → nodes ≢ []
      → prepare_on fl json place cfg leading now key total nodes s
        ≡ prepare_fragments fl json place cfg leading now key total nodes
            (num_fragments cfg.chunk_size total)
            s
  prepare_on_some key now total s [] h = absurd (h refl)
  prepare_on_some key now total s (nd ∷ nds) h = refl

  prepare_runs :
      (key : Str) (now : ℕ) (total : ℤ) (num : ℕ) (s : Catalog)
      → live_nodes fl order s ≢ []
      → num_fragments cfg.chunk_size total ≡ pos num
      → prepare_key fl json order place cfg leading now key total s ≡ (
        apply_command (record (bare put_key) { entry = some (entry_for key now total num s) }) s,
        ok (entry_for key now total num s),
      )
  unfolding prepare_key
  prepare_runs key now total num s live is_num =
      prepare_on_some key now total s (live_nodes fl order s) live
      ∙ rw is_num (rw (apply-leading json _ s))

  stored_entry :
      (e : KeyEntry) (s : Catalog)
      → get_key e.key (apply_command (record (bare put_key) { entry = some e }) s) ≡ some e
  stored_entry e s =
      (apply_pointwise (record (bare put_key) { entry = some e }) s).0 e.key
      ∙ rw (str_eq_refl e.key)

  chunk_size_used : (c : ℕ) → 0 < c → bytes_of (effective_size (pos c)) ≡ c
  unfolding effective_size
  chunk_size_used zero h = elim h [ ]
  chunk_size_used (suc c) h = refl

  -- On a leader with a live node and a chunk size above zero, `PrepareKey` for a value of at least one
  -- byte, whose size and the chunk size an int64 holds together, succeeds and stores
  -- and returns a pending entry with as many fragments as the chunk size divides the size rounded up.
  -- Their IDs, indices and sizes are those of the chunks that `Split` cuts from the value with the
  -- chunk size of the entry, and each is placed on the nodes that the strategy chose from the live
  -- ones, at their addresses.
  pub prepare_key-IsPrepared :
      (key : Str) (now : ℕ) (r : Reader) (s : Catalog)
      → live_nodes fl order s ≢ []
      → 0 < cfg.chunk_size
      → 0 < length r.unread
      → length r.unread + cfg.chunk_size ≤ max_int64
      → (s' : Catalog) × (e : KeyEntry) × (prepare_key fl json order place cfg leading now key
            (pos (length r.unread))
            s
          ≡ (s', ok e))
        × IsPrepared key now r s s' e
  prepare_key-IsPrepared key now r s live h k fits =
      let t : ℕ = length r.unread in
      let num : ℕ = ceil_div t cfg.chunk_size in
      let e = entry_for key now (pos t) num s in
      let is_num = num_fragments-pos cfg.chunk_size t h k fits in
      (
        apply_command (record (bare put_key) { entry = some e }) s,
        e,
        prepare_runs key now (pos t) num s live is_num,
        record {
          stored = stored_entry e s;
          pending = refl;
          named = refl;
          totals = refl;
          chunk = refl;
          stamped = refl;
          counted = length-plan_from fl place cfg key (live_nodes fl order s) s (pos t) num num 0;
          cut =
              plan_shapes fl place cfg key (live_nodes fl order s) s (t + 1) num 0 t num r.unread h
                (omega arith) refl (λ _. omega arith) (omega arith)
              ∙ ap (λ (c : ℕ). map shape (infos key 0 (chunks (t + 1) c r.unread)))
                  (sym (chunk_size_used cfg.chunk_size h));
          placed = plan-IsPlaced key (pos t) s num num 0;
        },
      )

  -- On a leader with a live node and a chunk size that an int64 holds, `PrepareKey` for an empty value
  -- succeeds with one fragment of the whole chunk size, although `Split` cuts no chunk from an empty
  -- file.
  pub prepare_key_empty :
      (key : Str) (now : ℕ) (r : Reader) (s : Catalog)
      → live_nodes fl order s ≢ []
      → 0 < cfg.chunk_size
      → cfg.chunk_size ≤ max_int64
      → r.unread ≡ []
      → (s' : Catalog) × (e : KeyEntry) × (prepare_key fl json order place cfg leading now key
            (pos (length r.unread))
            s
          ≡ (s', ok e))
        × (length e.fragments ≡ 1)
        × All (λ f. f.size ≡ pos cfg.chunk_size) e.fragments
        × (input_chunks r e.chunk_size ≡ [])
  unfolding plan_from planned chunks mod_pos
  prepare_key_empty key now r s live h fits empty =
      let e = entry_for key now (pos 0) 1 s in
      (
        apply_command (record (bare put_key) { entry = some e }) s,
        e,
        rw empty (prepare_runs key now (pos 0) 1 s live (num_fragments-zero cfg.chunk_size h fits)),
        refl,
        ground (arith, zero-mod cfg.chunk_size),
        rw empty refl,
      )

  after_apply_refused :
      (entry : KeyEntry) (result : Catalog × Option Error) (s : Catalog) (e : Error)
      → ((f : Error) → result.1 ≡ some f → result.0 ≡ s)
      → (after_apply entry result).1 ≡ err e
      → (after_apply entry result).0 ≡ s
  after_apply_refused entry (t, none) s e keeps h = cc
  after_apply_refused entry (t, some f) s e keeps h = keeps f refl

  prepare_fragments_refused :
      (raft : Raft) (key : Str) (now : ℕ) (total z : ℤ) (nodes : List (Node fl)) (s : Catalog)
      (e : Error)
      → ((f : Fault) → raft.outcome ≢ failed_applied f)
      → (prepare_fragments fl json place cfg raft now key total nodes z s).1 ≡ err e
      → (prepare_fragments fl json place cfg raft now key total nodes z s).0 ≡ s
  prepare_fragments_refused raft key now total (negsuc n) nodes s e sure h = refl
  prepare_fragments_refused raft key now total (pos num) nodes s e sure h =
      after_apply_refused _ (apply json raft _ s) s e (λ f. apply_undone json _ s raft f sure) h

  prepare_on_refused :
      (raft : Raft) (key : Str) (now : ℕ) (total : ℤ) (nodes : List (Node fl)) (s : Catalog)
      (e : Error)
      → ((f : Fault) → raft.outcome ≢ failed_applied f)
      → (prepare_on fl json place cfg raft now key total nodes s).1 ≡ err e
      → (prepare_on fl json place cfg raft now key total nodes s).0 ≡ s
  prepare_on_refused raft key now total [] s e sure h = refl
  prepare_on_refused raft key now total (nd ∷ nds) s e sure h =
      prepare_fragments_refused raft key now total _ (nd ∷ nds) s e sure h

  -- A `PrepareKey` that fails, for whatever size and reason, has changed nothing, unless Raft reported
  -- an error for a command that it applied all the same.
  prepare_key_refused :
      (raft : Raft) (key : Str) (now : ℕ) (total : ℤ) (s : Catalog) (e : Error)
      → ((f : Fault) → raft.outcome ≢ failed_applied f)
      → (prepare_key fl json order place cfg raft now key total s).1 ≡ err e
      → (prepare_key fl json order place cfg raft now key total s).0 ≡ s
  unfolding prepare_key
  prepare_key_refused raft key now total s e sure h =
      prepare_on_refused raft key now total (live_nodes fl order s) s e sure h
