-- ===== src/Metadata/Fsm/Fragments.antt =====
-- cmdUpdateFragment of internal/metadata/fsm.go: where the fragments of a key are said to be.
use mathlib.Core.Option
use frag_kv.Base.{
  Str, ℕ, zero, suc, ◌≡◌, ◌∙◌, List, [], ◌∷◌, map, some, str_eq, if◌then◌else◌, arith, get_elem?,
  refl, ap, length,
}
use frag_kv.Base.GoMap.{GoMap, keys, map_values}
use frag_kv.Fragment.{Info}
use frag_kv.Metadata.Types.{KeyEntry, Catalog, Command, bare, update_fragment}
use frag_kv.Metadata.Fsm.{apply_command, get_key, move_fragment, move_fragments}
use frag_kv.Metadata.Fsm.Lookups.{apply_pointwise}

get_elem?-map {ℓ κ} :
    {A : Type ℓ} {B : Type κ} (f : A → B) (xs : List A) (i : ℕ)
    → get_elem? (map f xs) i ≡ Option.map f (get_elem? xs i)
get_elem?-map f [] i = ground arith
get_elem?-map f (x ∷ xs) zero = ground arith
get_elem?-map f (x ∷ xs) (suc i) = get_elem?-map f xs i

length-mapped {ℓ κ} :
    {A : Type ℓ} {B : Type κ} (f : A → B) (xs : List A) → length (map f xs) ≡ length xs
length-mapped f [] = refl
length-mapped f (x ∷ xs) = ap suc (length-mapped f xs)

-- The names of the entries.
abbrev pub names_in : Catalog → List Str
names_in s = keys s.keys

keys-map_values : (f : KeyEntry → KeyEntry) (m : GoMap KeyEntry) → keys (map_values f m) ≡ keys m
unfolding keys map_values
keys-map_values f [] = refl
keys-map_values f ((k, e) ∷ m) = ap (◌∷◌ k) (keys-map_values f m)

abbrev pub moving : Str → List Str → Command
moving fragment_id node_ids = record (bare update_fragment) {
  fragment_id = fragment_id;
  node_ids = node_ids;
}

-- The fragment `f'` is `f` but for its nodes, which are the given ones if its ID is the given one.
-- In particular its addresses are those of `f`.
pub record IsMoved (fragment_id : Str) (node_ids : List Str) (f f' : Info) : Type 0 where
  pub same_id : f'.id ≡ f.id
  pub same_key : f'.key ≡ f.key
  pub same_index : f'.index ≡ f.index
  pub same_size : f'.size ≡ f.size
  pub same_addrs : f'.node_addrs ≡ f.node_addrs
  pub new_nodes : f'.node_ids ≡ (if str_eq f.id fragment_id then node_ids else f.node_ids)

move_fragment-IsMoved :
    (fragment_id : Str) (node_ids : List Str) (f : Info)
    → IsMoved fragment_id node_ids f (move_fragment fragment_id node_ids f)
unfolding move_fragment
move_fragment-IsMoved fragment_id node_ids f = ground arith

-- The entry and the fragments of it behind the update.
pub record IsUpdated (fragment_id : Str) (node_ids : List Str) (e e' : KeyEntry) : Type 0 where
  pub same_key : e'.key ≡ e.key
  pub same_total : e'.total_size ≡ e.total_size
  pub same_chunk : e'.chunk_size ≡ e.chunk_size
  pub same_time : e'.created_at ≡ e.created_at
  pub same_mark : e'.committed ≡ e.committed
  pub as_many : length e'.fragments ≡ length e.fragments
  pub moved :
      (i : ℕ) (f : Info)
      → get_elem? e.fragments i ≡ some f
      → (f' : Info) × (get_elem? e'.fragments i ≡ some f') × IsMoved fragment_id node_ids f f'

move_fragments-IsUpdated :
    (fragment_id : Str) (node_ids : List Str) (e : KeyEntry)
    → IsUpdated fragment_id node_ids e (move_fragments fragment_id node_ids e)
unfolding move_fragments
move_fragments-IsUpdated fragment_id node_ids e = record {
  same_key = refl;
  same_total = refl;
  same_chunk = refl;
  same_time = refl;
  same_mark = refl;
  as_many = length-mapped (move_fragment fragment_id node_ids) e.fragments;
  moved = λ i f at_i. (
    move_fragment fragment_id node_ids f,
    get_elem?-map (move_fragment fragment_id node_ids) e.fragments i ∙ rw at_i,
    move_fragment-IsMoved fragment_id node_ids f,
  );
}

-- Updating the nodes of a fragment changes the node list of the fragments with that ID, in the entry
-- of every key, and nothing else: the addresses that clients read stay those of the old nodes, as do
-- the other fields of the fragments and of the entries, keys without an entry, and the nodes.
pub update_fragment_keeps_addrs :
    (fragment_id : Str) (node_ids : List Str) (s : Catalog) (k : Str) (e : KeyEntry)
    → get_key k s ≡ some e
    → ((e' : KeyEntry) × (get_key k (apply_command (moving fragment_id node_ids) s) ≡ some e')
        × IsUpdated fragment_id node_ids e e')
      × (names_in (apply_command (moving fragment_id node_ids) s) ≡ names_in s)
      × ((apply_command (moving fragment_id node_ids) s).nodes ≡ s.nodes)
unfolding move_fragments move_fragment apply_command
update_fragment_keeps_addrs fragment_id node_ids s k e present = (
  (
    move_fragments fragment_id node_ids e,
    (apply_pointwise (moving fragment_id node_ids) s).0 k ∙ rw present refl,
    move_fragments-IsUpdated fragment_id node_ids e,
  ),
  keys-map_values (move_fragments fragment_id node_ids) s.keys,
  refl,
)
