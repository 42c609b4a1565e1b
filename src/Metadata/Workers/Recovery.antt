-- ===== src/Metadata/Workers/Recovery.antt =====
-- What recovery of internal/metadata/workers.go does to one fragment.
use mathlib.Core.Option.{some-injective}
use frag_kv.Base.{
  subst, Str, ℕ, zero, suc, ◌-◌, ◌≤◌, ◌<◌, ◌≡◌, refl, sym, ap, ◌∙◌, List, [], ◌∷◌, ◌++◌, some, Bool,
  true, false, arith, All, length, length-append, take, append_assoc, append-nil, leb, Bool-cases,
  Option-cases, inl, inr,
}
use frag_kv.Base.GoMap.{GoMap, RangeOrder, lookup}
use frag_kv.Fragment.{Info}
use frag_kv.Metadata.Types.{NodeInfo, is_up}
use frag_kv.Metadata.Workers.{
  live_map, is_some, contains, filter_live, add_replicas, recover_with, recover_fragment,
}
use frag_kv.Metadata.Workers.Live.{IsLive, live_map-IsLive, IsCandidate, candidates-IsCandidate}

module _ (replicate : Str → Str → Str → Bool) (live : GoMap NodeInfo) (fragment_id source : Str)
    (replicas : List Str) where
  -- A node that recovery adds: it held no live replica, it is up, and it has made its copy.
  pub record IsCopy (a : Str) : Type 0 where
    pub target : NodeInfo
    pub fresh : contains replicas a ≡ false
    pub registered : lookup a live ≡ some target
    pub is_live : is_up target.status ≡ true
    pub copied : replicate target.addr fragment_id source ≡ true

  -- The nodes that are added, beside those that were there.
  pub record Added (needed : ℕ) (had now : List Str) : Type 0 where
    pub added : List Str
    pub appended : now ≡ had ++ added
    pub within : length added ≤ needed
    pub copies : All IsCopy added

  add_none : (needed : ℕ) (had : List Str) → Added needed had had
  add_none needed had = record {
    added = [];
    appended = sym (append-nil had);
    within = omega arith;
    copies = tt;
  }

  add_one :
      (needed : ℕ) (c : Str) (had now : List Str)
      → IsCopy c
      → Added needed (had ++ c ∷ []) now
      → Added (suc needed) had now
  add_one needed c had now copy rest = record {
    added = c ∷ rest.added;
    appended = rest.appended ∙ append_assoc had (c ∷ []) rest.added;
    within = omega (arith, rest.within);
    copies = (copy, rest.copies);
  }

  add_skip : (needed : ℕ) (had now : List Str) → Added needed had now → Added (suc needed) had now
  add_skip needed had now rest = record {
    added = rest.added;
    appended = rest.appended;
    within = omega (arith, rest.within);
    copies = rest.copies;
  }

  add_replicas-Added :
      (needed : ℕ) (candidates had : List Str)
      → IsLive live
      → All (IsCandidate replicas live) candidates
      → Added needed had (add_replicas replicate live fragment_id source needed candidates had)
  unfolding add_replicas
  add_replicas-Added zero candidates had l h = add_none zero had
  add_replicas-Added (suc needed) [] had l h = add_none (suc needed) had
  add_replicas-Added (suc needed) (c ∷ cs) had l ((fresh, known), later) =
      elim (Option-cases (lookup c live)) [
        | inl missing ↦ cc (known, ap is_some missing)
        | inr (target, registered) ↦ elim (Bool-cases (replicate target.addr fragment_id source)) [
          | inl copied ↦
              let copy : IsCopy c = record {
                target = target;
                fresh = fresh;
                registered = registered;
                is_live = (l.at c target registered).1;
                copied = copied;
              } in
              rw (registered, copied, (l.at c target registered).0)
                (add_one needed c had _ copy (add_replicas-Added needed cs (had ++ c ∷ []) l later))
          | inr failed ↦
              rw (registered, failed)
                (add_skip needed had _ (add_replicas-Added needed cs had l later))
        ]
      ]

  -- Where every copy works, the first candidates are added, as many as are needed.
  pub add_replicas_all :
      (needed : ℕ) (candidates had : List Str)
      → IsLive live
      → ((target : Str) → replicate target fragment_id source ≡ true)
      → All (IsCandidate replicas live) candidates
      → add_replicas replicate live fragment_id source needed candidates had
        ≡ had ++ take needed candidates
  unfolding add_replicas
  add_replicas_all zero candidates had l works h = sym (append-nil had)
  add_replicas_all (suc needed) [] had l works h = sym (append-nil had)
  add_replicas_all (suc needed) (c ∷ cs) had l works ((fresh, known), later) =
      elim (Option-cases (lookup c live)) [
        | inl missing ↦ absurd (cc (known, ap is_some missing))
        | inr (target, registered) ↦
            rw (registered, works target.addr, (l.at c target registered).0)
              (add_replicas_all needed cs (had ++ c ∷ []) l works later
                ∙ append_assoc had (c ∷ []) (take needed cs))
      ]

abbrev pub live_of : List NodeInfo → Info → List Str
live_of nodes frag = filter_live (live_map nodes) frag.node_ids

module _ (order : RangeOrder) (replicate : Str → Str → Str → Bool) (factor : ℕ)
    (nodes : List NodeInfo) (frag : Info) where
  -- What recovery makes of a fragment with these live replicas: there is one, and there are fewer
  -- than the factor; the new list is the live replicas followed by nodes that each made a copy from
  -- one source, the address of the first live replica, and has at most as many nodes as the factor.
  pub record IsRecovered (replicas ids : List Str) : Type 0 where
    pub first : Str
    pub others : List Str
    pub source : NodeInfo
    pub had_live : replicas ≡ first ∷ others
    pub had_few : length replicas < factor
    pub from_first : lookup first (live_map nodes) ≡ some source
    pub grown :
        Added replicate
          (live_map nodes)
          frag.id
          source.addr
          replicas
          (factor - length replicas)
          replicas
          ids
    pub bounded : length ids ≤ factor

  add_replicas-IsRecovered :
      (r : Str) (rs candidates : List Str) (source : NodeInfo)
      → length (r ∷ rs) < factor
      → All (IsCandidate (r ∷ rs) (live_map nodes)) candidates
      → lookup r (live_map nodes) ≡ some source
      → IsRecovered (r ∷ rs) (
          add_replicas replicate
            (live_map nodes)
            frag.id
            source.addr
            (factor - length (r ∷ rs))
            candidates
            (r ∷ rs))
  add_replicas-IsRecovered r rs candidates source few c known =
      let grown =
        add_replicas-Added replicate (live_map nodes) frag.id source.addr (r ∷ rs)
          (factor - length (r ∷ rs)) candidates (r ∷ rs) (live_map-IsLive nodes) c in
      record {
        first = r;
        others = rs;
        source = source;
        had_live = refl;
        had_few = few;
        from_first = known;
        grown = grown;
        bounded =
            omega
              (arith, ap length grown.appended, length-append (r ∷ rs) grown.added, grown.within);
      }

  recover_with-IsRecovered :
      (replicas candidates ids : List Str)
      → length replicas < factor
      → All (IsCandidate replicas (live_map nodes)) candidates
      → recover_with replicate factor (live_map nodes) frag.id replicas candidates ≡ some ids
      → IsRecovered replicas ids
  unfolding recover_with
  recover_with-IsRecovered [] candidates ids few c h = absurd cc
  recover_with-IsRecovered (r ∷ rs) [] ids few c h = absurd cc
  recover_with-IsRecovered (r ∷ rs) (x ∷ xs) ids few c h =
      elim (Option-cases (lookup r (live_map nodes))) [
        | inl missing ↦ absurd (cc (rw (recover_with, missing) at h))
        | inr (source, known) ↦
            subst (IsRecovered (r ∷ rs)) (some-injective _ _ (rw (recover_with, known) at h))
              (add_replicas-IsRecovered r rs (x ∷ xs) source few c known)
      ]

  -- Whichever copies fail, and in whatever order the map of live nodes is visited: when recovery
  -- records new nodes for a fragment, it had a live replica and fewer than the replication factor; the
  -- new list is its live replicas followed by nodes that held none, are up, and each answered that they
  -- copied the fragment from its first live replica; and the list is no longer than the factor.
  pub recover_fragment-IsRecovered :
      (ids : List Str)
      → recover_fragment order replicate factor (live_map nodes) frag ≡ some ids
      → IsRecovered (live_of nodes frag) ids
  unfolding recover_fragment
  recover_fragment-IsRecovered ids h =
      elim (Bool-cases (leb factor (length (live_of nodes frag)))) [
        | inl enough ↦ absurd (cc (rw (recover_fragment, enough) at h))
        | inr few ↦
            recover_with-IsRecovered (live_of nodes frag) _ ids (ground arith)
              (candidates-IsCandidate order (live_of nodes frag) (live_map nodes))
              (rw (recover_fragment, few) at h)
      ]
