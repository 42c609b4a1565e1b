-- ===== src/Metadata/Rebalance/Bounds.antt =====
-- What `rebalance` of internal/metadata/workers.go makes of the nodes of one fragment.
use frag_kv.Base.{
  Str, ◌≡◌, ◌⊎◌, refl, ◌∙◌, subst, ap, List, [], ◌∷◌, some, Bool, true, false, arith, All,
  if◌then◌else◌, str_eq, str_eq_iff, ◌&&◌, Bool-cases, Option-cases, inl, inr,
}
use frag_kv.Base.GoMap.{GoMap, lookup}
use frag_kv.Fragment.{Info}
use frag_kv.Metadata.Types.{NodeInfo}
use frag_kv.Metadata.Workers.{contains}
use frag_kv.Metadata.Rebalance.{
  first_source, copy_if_missing, copy_missing, keep_contained, rebalance_fragment,
}

module _ (replicate : Str → Str → Str → Bool) (live : GoMap NodeInfo)
    (fragment_id source : Str) where
  -- A live node that has made its copy of the fragment.
  pub record IsCopy (id : Str) : Type 0 where
    pub target : NodeInfo
    pub registered : lookup id live ≡ some target
    pub copied : replicate target.addr fragment_id source ≡ true

  -- A node that had the fragment, or has it now.
  abbrev pub HasFragment : List Str → Str → Type 0
  HasFragment current id = (contains current id ≡ true) ⊎ IsCopy id

  with_copy :
      (current : List Str) (id x : Str)
      → IsCopy id
      → HasFragment (id ∷ current) x
      → HasFragment current x
  unfolding contains
  with_copy current id x copy (inr h) = inr h
  with_copy current id x copy (inl h) = elim (Bool-cases (str_eq id x)) [
    | inl same ↦ inr (subst IsCopy ((str_eq_iff id x).0 same) copy)
    | inr other ↦ inl (rw (contains, other) at h)
  ]

  copy_step :
      (id : Str) (current : List Str)
      → let after = copy_if_missing replicate live fragment_id source id current in
        (after ≡ current) ⊎ ((after ≡ id ∷ current) × IsCopy id)
  unfolding copy_if_missing
  copy_step id current = elim (Option-cases (lookup id live)) [
    | inl gone ↦ inl (rw gone (ground arith))
    | inr (target, registered) ↦ elim (Bool-cases (replicate target.addr fragment_id source)) [
      | inl copied ↦
          rw (registered, copied)
            (step_of (contains current id) (str_eq source []) id current
              (record { target = target; registered = registered; copied = copied }))
      | inr failed ↦ inl (rw (registered, failed) (ground arith))
    ]
  ]
    where
      step_of :
          (old no_source : Bool) (id : Str) (current : List Str)
          → IsCopy id
          → let after = if old then current else if no_source then current else id ∷ current in
            (after ≡ current) ⊎ ((after ≡ id ∷ current) × IsCopy id)
      step_of true no_source id current copy = inl refl
      step_of false true id current copy = inl refl
      step_of false false id current copy = inr (refl, copy)

  copy_missing_has :
      (ids current : List Str) (x : Str)
      → contains (copy_missing replicate live fragment_id source ids current) x ≡ true
      → HasFragment current x
  unfolding copy_missing
  copy_missing_has [] current x h = inl h
  copy_missing_has (id ∷ ids) current x h =
      let later = copy_missing_has ids _ x h in
      elim (copy_step id current) [
        | inl same ↦ subst (λ c. HasFragment c x) same later
        | inr (more, copy) ↦ with_copy current id x copy (subst (λ c. HasFragment c x) more later)
      ]

  copy_missing_nothing :
      (ids current : List Str)
      → ((target : Str) → replicate target fragment_id source ≡ false)
      → copy_missing replicate live fragment_id source ids current ≡ current
  unfolding copy_missing
  copy_missing_nothing [] current fails = refl
  copy_missing_nothing (id ∷ ids) current fails = elim (copy_step id current) [
    | inl same ↦ copy_missing_nothing ids _ fails ∙ same
    | inr (more, copy) ↦ absurd (cc (copy.copied, fails copy.target.addr))
  ]

  copy_missing_keeps :
      (ids current : List Str) (x : Str)
      → contains current x ≡ true
      → contains (copy_missing replicate live fragment_id source ids current) x ≡ true
  unfolding copy_missing
  copy_missing_keeps [] current x h = h
  copy_missing_keeps (id ∷ ids) current x h =
      copy_missing_keeps ids _ x (elim (copy_step id current) [
        | inl same ↦ rw same h
        | inr (more, copy) ↦ rw more (unfold contains in (ground (arith, h)))
      ])

same_contained :
    (current : List Str) (id x : Str)
    → str_eq id x ≡ true
    → contains current id ≡ contains current x
same_contained current id x same = ap (contains current) ((str_eq_iff id x).0 same)

keep_none :
    (current ids : List Str)
    → All (λ x. contains current x ≡ false) ids
    → keep_contained current ids ≡ []
unfolding keep_contained
keep_none current [] h = refl
keep_none current (id ∷ ids) (here, later) = rw here (keep_none current ids later)

-- What is kept of the desired nodes.
contains-keep_contained :
    (current ids : List Str) (x : Str)
    → contains (keep_contained current ids) x ≡ (contains ids x && contains current x)
unfolding keep_contained contains
contains-keep_contained current [] x = refl
contains-keep_contained current (id ∷ ids) x = elim (Bool-cases (contains current id)) [
  | inl old ↦
      rw (old, contains-keep_contained current ids x)
        (ground (arith, same_contained current id x, old))
  | inr new ↦
      rw (new, contains-keep_contained current ids x)
        (ground (arith, same_contained current id x, new))
]

module _ (replicate : Str → Str → Str → Bool) (live : GoMap NodeInfo) (desired : List Str)
    (frag : Info) where
  abbrev rebalanced : List Str
  rebalanced = rebalance_fragment replicate live desired frag

  -- Whichever copies fail: every node of the new list is one that placement wants, and it is listed
  -- already or is live and has made a copy from the first live node of the fragment.
  pub rebalance_fragment_has :
      (x : Str)
      → contains rebalanced x ≡ true
      → (contains desired x ≡ true)
        × HasFragment replicate live frag.id (first_source live frag.node_ids) frag.node_ids x
  unfolding rebalance_fragment
  rebalance_fragment_has x h =
      let source = first_source live frag.node_ids in
      let after = copy_missing replicate live frag.id source desired frag.node_ids in
      let kept = contains-keep_contained after desired x in
      (
        ground (arith, kept),
        copy_missing_has replicate live frag.id source desired frag.node_ids x
            (ground (arith, kept)),
      )

  -- Whichever copies fail: a listed node that placement wants is in the new list.
  pub rebalance_fragment_keeps :
      (x : Str)
      → contains desired x ≡ true
      → contains frag.node_ids x ≡ true
      → contains rebalanced x ≡ true
  unfolding rebalance_fragment
  rebalance_fragment_keeps x wanted listed =
      let source = first_source live frag.node_ids in
      let after = copy_missing replicate live frag.id source desired frag.node_ids in
      let kept = contains-keep_contained after desired x in
      let still = copy_missing_keeps replicate live frag.id source desired frag.node_ids x listed in
      ground (arith, kept)

  -- When every copy of a fragment fails and none of the nodes that placement wants is listed, the
  -- fragment is left with an empty list of nodes.
  pub rebalance_fragment_loses :
      ((target source : Str) → replicate target frag.id source ≡ false)
      → All (λ x. contains frag.node_ids x ≡ false) desired
      → rebalanced ≡ []
  unfolding rebalance_fragment
  rebalance_fragment_loses fails apart =
      let source = first_source live frag.node_ids in
      rw
        (copy_missing_nothing replicate live frag.id source desired frag.node_ids
          (λ target. fails target source))
        (keep_none frag.node_ids desired apart)
