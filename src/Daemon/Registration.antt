-- ===== src/Daemon/Registration.antt =====
-- registerNode of cmd/storaged/main.go against handleNodes of internal/metadata/server.go.
use frag_kv.Base.{
  ℕ, zero, suc, ◌+◌, ◌≤◌, ◌≡◌, refl, sym, ap, ◌∙◌, subst, Option, some, true, false, arith,
  Bool-cases, inl, inr, Str,
}
use frag_kv.Base.Codec.{Codec}
use frag_kv.Base.GoMap.{RangeOrder}
use frag_kv.Placement.{Placer}
use frag_kv.Placement.Outside.{Floats}
use frag_kv.Metadata.Setup
use frag_kv.Metadata.Types.{Catalog, Command}
use frag_kv.Metadata.Fsm.{get_node}
use frag_kv.Metadata.Store.Updates.{completed}
use frag_kv.Metadata.Server
use frag_kv.Metadata.Server.{Bodies}
use frag_kv.Daemon
use frag_kv.Daemon.{Config, Announcement, announcement, Wire, accepted}
use frag_kv.Daemon.Deliveries.{
  announced, node_from, announces_up, Delivery, deliver, posted, nodes_created, leading_created,
  delivered_accepted, IsServed,
}

module _ (fl : Floats) (json : Codec Command) (order : RangeOrder) (place : Placer fl)
    (cfg : Setup.Config) (bodies : Bodies) where
  module _ (deliveries : ℕ → Delivery) (wire : Wire) (process : Config)
      (reads : (a : Announcement) → bodies.node_info (wire.announce a) ≡ some (node_from a)) where
    reads_process :
        bodies.node_info (wire.announce (announcement process)) ≡ some (announced process)
    reads_process = reads (announcement process) ∙ ap some (announces_up process)

    abbrev body : Str
    body = wire.announce (announcement process)

    abbrev post_at : ℕ → Catalog → Catalog × Option ℕ
    post_at i = (deliver fl json order place cfg bodies deliveries).nodes i body

    abbrev posted_at : ℕ → Catalog → Catalog × Server.Response
    posted_at i =
        let d = deliveries i in
        posted fl json order place cfg bodies d.raft d.now d.rafts d.replicate body

    served_accepted :
        (i : ℕ) (s : Catalog) → IsServed (deliveries i) → accepted (post_at i s).1 ≡ true
    served_accepted i s served =
        let d = deliveries i in
        let created : (posted_at i (d.meanwhile s)).1.status ≡ 201 =
          subst
            (λ raft.
              (posted fl json order place cfg bodies raft d.now d.rafts d.replicate body
                (d.meanwhile s)).1.status
              ≡ 201)
            (sym served.leads)
            (leading_created fl json order place cfg bodies d.now d.rafts d.replicate body
              (announced process) (d.meanwhile s) reads_process) in
        rw (served.arrives, served.answers) (rw created refl)

    accepted_registers :
        (i : ℕ) (s : Catalog)
        → accepted (post_at i s).1 ≡ true
        → get_node process.node_id (post_at i s).0
          ≡ some (completed (deliveries i).now (announced process))
    accepted_registers i s taken =
        let d = deliveries i in
        let (same, created) =
          delivered_accepted fl json order place cfg bodies d (posted_at i) s taken in
        ap (get_node process.node_id) same
        ∙ nodes_created fl json order place cfg bodies d.raft d.now d.rafts d.replicate body
            (announced process) (d.meanwhile s) reads_process created

    abbrev registering : ℕ → ℕ → Catalog → Catalog × Option ℕ
    registering =
        Daemon.register_node (deliver fl json order place cfg bodies deliveries) wire process

    registering_taken :
        (k i : ℕ) (s : Catalog)
        → accepted (post_at i s).1 ≡ true
        → registering (suc k) i s ≡ ((post_at i s).0, some i)
    unfolding Daemon.register_node
    registering_taken k i s taken = rw (Daemon.register_node, taken) refl

    registering_refused :
        (k i : ℕ) (s : Catalog)
        → accepted (post_at i s).1 ≡ false
        → registering (suc k) i s ≡ registering k (suc i) (post_at i s).0
    unfolding Daemon.register_node
    registering_refused k i s refused = rw (Daemon.register_node, refused) refl

    -- The process returned at attempt `j`, by `last` at the latest, and its node is in the catalog.
    abbrev pub ReturnsBy : ℕ → Catalog × Option ℕ → Type 0
    ReturnsBy last p =
        (j : ℕ) × (j ≤ last)
        × (p.1 ≡ some j)
        × (get_node process.node_id p.0 ≡ some (completed (deliveries j).now (announced process)))

    taken_returns :
        (k i last : ℕ) (s : Catalog)
        → i ≤ last
        → accepted (post_at i s).1 ≡ true
        → ReturnsBy last (registering (suc k) i s)
    taken_returns k i last s h taken =
        subst (ReturnsBy last) (sym (registering_taken k i s taken))
          (i, h, refl, accepted_registers i s taken)

    registers_by :
        (k i : ℕ) (s : Catalog)
        → IsServed (deliveries (i + k))
        → ReturnsBy (i + k) (registering (suc k) i s)
    registers_by zero i s served = taken_returns zero i (i + zero) s (omega arith) (
        served_accepted i s
          (subst (λ n. IsServed (deliveries n)) {x = i + zero} (omega arith) served))
    registers_by (suc k) i s served = elim (Bool-cases (accepted (post_at i s).1)) [
      | inl taken ↦ taken_returns (suc k) i (i + suc k) s (omega arith) taken
      | inr refused ↦
          let sum : i + suc k ≡ suc i + k = omega arith in
          subst (ReturnsBy (i + suc k)) (sym (registering_refused (suc k) i s refused)) (
            subst (λ n. ReturnsBy n (registering (suc k) (suc i) (post_at i s).0)) (sym sum)
              (registers_by k (suc i) (post_at i s).0
                (subst (λ n. IsServed (deliveries n)) sum served)))
    ]

    -- A storage node that starts comes into the cluster. Let some attempt of registerNode come to a leader
    -- that decodes announcements to the nodes that they describe and whose command Raft applies, and let its answer arrive. Then
    -- registerNode returns at that attempt or before, whatever became of the earlier ones (lost requests
    -- or answers, followers, faults of Raft, any change of the catalog between them), and with it metad
    -- has the node under its ID: up, with its public address and its size, last seen at the time of the
    -- attempt that was accepted; the rebalance that this started runs to its end before the answer.
    pub register_node_joins :
        (attempt : ℕ) (s : Catalog)
        → IsServed (deliveries attempt)
        → ReturnsBy attempt (registering (suc attempt) 0 s)
    register_node_joins attempt s served =
        let start : 0 + attempt ≡ attempt = omega arith in
        subst (λ n. ReturnsBy n (registering (suc attempt) 0 s)) start
          (registers_by attempt 0 s (subst (λ n. IsServed (deliveries n)) (sym start) served))
