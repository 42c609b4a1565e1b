-- ===== src/Experiments/Chaos/Guarded.antt =====
-- nodeStatus of runChaos of experiments/harness/main/chaos.go: which containers it has as down while the
-- goroutines run. It follows the docker commands that succeed.
use mathlib.Core.Bool.{Bool-set}
use mathlib.Core.List.{Mem, mem-cons, mem-cons_self, mem-cons_of_mem, not-mem-nil}
use mathlib.Core.List.Perm
use mathlib.Core.Logic.Or
use frag_kv.Base.{
  Str, ℕ, ◌≡◌, refl, sym, ap, ◌∙◌, subst, List, [], ◌∷◌, Option, none, some, Bool, true, false,
  str_eq, str_eq_iff, Bool-cases, Option-cases, inl, inr,
}
use frag_kv.Base.GoMap.{GoMap, RangeOrder, lookup, insert}
use frag_kv.Base.GoMap.Laws.{lookup-insert, lookup-nil}
use frag_kv.Base.GoMap.Unique.{NoRepeats, insert-NoRepeats, is_false, entry_found, found_entry}
use frag_kv.Base.Int.{ℤ}
use frag_kv.Kvctl.{Services, Json, Failure}
use frag_kv.Experiments.Chaos.{
  Action, kill, restore, State, Docker, Turn, chaos_turn, writer_turn, measure_turn, down_nodes,
  all_up, chosen, noted, strike, chaos, write_one, wrote, measure_interval, take_turn,
}

-- The first node that is listed as down is an entry that is false.
down_member : (m : GoMap Bool) (d : Str) (ds : List Str) → down_nodes m ≡ d ∷ ds → Mem (d, false) m
unfolding down_nodes
down_member [] d ds h = absurd (cc h)
down_member ((k, true) ∷ m) d ds h = mem-cons_of_mem (k, true) (down_member m d ds h)
down_member ((k, false) ∷ m) d ds h =
    subst (λ (i : Str). Mem (i, false) ((k, false) ∷ m)) (cc h) mem-cons_self

-- Where none is listed as down, no entry is false.
none_down : (m : GoMap Bool) (d : Str) → down_nodes m ≡ [] → Mem (d, false) m → true ≡ false
unfolding down_nodes
none_down [] d h member = absurd (not-mem-nil member)
none_down ((k, true) ∷ m) d h member =
    Or.elim (Bool-set _ _) (mem-cons.0 member) (λ e. absurd (cc (ap (λ p. p.1) e)))
      (λ later. none_down m d h later)
none_down ((k, false) ∷ m) d h member = absurd (cc h)

-- A node that nodeStatus has as down: a `docker stop` of it succeeded, and no `docker start` behind it.
abbrev pub IsDown : GoMap Bool → Str → Type 0
IsDown status node = is_false (lookup node status) ≡ true

module _ (order : RangeOrder) (status : GoMap Bool) (unique : NoRepeats status) where
  listed-IsDown :
      (d : Str) (ds : List Str) → down_nodes (order.range Bool status) ≡ d ∷ ds → IsDown status d
  listed-IsDown d ds h =
      entry_found d status unique
        ((Perm.mem_iff (order.range_perm Bool status)).0 (down_member _ d ds h))

  all_listed_up :
      (d : Str) → down_nodes (order.range Bool status) ≡ [] → IsDown status d → true ≡ false
  all_listed_up d h down =
      none_down _ d h ((Perm.mem_iff (order.range_perm Bool status)).1 (found_entry d status down))

-- The containers: each has one entry, and no two of them are down.
pub record IsGuarded (status : GoMap Bool) : Type 0 where
  pub unique : NoRepeats status
  pub one_down : (a b : Str) → IsDown status a → IsDown status b → a ≡ b

IsDown-after :
    (node : Str) (up : Bool) (status : GoMap Bool) (a : Str)
    → IsDown (insert node up status) a
    → str_eq node a ≡ false
    → IsDown status a
IsDown-after node up status a down other =
    sym (ap is_false (lookup-insert node a up status ∙ rw other refl)) ∙ down

killed-IsGuarded :
    (node : Str) (status : GoMap Bool)
    → NoRepeats status
    → ((d : Str) → IsDown status d → true ≡ false)
    → IsGuarded (insert node false status)
killed-IsGuarded node status unique none_is_down = record {
  unique = insert-NoRepeats node false status unique;
  one_down = λ a b down_a down_b. sym (is_node a down_a) ∙ is_node b down_b;
}
  where
    is_node : (a : Str) → IsDown (insert node false status) a → node ≡ a
    is_node a down = elim (Bool-cases (str_eq node a)) [
      | inl same ↦ (str_eq_iff node a).0 same
      | inr other ↦ absurd (cc (none_is_down a (IsDown-after node false status a down other)))
    ]

restored-IsGuarded :
    (node : Str) (status : GoMap Bool)
    → IsGuarded status
    → IsDown status node
    → IsGuarded (insert node true status)
restored-IsGuarded node status guarded node_down = record {
  unique = insert-NoRepeats node true status guarded.unique;
  one_down = λ a b down_a down_b. absurd (none_left a down_a);
}
  where
    none_left : (a : Str) → IsDown (insert node true status) a → ⊥
    none_left a down = elim (Bool-cases (str_eq node a)) [
      | inl same ↦
          let started : lookup a (insert node true status) ≡ some true =
            lookup-insert node a true status ∙ rw same refl in
          absurd (cc (sym down ∙ ap is_false started))
      | inr other ↦
          let e = guarded.one_down a node (IsDown-after node true status a down other) node_down in
          absurd (cc (other, (str_eq_iff node a).1 (sym e)))
    ]

module _ {W : Type 0} where
  module _ (services : Services W) (json : Json) (quorum : ℤ) (docker : Docker W)
      (order : RangeOrder) (containers : List Str) (seed : ℤ) (content : Str) where
    abbrev pub turn_on : Turn → State W → State W
    turn_on = take_turn services json quorum docker order containers seed content

    abbrev noted_by : Action → Str → ℕ → Bool → W × Bool → State W → State W
    noted_by = noted services json quorum docker order containers seed content

    noted_keeps :
        (action : Action) (node : Str) (t : ℕ) (up : Bool) (p : W × Bool) (s : State W)
        → IsGuarded s.node_status
        → IsGuarded (insert node up s.node_status)
        → IsGuarded (noted_by action node t up p s).node_status
    noted_keeps action node t up (w, false) s before after = before
    noted_keeps action node t up (w, true) s before after = after

    strike-IsGuarded :
        (pick t : ℕ) (s : State W) (listed : List Str)
        → down_nodes (order.range Bool s.node_status) ≡ listed
        → IsGuarded s.node_status
        → IsGuarded
            (strike services json quorum docker order containers seed content pick t listed
              s).node_status
    strike-IsGuarded pick t s [] none_listed guarded =
        elim (Option-cases (chosen containers pick)) [
          | inl nobody ↦ rw (strike, nobody) guarded
          | inr (node, picked) ↦
              rw (strike, picked)
                (noted_keeps kill node t false (docker.run kill node s.world) s guarded (
                  killed-IsGuarded node s.node_status guarded.unique (λ d down.
                    all_listed_up order s.node_status guarded.unique d none_listed down)))
        ]
    strike-IsGuarded pick t s (node ∷ nodes) listed guarded =
        noted_keeps restore node t true (docker.run restore node s.world) s guarded (
          restored-IsGuarded node s.node_status guarded
            (listed-IsDown order s.node_status guarded.unique node nodes listed))

    wrote-IsGuarded :
        (key : Str) (p : W × Option Failure) (s : State W)
        → IsGuarded s.node_status
        → IsGuarded
            (wrote services json quorum docker order containers seed content key p s).node_status
    wrote-IsGuarded key (w, none) s guarded = guarded
    wrote-IsGuarded key (w, some e) s guarded = guarded

    pub turn-IsGuarded :
        (turn : Turn) (s : State W)
        → IsGuarded s.node_status
        → IsGuarded (turn_on turn s).node_status
    unfolding take_turn chaos write_one measure_interval
    turn-IsGuarded (chaos_turn pick t) s guarded = strike-IsGuarded pick t s _ refl guarded
    turn-IsGuarded writer_turn s guarded = wrote-IsGuarded _ _ s guarded
    turn-IsGuarded (measure_turn t shuffle) s guarded = guarded

-- At the start every container is up.
all_up-IsGuarded :
    (cs : List Str) (status : GoMap Bool)
    → NoRepeats status
    → ((d : Str) → IsDown status d → true ≡ false)
    → IsGuarded (all_up cs status)
unfolding all_up
all_up-IsGuarded [] status unique up = record {
  unique = unique;
  one_down = λ a b down_a down_b. absurd (cc (up a down_a));
}
all_up-IsGuarded (c ∷ cs) status unique up =
    all_up-IsGuarded cs (insert c true status) (insert-NoRepeats c true status unique)
      (λ d down. still_up d down)
  where
    still_up : (d : Str) → IsDown (insert c true status) d → true ≡ false
    still_up d down = elim (Bool-cases (str_eq c d)) [
      | inl same ↦
          let started : lookup d (insert c true status) ≡ some true =
            lookup-insert c d true status ∙ rw same refl in
          sym down ∙ ap is_false started
      | inr other ↦ up d (IsDown-after c true status d down other)
    ]

pub containers-IsGuarded : (cs : List Str) → IsGuarded (all_up cs [])
containers-IsGuarded cs =
    all_up-IsGuarded cs [] tt (λ d down. sym down ∙ ap is_false (lookup-nil {V = Bool} d))
