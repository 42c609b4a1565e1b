-- ===== src/Experiments/Chaos/Invariant.antt =====
-- What stays true while the goroutines of runChaos of experiments/harness/main/chaos.go run.
use frag_kv.Base.{
  Str, ℕ, ◌+◌, ◌≤◌, ◌≡◌, refl, List, [], ◌∷◌, ◌++◌, Option, none, some, Bool, true, false, arith,
  All, All-append, length, length-append, length-take, ltb, Bool-cases, Option-cases, inl, inr,
}
use frag_kv.Base.GoMap.{RangeOrder}
use frag_kv.Base.Int.{ℤ}
use frag_kv.Kvctl.{Services, Json, Failure}
use frag_kv.Harness.{put_value}
use frag_kv.Experiments.Counts.{count_reads_total}
use frag_kv.Experiments.Chaos.{
  Action, kill, restore, Interval, State, Docker, Turn, chaos_turn, writer_turn, measure_turn,
  chosen, noted, strike, chaos, write_one, wrote, live_key, sample, measured, measure_interval,
  take_turn, take_turns, preloaded,
}
use frag_kv.Experiments.Chaos.Guarded.{IsDown, IsGuarded, turn-IsGuarded, containers-IsGuarded}

unfoldable pub sum_writes : List Interval → ℕ
sum_writes [] = 0
sum_writes (r ∷ rows) = r.write_ok + sum_writes rows

unfoldable pub sum_failures : List Interval → ℕ
sum_failures [] = 0
sum_failures (r ∷ rows) = r.write_fail + sum_failures rows

sum_writes-snoc :
    (rows : List Interval) (r : Interval)
    → sum_writes (rows ++ r ∷ []) ≡ sum_writes rows + r.write_ok
unfolding sum_writes
sum_writes-snoc [] r = omega arith
sum_writes-snoc (x ∷ rows) r = omega (arith, sum_writes-snoc rows r)

sum_failures-snoc :
    (rows : List Interval) (r : Interval)
    → sum_failures (rows ++ r ∷ []) ≡ sum_failures rows + r.write_fail
unfolding sum_failures
sum_failures-snoc [] r = omega arith
sum_failures-snoc (x ∷ rows) r = omega (arith, sum_failures-snoc rows r)

module _ {W : Type 0} where
  -- The counters: every key that the writer put is committed or failed, and each put is in one row or in
  -- none yet.
  pub record IsCounted (first : ℕ) (s : State W) : Type 0 where
    pub kept : length s.committed ≡ first + s.write_ok
    pub tried : s.next ≡ s.write_ok + s.write_fail
    pub writes : sum_writes s.rows ≡ s.prev_write_ok
    pub failures : sum_failures s.rows ≡ s.prev_write_fail
    pub grows : s.prev_write_ok ≤ s.write_ok
    pub fails : s.prev_write_fail ≤ s.write_fail
    pub sampled : All (λ r. r.read_ok + r.read_fail ≤ 20) s.rows

  module _ (services : Services W) (json : Json) (quorum : ℤ) (docker : Docker W)
      (order : RangeOrder) (containers : List Str) (seed : ℤ) (content : Str) where
    same_counters :
        (first : ℕ) (s : State W) (action : Action) (node : Str) (t : ℕ) (up : Bool) (p : W × Bool)
        → IsCounted first s
        → IsCounted first
            (noted services json quorum docker order containers seed content action node t up p s)
    same_counters first s action node t up (w, false) h = record {
      kept = h.kept;
      tried = h.tried;
      writes = h.writes;
      failures = h.failures;
      grows = h.grows;
      fails = h.fails;
      sampled = h.sampled;
    }
    same_counters first s action node t up (w, true) h = record {
      kept = h.kept;
      tried = h.tried;
      writes = h.writes;
      failures = h.failures;
      grows = h.grows;
      fails = h.fails;
      sampled = h.sampled;
    }

    strike-IsCounted :
        (first pick t : ℕ) (s : State W) (listed : List Str)
        → IsCounted first s
        → IsCounted first
            (strike services json quorum docker order containers seed content pick t listed s)
    strike-IsCounted first pick t s [] h = elim (Option-cases (chosen containers pick)) [
      | inl nobody ↦ rw (strike, nobody) h
      | inr (node, picked) ↦
          rw (strike, picked)
            (same_counters first s kill node t false (docker.run kill node s.world) h)
    ]
    strike-IsCounted first pick t s (node ∷ nodes) h =
        same_counters first s restore node t true (docker.run restore node s.world) h

    wrote-IsCounted :
        (first : ℕ) (key : Str) (p : W × Option Failure) (s : State W)
        → IsCounted first s
        → IsCounted first (wrote services json quorum docker order containers seed content key p s)
    wrote-IsCounted first key (w, none) s h = record {
      kept = omega (arith, length-append s.committed (key ∷ []), h.kept);
      tried = omega (arith, h.tried);
      writes = h.writes;
      failures = h.failures;
      grows = omega (arith, h.grows);
      fails = h.fails;
      sampled = h.sampled;
    }
    wrote-IsCounted first key (w, some e) s h = record {
      kept = h.kept;
      tried = omega (arith, h.tried);
      writes = h.writes;
      failures = h.failures;
      grows = h.grows;
      fails = omega (arith, h.fails);
      sampled = h.sampled;
    }

    abbrev sampled_from : (List Str → List Str) → List Str → List Str
    sampled_from = sample services json quorum docker order containers seed content

    length-sample :
        (shuffle : List Str → List Str) (keys : List Str) → length (sampled_from shuffle keys) ≤ 20
    unfolding sample
    length-sample shuffle keys = elim (Bool-cases (ltb 20 (length keys))) [
      | inl many ↦ rw many (omega (arith, length-take 20 (shuffle keys)))
      | inr few ↦ rw few (ground (arith, few))
    ]

    measured-IsCounted :
        (first t : ℕ) (p : W × (ℕ × ℕ)) (s : State W)
        → p.1.0 + p.1.1 ≤ 20
        → IsCounted first s
        → IsCounted first (measured services json quorum docker order containers seed content t p s)
    measured-IsCounted first t (w, (good, bad)) s few h = record {
      kept = h.kept;
      tried = h.tried;
      writes = omega (arith, sum_writes-snoc s.rows _, h.writes, h.grows);
      failures = omega (arith, sum_failures-snoc s.rows _, h.failures, h.fails);
      grows = omega arith;
      fails = omega arith;
      sampled = All-append _ s.rows _ h.sampled (few, tt);
    }

    turn-IsCounted :
        (first : ℕ) (turn : Turn) (s : State W)
        → IsCounted first s
        → IsCounted first
            (take_turn services json quorum docker order containers seed content turn s)
    unfolding take_turn chaos write_one measure_interval
    turn-IsCounted first (chaos_turn pick t) s h = strike-IsCounted first pick t s _ h
    turn-IsCounted first writer_turn s h =
        let key = live_key services json quorum docker order containers seed content s.next in
        wrote-IsCounted first key (put_value services json quorum key content s.world) s h
    turn-IsCounted first (measure_turn t shuffle) s h =
        let keys = sampled_from shuffle s.committed in
        measured-IsCounted first t _ s
          (omega (
            arith,
            count_reads_total services json quorum content keys s.world,
            length-sample shuffle s.committed,
          ))
          h

    -- The state that the turns lead to, from the one behind the first keys.
    abbrev pub reached : List Turn → W × List Str → State W
    reached turns start =
        take_turns services json quorum docker order containers seed content turns
          (preloaded services json quorum docker order containers seed content start)

    turns-IsGuarded :
        (turns : List Turn) (s : State W)
        → IsGuarded s.node_status
        → IsGuarded
            (take_turns services json quorum docker order containers seed content turns
              s).node_status
    unfolding take_turns
    turns-IsGuarded [] s h = h
    turns-IsGuarded (turn ∷ turns) s h =
        turns-IsGuarded turns _
          (turn-IsGuarded services json quorum docker order containers seed content turn s h)

    turns-IsCounted :
        (first : ℕ) (turns : List Turn) (s : State W)
        → IsCounted first s
        → IsCounted first
            (take_turns services json quorum docker order containers seed content turns s)
    unfolding take_turns
    turns-IsCounted first [] s h = h
    turns-IsCounted first (turn ∷ turns) s h =
        turns-IsCounted first turns _ (turn-IsCounted first turn s h)

    -- Whatever turns the goroutines of runChaos take, in whatever order, with whatever is drawn, and
    -- whichever docker commands and writes fail: nodeStatus has no two containers as down. It follows the
    -- docker commands that succeed, and says nothing of a container that a failed command stopped.
    pub one_node_down :
        (turns : List Turn) (start : W × List Str) (a b : Str)
        → IsDown (reached turns start).node_status a
        → IsDown (reached turns start).node_status b
        → a ≡ b
    one_node_down turns start a b down_a down_b =
        (turns-IsGuarded turns
            (preloaded services json quorum docker order containers seed content start)
            (containers-IsGuarded containers)).one_down
          a b down_a down_b

    -- In each state that the goroutines of runChaos reach, in whatever order they take their turns: the
    -- committed keys are as many as those of the start and the writes that succeeded; the number of the
    -- next key is the number of writes that succeeded or failed; the rows add up to the successes and to
    -- the failures up to the last row; and no row has more than twenty reads.
    pub chaos-IsCounted :
        (turns : List Turn) (start : W × List Str)
        → IsCounted (length start.1) (reached turns start)
    unfolding sum_writes sum_failures
    chaos-IsCounted turns start =
        turns-IsCounted (length start.1) turns
          (preloaded services json quorum docker order containers seed content start)
          (record {
            kept = omega arith;
            tried = refl;
            writes = refl;
            failures = refl;
            grows = omega arith;
            fails = omega arith;
            sampled = tt;
          })
