-- ===== src/Experiments/Chaos.antt =====
-- runChaos of experiments/harness/main/chaos.go: one goroutine stops and starts the containers of storage
-- nodes, another writes keys, and the main loop measures what can be read. The three take turns here, in
-- any order; a turn is one round of its loop. Docker, the clock, the generator of random numbers and the
-- shuffle are arguments. The percentages and the printing are left out.
pub mod Guarded
pub mod Invariant
use frag_kv.Base.{
  Str, ℕ, zero, suc, ◌+◌, ◌-◌, ◌%◌, List, [], ◌∷◌, ◌++◌, Option, none, some, Bool, true, false,
  codes, length, take, get_elem?, ltb, ◌==◌, if◌then◌else◌,
}
use frag_kv.Base.Decimal.{itoa}
use frag_kv.Base.GoMap.{GoMap, RangeOrder, insert}
use frag_kv.Base.Int.{ℤ}
use frag_kv.Fragment.{Fault}
use frag_kv.Kvctl.{Services, Json, Failure, opening, decimal, Result, ok, err}
use frag_kv.Harness.{put_value, get_value}
use frag_kv.Experiments.{Files, numbered, is_ok, succeeded, count_reads, write_some, count_one}

pub data Action : Type 0 where
  kill restore : Action

-- chaosEvent
pub record ChaosEvent : Type 0 where
  pub elapsed_sec : ℕ
  pub node : Str
  pub action : Action

-- A row of chaos.csv, without its percentages.
pub record Interval : Type 0 where
  pub elapsed : ℕ
  pub read_ok : ℕ
  pub read_fail : ℕ
  pub write_ok : ℕ
  pub write_fail : ℕ

-- The variables that the goroutines share, with the containers that are up, `next` the number of the next
-- key of the writer, and the rows that are written.
pub record State (W : Type 0) : Type 0 where
  pub world : W
  pub node_status : GoMap Bool
  pub events : List ChaosEvent
  pub committed : List Str
  pub next : ℕ
  pub write_ok : ℕ
  pub write_fail : ℕ
  pub prev_write_ok : ℕ
  pub prev_write_fail : ℕ
  pub rows : List Interval

-- docker stop, docker start, and whether the command succeeds
pub record Docker (W : Type 0) : Type 0 where
  pub run : Action → Str → W → W × Bool

-- The nodes that are not up.
unfoldable pub down_nodes : GoMap Bool → List Str
down_nodes [] = []
down_nodes ((node, up) ∷ status) = let rest = down_nodes status in if up then rest else node ∷ rest

-- `nodeStatus[c] = true` for every container
unfoldable pub all_up : List Str → GoMap Bool → GoMap Bool
all_up [] status = status
all_up (c ∷ cs) status = all_up cs (insert c true status)

-- containers[rng.Intn(len(containers))]; nothing where there are none, since rng.Intn panics
unfoldable pub chosen : List Str → ℕ → Option Str
chosen [] pick = none
chosen (c ∷ cs) pick = get_elem? (c ∷ cs) (pick % length (c ∷ cs))

-- A turn of a goroutine, with what it draws and the seconds that have gone by; the main loop shuffles.
pub data Turn : Type 0 where
  chaos_turn : ℕ → ℕ → Turn
  writer_turn : Turn
  measure_turn : ℕ → (List Str → List Str) → Turn

module _ {W : Type 0} (services : Services W) (json : Json) (quorum : ℤ) (docker : Docker W)
    (order : RangeOrder) (containers : List Str) (seed : ℤ) (content : Str) where
  -- What follows a docker command: where it failed, whatever it did to the container, nothing is noted.
  abbrev pub noted : Action → Str → ℕ → Bool → W × Bool → State W → State W
  noted action node t up (w, false) s = record s { world = w }
  noted action node t up (w, true) s = record s {
    world = w;
    node_status = insert node up s.node_status;
    events = s.events ++ (record { elapsed_sec = t; node = node; action = action }) ∷ [];
  }

  -- The body of the goroutine of chaos behind its sleep: a kill where all nodes are up, and otherwise the
  -- restore of the first node that the range statement finds down.
  abbrev pub strike : ℕ → ℕ → List Str → State W → State W
  strike pick t [] s = elim (chosen containers pick) [
    | none ↦ s
    | some node ↦ noted kill node t false (docker.run kill node s.world) s
  ]
  strike pick t (node ∷ nodes) s = noted restore node t true (docker.run restore node s.world) s

  unfoldable pub chaos : ℕ → ℕ → State W → State W
  unfolding chosen down_nodes
  chaos pick t s = strike pick t (down_nodes (order.range Bool s.node_status)) s

  -- fmt.Sprintf("chaos-live-%d-%d", seed, i)
  unfoldable pub live_key : ℕ → Str
  live_key i = codes "chaos-live-" ++ decimal seed ++ b'-' ∷ itoa i

  abbrev pub wrote : Str → W × Option Failure → State W → State W
  wrote key (w, none) s = record s {
    world = w;
    next = suc s.next;
    write_ok = suc s.write_ok;
    committed = s.committed ++ key ∷ [];
  }
  wrote key (w, some e) s = record s { world = w; next = suc s.next; write_fail = suc s.write_fail }

  -- The body of the goroutine of the writer.
  unfoldable pub write_one : State W → State W
  unfolding live_key
  write_one s =
      let key = live_key s.next in wrote key (put_value services json quorum key content s.world) s

  -- The keys that are read: all of them, or twenty behind a shuffle.
  unfoldable pub sample : (List Str → List Str) → List Str → List Str
  sample shuffle keys = if ltb 20 (length keys) then take 20 (shuffle keys) else keys

  abbrev pub measured : ℕ → W × (ℕ × ℕ) → State W → State W
  measured t (w, (good, bad)) s = record s {
    world = w;
    prev_write_ok = s.write_ok;
    prev_write_fail = s.write_fail;
    rows =
        s.rows
        ++ (record {
          elapsed = t;
          read_ok = good;
          read_fail = bad;
          write_ok = s.write_ok - s.prev_write_ok;
          write_fail = s.write_fail - s.prev_write_fail;
        })
          ∷ [];
  }

  -- The case of the ticker in the main loop.
  unfoldable pub measure_interval : ℕ → (List Str → List Str) → State W → State W
  unfolding count_reads sample
  measure_interval t shuffle s =
      measured t (count_reads services json quorum content (sample shuffle s.committed) s.world) s

  unfoldable pub take_turn : Turn → State W → State W
  unfolding chaos write_one measure_interval
  take_turn (chaos_turn pick t) s = chaos pick t s
  take_turn writer_turn s = write_one s
  take_turn (measure_turn t shuffle) s = measure_interval t shuffle s

  -- The goroutines up to the deadline.
  unfoldable pub take_turns : List Turn → State W → State W
  unfolding take_turn
  take_turns [] s = s
  take_turns (turn ∷ turns) s = take_turns turns (take_turn turn s)

  -- What the goroutines start from, behind the writes of the first keys.
  abbrev pub preloaded : W × List Str → State W
  preloaded (w, keys) = record {
    world = w;
    node_status = all_up containers [];
    events = [];
    committed = keys;
    next = 0;
    write_ok = 0;
    write_fail = 0;
    prev_write_ok = 0;
    prev_write_fail = 0;
    rows = [];
  }

  -- docker start for every node that is down, behind the deadline
  unfoldable pub start_all : List Str → W → W
  start_all [] w = w
  start_all (node ∷ nodes) w = start_all nodes (docker.run restore node w).0

  -- The summary of the run: the events, and how many committed keys can be read at the end, and how many
  -- there are.
  pub record Summary : Type 0 where
    pub events : List ChaosEvent
    pub table : List Interval
    pub integrity_ok : ℕ
    pub integrity_all : ℕ

  abbrev pub summed_up : State W → W × (ℕ × ℕ) → W × Result Summary
  summed_up s (w, (good, bad)) = (
    w,
    ok (record {
      events = s.events;
      table = s.rows;
      integrity_ok = good;
      integrity_all = length s.committed;
    }),
  )

  -- runChaos from the first keys on, for the turns that the goroutines take before the deadline.
  unfoldable pub run_turns : List Turn → W × List Str → W × Result Summary
  unfolding take_turns start_all count_reads
  run_turns turns start =
      let s = take_turns turns (preloaded start) in
      let w = start_all (down_nodes (order.range Bool s.node_status)) s.world in
      summed_up s (count_reads services json quorum content s.committed w)

  -- runChaos. The goroutines have begun when the table is created; where that fails the function returns
  -- at once, here before their first turn.
  unfoldable pub run_chaos : Files → ℕ → List Turn → W → W × Result Summary
  unfolding run_turns numbered write_some
  run_chaos files num_keys turns w = elim files.mkdir [
    | some e ↦ (w, err (opening e))
    | none ↦
        (let start =
            write_some services json quorum content (numbered (codes "chaos-pre-") 0 num_keys) w in
          elim files.create [ some e ↦ (start.0, err (opening e)) | none ↦ run_turns turns start ])
  ]
