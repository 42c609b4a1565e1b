-- ===== src/Experiments.antt =====
-- The experiments on availability of experiments/harness/harness.go and
-- experiments/harness/main/main.go over the client of Harness: what is written, and how often it
-- can be read while nodes go down. A row of a table has its counts here; the percentages, the
-- durations and the printing are left out. A size names the value of zero or random bytes that is
-- put.
pub mod Chaos
pub mod Counts
pub mod Tests
pub mod Throughput
use frag_kv.Base.{
  Str, ℕ, zero, suc, ◌+◌, List, [], ◌∷◌, ◌++◌, Option, none, some, Bool, true, false, codes,
  if◌then◌else◌,
}
use frag_kv.Base.Decimal.{itoa}
use frag_kv.Base.Int.{ℤ}
use frag_kv.Fragment.{Fault}
use frag_kv.Kvctl.{Services, Schedule, Json, Failure, opening, decimal, Result, ok, err}
use frag_kv.Harness.{put_value, get_value}

-- fmt.Sprintf("<prefix>%d", i), for the numbers from `i` on, `left` of them
unfoldable pub numbered : Str → ℕ → ℕ → List Str
numbered prefix i zero = []
numbered prefix i (suc left) = (prefix ++ itoa i) ∷ numbered prefix (i + 1) left

-- fmt.Sprintf("<name>-%d-", size)
unfoldable pub sized : Str → ℤ → Str
sized name size = name ++ b'-' ∷ (decimal size ++ b'-' ∷ [])

-- A row of a table: what it is about, and the reads that succeeded and that failed.
pub record Row : Type 0 where
  pub label : ℕ
  pub good : ℕ
  pub bad : ℕ

-- os.MkdirAll and os.Create
pub record Files : Type 0 where
  pub mkdir : Option Fault
  pub create : Option Fault

abbrev pub is_ok : {A : Type 0} → Result A → Bool
is_ok (ok a) = true
is_ok (err e) = false

-- err == nil
abbrev pub succeeded : Option Failure → Bool
succeeded none = true
succeeded (some e) = false

abbrev pub count_one : Bool → ℕ × ℕ → ℕ × ℕ
count_one true (good, bad) = (suc good, bad)
count_one false (good, bad) = (good, suc bad)

module _ {W : Type 0} (services : Services W) (json : Json) (quorum : ℤ) (content : Str) where
  -- GetValue of every key, in order: how many succeed, and how many fail.
  unfoldable pub count_reads : List Str → W → W × (ℕ × ℕ)
  count_reads [] w = (w, (0, 0))
  count_reads (key ∷ keys) w =
      let (w', value) = get_value services json key w in
      let (w'', counts) = count_reads keys w' in (w'', count_one (is_ok value) counts)

  -- PutValue of every key, up to the first that fails.
  unfoldable pub write_all : List Str → W → W × Option Failure
  write_all [] w = (w, none)
  write_all (key ∷ keys) w =
      let (w', failure) = put_value services json quorum key content w in
      elim failure [ some e ↦ (w', some e) | none ↦ write_all keys w' ]

  -- PutValue of every key: the keys for which it returned no error.
  unfoldable pub write_some : List Str → W → W × List Str
  write_some [] w = (w, [])
  write_some (key ∷ keys) w =
      let (w', failure) = put_value services json quorum key content w in
      let (w'', written) = write_some keys w' in
      (w'', if succeeded failure then key ∷ written else written)

  abbrev row_of : ℕ → W × (ℕ × ℕ) → W × Row
  row_of label (w, (good, bad)) = (w, record { label = label; good = good; bad = bad })

  -- Rounds of reads of all keys. Before each there is what happens in the cluster meanwhile; its label
  -- is the seconds that have gone by, or the number of nodes that were killed; `arrange` is the order of
  -- the reads.
  unfoldable pub measure :
      (ℕ → List Str → List Str) → List Str → List (ℕ × (W → W)) → W → W × List Row
  unfolding count_reads
  measure arrange keys [] w = (w, [])
  measure arrange keys ((label, meanwhile) ∷ rounds) w =
      let (w', row) = row_of label (count_reads (arrange label keys) (meanwhile w)) in
      let (w'', rows) = measure arrange keys rounds w' in (w'', row ∷ rows)

  abbrev pub in_order : ℕ → List Str → List Str
  in_order label keys = keys

  -- The rounds, where the writes went through and the table could be created.
  abbrev pub measure_table :
      (ℕ → List Str → List Str)
      → Option Fault
      → List Str
      → List (ℕ × (W → W))
      → W × Option Failure
      → W × Result (List Row)
  measure_table arrange create keys rounds (w, some e) = (w, err e)
  measure_table arrange none keys rounds (w, none) =
      let (w', rows) = measure arrange keys rounds w in (w', ok rows)
  measure_table arrange (some e) keys rounds (w, none) = (w, err (opening e))

  -- runRolling, for a number of keys and the rounds until its time is over
  unfoldable pub run_rolling : Files → ℤ → ℕ → List (ℕ × (W → W)) → W → W × Result (List Row)
  unfolding numbered write_all measure
  run_rolling files size num_keys rounds w = elim files.mkdir [
    | some e ↦ (w, err (opening e))
    | none ↦
        (let keys = numbered (sized (codes "rolling") size) 0 num_keys in
          measure_table in_order files.create keys rounds (write_all keys w))
  ]

  -- RunAvailability: the table before any node is killed, behind the first kill and behind the second.
  -- Its reads run at once; `schedule` gives their order.
  unfoldable pub run_availability :
      Files → (ℕ → Schedule) → ℕ → (ℕ → W → W) → W → W × Result (List Row)
  unfolding numbered write_all measure
  run_availability files schedule num_keys kill w = elim files.mkdir [
    | some e ↦ (w, err (opening e))
    | none ↦
        (let keys = numbered (codes "avail-") 0 num_keys in
          measure_table (λ label. (schedule label).arrange Str) files.create keys
            ((0, λ u. u) ∷ (1, kill 1) ∷ (2, kill 2) ∷ []) (write_all keys w))
  ]

  -- runAvailabilityToFile, with the label that it makes of the name of the file: the keys that could not
  -- be written are not read.
  unfoldable pub run_availability_to_file :
      Files → Str → ℤ → ℕ → List (ℕ × (W → W)) → W → W × Result (List Row)
  unfolding numbered write_some measure
  run_availability_to_file files label size num_keys rounds w = elim files.mkdir [
    | some e ↦ (w, err (opening e))
    | none ↦
        (let (w', keys) = write_some (numbered (sized label size) 0 num_keys) w in
          measure_table in_order files.create keys rounds (w', none))
  ]
