-- ===== src/Experiments/Throughput.antt =====
-- RunThroughput of experiments/harness/harness.go: a put and a get of values of several sizes, a row for
-- each. The bytes of a value are an argument; the durations and the throughput are left out.
use frag_kv.Base.{
  Str, ℕ, zero, suc, ◌+◌, ◌*◌, ◌≡◌, refl, subst, List, [], ◌∷◌, ◌++◌, Option, none, some, arith,
  codes, length, Option-cases, inl, inr,
}
use frag_kv.Base.Decimal.{itoa}
use frag_kv.Base.Int.{ℤ}
use frag_kv.Kvctl.{Services, Json, Failure, opening, Result, ok, err}
use frag_kv.Harness.{put_value, get_value}
use frag_kv.Experiments.{Files, sized}

pub data Op : Type 0 where
  put_op get_op : Op

-- A row of throughput.csv: its status is "ok" where there is no failure.
pub record Timing : Type 0 where
  pub op : Op
  pub size : ℤ
  pub failure : Option Failure

abbrev pub failure_in : {A : Type 0} → Result A → Option Failure
failure_in (ok a) = none
failure_in (err e) = some e

module _ {W : Type 0} (services : Services W) (json : Json) (quorum : ℤ)
    (random : ℤ → ℕ → Str) where
  abbrev get_row : ℤ → W × Result Str → W × List Timing
  get_row size (w, value) = (
    w,
    record { op = put_op; size = size; failure = none }
        ∷ record { op = get_op; size = size; failure = failure_in value }
        ∷ [],
  )

  abbrev put_row : ℤ → Str → W × Option Failure → W × List Timing
  put_row size key (w, some e) = (w, record { op = put_op; size = size; failure = some e } ∷ [])
  put_row size key (w, none) = get_row size (get_value services json key w)

  -- The body of the inner loop.
  unfoldable pub time_value : ℤ → ℕ → W → W × List Timing
  time_value size i w =
      let key = sized (codes "throughput") size ++ itoa i in
      put_row size key (put_value services json quorum key (random size i) w)

  -- The inner loop from `i` on.
  unfoldable pub time_values : ℤ → ℕ → ℕ → W → W × List Timing
  unfolding time_value
  time_values size i zero w = (w, [])
  time_values size i (suc left) w =
      let (w', rows) = time_value size i w in
      let (w'', later) = time_values size (i + 1) left w' in (w'', rows ++ later)

  unfoldable pub time_sizes : List ℤ → ℕ → W → W × List Timing
  unfolding time_values
  time_sizes [] num w = (w, [])
  time_sizes (size ∷ sizes) num w =
      let (w', rows) = time_values size 0 num w in
      let (w'', later) = time_sizes sizes num w' in (w'', rows ++ later)

  abbrev timed : W × List Timing → W × Result (List Timing)
  timed (w, rows) = (w, ok rows)

  -- RunThroughput
  unfoldable pub run_throughput : Files → List ℤ → ℕ → W → W × Result (List Timing)
  unfolding time_sizes
  run_throughput files sizes num w = elim files.mkdir [
    | some e ↦ (w, err (opening e))
    | none ↦ elim files.create [
      | some e ↦ (w, err (opening e))
      | none ↦ timed (time_sizes sizes num w)
    ]
  ]

-- The sum of a weight over the rows.
unfoldable pub tally : (Timing → ℕ) → List Timing → ℕ
tally f [] = 0
tally f (r ∷ rows) = f r + tally f rows

abbrev pub is_put : Timing → ℕ
is_put r = elim r.op [ put_op ↦ 1 | get_op ↦ 0 ]

abbrev pub is_get : Timing → ℕ
is_get r = elim r.op [ put_op ↦ 0 | get_op ↦ 1 ]

abbrev pub is_good_put : Timing → ℕ
is_good_put r = elim r.op [ put_op ↦ elim r.failure [ none ↦ 1 | some e ↦ 0 ] | get_op ↦ 0 ]

tally-append : (f : Timing → ℕ) (xs ys : List Timing) → tally f (xs ++ ys) ≡ tally f xs + tally f ys
unfolding tally
tally-append f [] ys = omega arith
tally-append f (x ∷ xs) ys = omega (arith, tally-append f xs ys)

-- So many puts, and a get for each that succeeded.
abbrev pub IsTimed : ℕ → List Timing → Type 0
IsTimed n rows = (tally is_put rows ≡ n) × (tally is_get rows ≡ tally is_good_put rows)

append-IsTimed :
    (m n : ℕ) (xs ys : List Timing) → IsTimed m xs → IsTimed n ys → IsTimed (m + n) (xs ++ ys)
append-IsTimed m n xs ys (puts, gets) (puts', gets') = (
  omega (arith, tally-append is_put xs ys, puts, puts'),
  omega (arith, tally-append is_get xs ys, tally-append is_good_put xs ys, gets, gets'),
)

timed_injective : {A : Type 0} {a b : A} → ok a ≡ ok b → a ≡ b
timed_injective h = cc h

module _ {W : Type 0} (services : Services W) (json : Json) (quorum : ℤ)
    (random : ℤ → ℕ → Str) where
  put_row-IsTimed :
      (size : ℤ) (key : Str) (p : W × Option Failure)
      → IsTimed 1 (put_row services json quorum random size key p).1
  unfolding tally
  put_row-IsTimed size key (w, some e) = (refl, refl)
  put_row-IsTimed size key (w, none) = (refl, refl)

  time_values-IsTimed :
      (size : ℤ) (i left : ℕ) (w : W)
      → IsTimed left (time_values services json quorum random size i left w).1
  unfolding time_values tally
  time_values-IsTimed size i zero w = (refl, refl)
  time_values-IsTimed size i (suc left) w =
      let key = sized (codes "throughput") size ++ itoa i in
      subst (λ n. IsTimed n (time_values services json quorum random size i (suc left) w).1)
        {x = 1 + left} {y = suc left} (omega arith)
        (append-IsTimed 1 left _ _
          (put_row-IsTimed size key (put_value services json quorum key (random size i) w))
          (time_values-IsTimed size (i + 1) left
            (time_value services json quorum random size i w).0))

  time_sizes-IsTimed :
      (sizes : List ℤ) (num : ℕ) (w : W)
      → IsTimed (length sizes * num) (time_sizes services json quorum random sizes num w).1
  unfolding time_sizes tally
  time_sizes-IsTimed [] num w = (omega arith, refl)
  time_sizes-IsTimed (size ∷ sizes) num w =
      subst (λ n. IsTimed n (time_sizes services json quorum random (size ∷ sizes) num w).1)
        {x = num + length sizes * num} {y = length (size ∷ sizes) * num} (omega arith)
        (append-IsTimed num (length sizes * num) _ _ (time_values-IsTimed size 0 num w)
          (time_sizes-IsTimed sizes num (time_values services json quorum random size 0 num w).0))

  -- The table of RunThroughput has a row for the put of each value of each size, and a row of a get for
  -- each put that succeeded.
  run_throughput-IsTimed :
      (files : Files) (sizes : List ℤ) (num : ℕ) (w : W) (rows : List Timing)
      → (run_throughput services json quorum random files sizes num w).1 ≡ ok rows
      → IsTimed (length sizes * num) rows
  unfolding run_throughput
  run_throughput-IsTimed files sizes num w rows h = elim (Option-cases files.mkdir) [
    | inr (e, failed) ↦ absurd (cc (rw (run_throughput, failed) at h))
    | inl made ↦ elim (Option-cases files.create) [
      | inr (e, failed) ↦ absurd (cc (rw (run_throughput, made, failed) at h))
      | inl opened ↦
          subst (IsTimed (length sizes * num))
            (timed_injective (rw (run_throughput, made, opened) at h))
            (time_sizes-IsTimed sizes num w)
    ]
  ]
