-- ===== src/Experiments/Counts.antt =====
-- What the tables of the experiments of experiments/harness count.
use frag_kv.Base.{
  Str, ℕ, zero, suc, ◌+◌, ◌≡◌, refl, ap, ◌∙◌, subst, List, [], ◌∷◌, map, Option, none, some, Bool,
  true, false, arith, All, length, Option-cases, inl, inr, codes, length-permᴰ,
}
use frag_kv.Base.Int.{ℤ}
use frag_kv.Fragment.{Fault}
use frag_kv.Kvctl.{Services, Schedule, Json, Failure, ok}
use frag_kv.Experiments.{
  Files, Row, numbered, sized, is_ok, count_one, count_reads, measure, measure_table, in_order,
  run_rolling, run_availability,
}

pub length-numbered : (prefix : Str) (i n : ℕ) → length (numbered prefix i n) ≡ n
unfolding numbered
length-numbered prefix i zero = refl
length-numbered prefix i (suc n) = ap suc (length-numbered prefix (i + 1) n)

count_one_sum : (b : Bool) (c : ℕ × ℕ) → (count_one b c).0 + (count_one b c).1 ≡ suc (c.0 + c.1)
count_one_sum true (good, bad) = omega arith
count_one_sum false (good, bad) = omega arith

ok_injective : {A : Type 0} {a b : A} → ok a ≡ ok b → a ≡ b
ok_injective h = cc h

module _ {W : Type 0} (services : Services W) (json : Json) (quorum : ℤ) (content : Str) where
  -- Every key is counted once.
  pub count_reads_total :
      (keys : List Str) (w : W)
      → (count_reads services json quorum content keys w).1.0
          + (count_reads services json quorum content keys w).1.1
        ≡ length keys
  unfolding count_reads
  count_reads_total [] w = refl
  count_reads_total (key ∷ keys) w =
      let (w', value) = frag_kv.Harness.get_value services json key w in
      count_one_sum (is_ok value) (count_reads services json quorum content keys w').1
      ∙ ap suc (count_reads_total keys w')

  -- A table with a row for each round, under its label, in which every key is counted once.
  abbrev pub IsTable : ℕ → List (ℕ × (W → W)) → List Row → Type 0
  IsTable n rounds rows =
      (map (λ r. r.label) rows ≡ map (λ r. r.0) rounds) × All (λ r. r.good + r.bad ≡ n) rows

  measure-IsTable :
      (arrange : ℕ → List Str → List Str) (n : ℕ) (keys : List Str)
      → ((label : ℕ) → length (arrange label keys) ≡ n)
      → (rounds : List (ℕ × (W → W))) (w : W)
      → IsTable n rounds (measure services json quorum content arrange keys rounds w).1
  unfolding measure
  measure-IsTable arrange n keys all [] w = (refl, tt)
  measure-IsTable arrange n keys all ((label, meanwhile) ∷ rounds) w =
      let w' = (count_reads services json quorum content (arrange label keys) (meanwhile w)).0 in
      let (labels, counts) = measure-IsTable arrange n keys all rounds w' in
      (
        ap (◌∷◌ label) labels,
        (count_reads_total (arrange label keys) (meanwhile w) ∙ all label, counts),
      )

  measure_table-IsTable :
      (arrange : ℕ → List Str → List Str) (create : Option Fault) (n : ℕ) (keys : List Str)
      (rounds : List (ℕ × (W → W))) (p : W × Option Failure) (rows : List Row)
      → ((label : ℕ) → length (arrange label keys) ≡ n)
      → (measure_table services json quorum content arrange create keys rounds p).1 ≡ ok rows
      → IsTable n rounds rows
  measure_table-IsTable arrange create n keys rounds (w, some e) rows all h = absurd (cc h)
  measure_table-IsTable arrange none n keys rounds (w, none) rows all h =
      subst (IsTable n rounds) (ok_injective h) (measure-IsTable arrange n keys all rounds w)
  measure_table-IsTable arrange (some e) n keys rounds (w, none) rows all h = absurd (cc h)

  -- A table of runRolling has a row for each of its rounds, under its label and in their order, and in
  -- every row each of the keys is counted once, as read or as not read; whatever becomes of the nodes
  -- between the rounds.
  pub run_rolling-IsTable :
      (files : Files) (size : ℤ) (num_keys : ℕ) (rounds : List (ℕ × (W → W))) (w : W)
      (rows : List Row)
      → (run_rolling services json quorum content files size num_keys rounds w).1 ≡ ok rows
      → IsTable num_keys rounds rows
  unfolding run_rolling
  run_rolling-IsTable files size num_keys rounds w rows h = elim (Option-cases files.mkdir) [
    | inr (e, failed) ↦ absurd (cc (rw (run_rolling, failed) at h))
    | inl made ↦
        measure_table-IsTable (in_order services json quorum content) files.create num_keys _ rounds
          _ rows (λ label. length-numbered (sized (codes "rolling") size) 0 num_keys)
          (rw (run_rolling, made) at h)
  ]

  -- The same of RunAvailability, for the rounds before a kill, behind the first and behind the second,
  -- whatever the order of the reads, which run at once.
  pub run_availability-IsTable :
      (files : Files) (schedule : ℕ → Schedule) (num_keys : ℕ) (kill : ℕ → W → W) (w : W)
      (rows : List Row)
      → (run_availability services json quorum content files schedule num_keys kill w).1 ≡ ok rows
      → IsTable num_keys ((0, λ u. u) ∷ (1, kill 1) ∷ (2, kill 2) ∷ []) rows
  unfolding run_availability
  run_availability-IsTable files schedule num_keys kill w rows h = elim (Option-cases files.mkdir) [
    | inr (e, failed) ↦ absurd (cc (rw (run_availability, failed) at h))
    | inl made ↦
        measure_table-IsTable (λ label. (schedule label).arrange Str) files.create num_keys _ _ _
          rows
          (λ label.
            length-permᴰ ((schedule label).arrange_perm Str _)
            ∙ length-numbered (codes "avail-") 0 num_keys)
          (rw (run_availability, made) at h)
  ]
