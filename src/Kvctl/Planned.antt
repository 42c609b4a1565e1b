-- ===== src/Kvctl/Planned.antt =====
-- The put and the get of cmd/kvctl/main.go with a plan, whose fragments are cut like the chunks.
use mathlib.Core.List.{Permᴰ, flatten}
use mathlib.Core.List
use frag_kv.Base.{
  Str, ℕ, ◌+◌, ◌≡◌, refl, sym, ap, ap₂, ◌∙◌, List, [], ◌∷◌, ◌++◌, map, Option, none, some, true,
  arith, slash, Lacks, All, length, length-append, append_assoc, get_elem?,
}
use frag_kv.Base.GoMap.{GoMap}
use frag_kv.Storage.{Store}
use frag_kv.Base.Int.{ℤ}
use frag_kv.Fragment.{Fault, Info, Reader, split}
use frag_kv.Fragment.Collects.{infos}
use frag_kv.Metadata.Types.{KeyEntry}
use frag_kv.Metadata.Store.Sizes.{shape}
use frag_kv.Kvctl.{KeyPlan, Json, Schedule, Failure, pair_up, upload_all}
use frag_kv.Kvctl.Commands.{put_chunks, get_planned, finish_put, commit}
use frag_kv.Kvctl.Uploads.{IsJob, Held, upload_all-Held}
use frag_kv.Kvctl.Downloads.{
  All-permᴰ, IsStored, downloads-Fetched, append, Occurs, Aligned, get_elem?-append,
  write_from-Aligned,
}
use frag_kv.Cluster.{Setup, Network, World, services}

cons_parts {ℓ} : {A : Type ℓ} {x y : A} {xs ys : List A} → x ∷ xs ≡ y ∷ ys → (x ≡ y) × (xs ≡ ys)
cons_parts e = List.cons-eq-cons.0 e

-- A plan that is cut like the chunks is aligned with them.
pub cut-Aligned :
    (key : Str) (i : ℕ) (fs : List Info) (cs : List Str)
    → map shape fs ≡ map shape (infos key i cs)
    → Aligned key i fs cs
unfolding infos frag_kv.Fragment.id frag_kv.Fragment.new_info
cut-Aligned key i [] [] e = tt
cut-Aligned key i [] (c ∷ cs) e = absurd (cc e)
cut-Aligned key i (f ∷ fs) [] e = absurd (cc e)
cut-Aligned key i (f ∷ fs) (c ∷ cs) e =
    let (first, rest) = cons_parts e in
    (ap (λ t. t.0) first, ap (λ t. t.1) first, cut-Aligned key (i + 1) fs cs rest)

module _ (key : Str) (chunks : List Str) where
  -- A plan that is aligned with the chunks has one for each fragment.
  pub pair_up-IsJob :
      (before : List Str) (i : ℕ) (fs : List Info) (cs : List Str)
      → i ≡ length before
      → chunks ≡ before ++ cs
      → Aligned key i fs cs
      → ((pair_up fs cs).1 ≡ true) × All (IsJob key chunks) (pair_up fs cs).0
  unfolding pair_up
  pair_up-IsJob before i [] [] counts whole al = (refl, tt)
  pair_up-IsJob before i [] (c ∷ cs) counts whole al = elim al [ ]
  pair_up-IsJob before i (f ∷ fs) [] counts whole al = elim al [ ]
  pair_up-IsJob before i (f ∷ fs) (c ∷ cs) counts whole (named, numbered, al) =
      let (enough, jobs) =
        pair_up-IsJob (before ++ c ∷ []) (i + 1) fs cs
          (omega (arith, counts, length-append before (c ∷ [])))
          (whole ∙ sym (append_assoc before (c ∷ []) cs)) al in
      (
        enough,
        (
          record {
            position = i;
            named = named;
            numbered = numbered;
            cut = ap₂ get_elem? whole counts ∙ get_elem?-append before c cs;
          },
          jobs,
        ),
      )

  -- Where every job is held, every fragment is stored.
  pub jobs-IsStored :
      (setup : Setup) (stores : GoMap Store) (i : ℕ) (fs : List Info) (cs : List Str)
      → Aligned key i fs cs
      → All (IsJob key chunks) (pair_up fs cs).0
      → All (Held setup stores) (pair_up fs cs).0
      → All (IsStored setup key chunks stores) fs
  unfolding pair_up
  jobs-IsStored setup stores i [] cs al js hs = tt
  jobs-IsStored setup stores i (f ∷ fs) [] al js hs = elim al [ ]
  jobs-IsStored setup stores i (f ∷ fs) (c ∷ cs) (named, numbered, al) (j, js) (h, hs) =
      (record { content = c; job = j; held = h }, jobs-IsStored setup stores (i + 1) fs cs al js hs)

-- A permutation of a list, read backwards.
abbrev arranged_back :
    (schedule : Schedule) {A : Type 0} (xs : List A) → Permᴰ xs (schedule.arrange A xs)
arranged_back schedule {A} xs = List.Permᴰ.symm (schedule.arrange_perm A xs)

-- The plan that the client has of an entry.
abbrev pub view : KeyEntry → KeyPlan
view e = record {
  key = e.key;
  total_size = e.total_size;
  chunk_size = e.chunk_size;
  fragments = e.fragments;
}

module _ (setup : Setup) (net : Network) (now : ℕ) (json : Json) (schedule : Schedule) (quorum : ℤ)
    (key : Str) (single : Lacks slash key) (plan : KeyPlan) (chunks : List Str)
    (al : Aligned key 0 plan.fragments chunks) where
  abbrev pub jobs : List (Info × Str)
  jobs = (pair_up plan.fragments chunks).0

  abbrev pub uploaded : World → World × Option Failure
  uploaded w = upload_all (services setup net now) quorum (schedule.arrange (Info × Str) jobs) w

  finish_put_done :
      (p : World × Option Failure)
      → (finish_put (services setup net now) json schedule quorum key p).1 ≡ none
      → (p.1 ≡ none)
        × (finish_put (services setup net now) json schedule quorum key p
            ≡ commit (services setup net now) json key p.0)
  finish_put_done (w, none) done = (refl, refl)
  finish_put_done (w, some e) done = absurd (cc done)

  -- A put of aligned chunks has a chunk for each fragment.
  pub put_chunks_runs :
      (w : World)
      → put_chunks (services setup net now) json schedule quorum key plan chunks w
        ≡ finish_put (services setup net now) json schedule quorum key (uploaded w)
  unfolding put_chunks
  put_chunks_runs w =
      let (enough, js) = pair_up-IsJob key chunks [] 0 plan.fragments chunks refl refl al in
      rw (put_chunks, enough) refl

  pub arranged-IsJob : All (IsJob key chunks) (schedule.arrange (Info × Str) jobs)
  arranged-IsJob =
      All-permᴰ (IsJob key chunks) (arranged_back schedule jobs)
        (pair_up-IsJob key chunks [] 0 plan.fragments chunks refl refl al).1

  -- A put of aligned chunks that succeeds has committed behind uploads that stored every fragment.
  pub put_chunks_done :
      (w : World)
      → (put_chunks (services setup net now) json schedule quorum key plan chunks w).1 ≡ none
      → (put_chunks (services setup net now) json schedule quorum key plan chunks w
          ≡ commit (services setup net now) json key (uploaded w).0)
        × All (IsStored setup key chunks (uploaded w).0.stores) plan.fragments
  unfolding put_chunks
  put_chunks_done w done =
      let (enough, js) = pair_up-IsJob key chunks [] 0 plan.fragments chunks refl refl al in
      let perm = schedule.arrange_perm (Info × Str) jobs in
      let runs = put_chunks_runs w in
      let (no_failure, commits) = finish_put_done (uploaded w) (ap (λ p. p.1) (sym runs) ∙ done) in
      let held =
        upload_all-Held setup net now quorum key chunks single (schedule.arrange (Info × Str) jobs)
          w arranged-IsJob no_failure in
      (
        runs ∙ commits,
        jobs-IsStored key chunks setup (uploaded w).0.stores 0 plan.fragments chunks al js
            (All-permᴰ (Held setup (uploaded w).0.stores) perm held),
      )

  -- A get of fragments that are stored writes the chunks in order.
  pub get_planned_stored :
      (w : World) (out : Str)
      → All (IsStored setup key chunks w.stores) plan.fragments
      → ((get_planned (services setup net now) json schedule quorum append plan w out).1
          ≡ out ++ flatten chunks)
        × ((get_planned (services setup net now) json schedule quorum append plan w out).2 ≡ none)
  unfolding get_planned
  get_planned_stored w out stored =
      let order = schedule.arrange Info plan.fragments in
      let f =
        downloads-Fetched setup net now key chunks single order [] w
          (All-permᴰ (IsStored setup key chunks w.stores) (arranged_back schedule plan.fragments)
            stored)
          tt in
      let each =
        All-permᴰ (λ g. Occurs g.index f.fetches) (schedule.arrange_perm Info plan.fragments)
          f.each in
      let writes =
        write_from-Aligned key f.fetches [] plan.fragments chunks 0 out refl al f.chunks_only
          each in
      rw (get_planned, f.no_failure) (ap (λ p. p.0) writes, ap (λ p. p.1) writes)
