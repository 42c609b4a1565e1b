-- ===== src/Kvctl/Downloads.antt =====
-- The downloads of a get of cmd/kvctl/main.go, in any order, and the file that it writes.
use mathlib.Core.Option.{some-injective}
use mathlib.Core.List.{Permᴰ, flatten}
use frag_kv.Base.{
  Str, ℕ, ◌+◌, ◌≡◌, ◌≢◌, refl, sym, ap, ◌∙◌, subst, List, [], ◌∷◌, ◌++◌, Option, none, some, arith,
  slash, Lacks, All, length, get_elem?, ◌⊎◌, inl, inr, ◌==◌, Bool-cases, str_eq_ne, append_assoc,
  append-nil, length-append,
}
use frag_kv.Base.GoMap.{GoMap}
use frag_kv.Storage.{Store}
use frag_kv.Fragment
use frag_kv.Fragment.{Fault, Info}
use frag_kv.Kvctl.{
  Result, ok, download_fragment, download_all, download_request, first_copy, fetched_at, write_from,
}
use frag_kv.Kvctl.Uploads.{IsJob, Held}
use frag_kv.Cluster.{Setup, Network, World, services, to_node}
use frag_kv.Cluster.Nodes.{KeptAt}
use frag_kv.Transport.{fragment_url, plain}
use frag_kv.Cluster.Requests.{download_keeps, download_answer}

pub All-permᴰ {ℓ κ} :
    {A : Type ℓ} (P : A → Type κ) {xs ys : List A} → Permᴰ xs ys → All P xs → All P ys
All-permᴰ P Permᴰ.nil h = tt
All-permᴰ P (Permᴰ.cons e p) (here, later) = (subst P e here, All-permᴰ P p later)
All-permᴰ P (Permᴰ.swap e f) (first, (second, later)) = (subst P f second, (subst P e first, later))
All-permᴰ P (Permᴰ.trans p q) h = All-permᴰ P q (All-permᴰ P p h)

-- The index was fetched.
abbrev pub Occurs : ℕ → List (ℕ × Str) → Type 0
Occurs i [] = ⊥
Occurs i ((j, c) ∷ fetches) = (j ≡ i) ⊎ Occurs i fetches

-- What was fetched are the chunks.
abbrev pub Right : List Str → List (ℕ × Str) → Type 0
Right chunks = All (λ p. get_elem? chunks p.0 ≡ some p.1)

fetched_at-Right :
    (chunks : List Str) (i : ℕ) (c : Str) (fetches : List (ℕ × Str))
    → get_elem? chunks i ≡ some c
    → Right chunks fetches
    → Occurs i fetches
    → fetched_at i fetches ≡ c
unfolding fetched_at
fetched_at-Right chunks i c [] cut right h = elim h [ ]
fetched_at-Right chunks i c ((j, d) ∷ fetches) cut (here, right) h = elim (Bool-cases (j == i)) [
  | inl same ↦
      let index : j ≡ i = ground arith in
      rw same (some-injective _ _ (sym here ∙ ap (get_elem? chunks) index ∙ cut))
  | inr other ↦ rw other (elim h [
    | inl index ↦ absurd (ground (arith, index))
    | inr later ↦ fetched_at-Right chunks i c fetches cut right later
  ])
]

-- A fragment whose chunk the node at its first address holds.
pub record IsStored (setup : Setup) (key : Str) (chunks : List Str) (stores : GoMap Store)
    (f : Info) : Type 0 where
  pub content : Str
  pub job : IsJob key chunks (f, content)
  pub held : Held setup stores (f, content)

module _ (setup : Setup) (net : Network) (now : ℕ) (key : Str) (chunks : List Str)
    (single : Lacks slash key) where
  abbrev download : Info → World → World × Result Str
  download = download_fragment (services setup net now)

  abbrev downloads : List Info → List (ℕ × Str) → World → World × Result (List (ℕ × Str))
  downloads = download_all (services setup net now)

  abbrev pub asked : Info → Str → World → World
  asked f primary w = record w {
    stores = (to_node setup net now primary (download_request f.id) w.stores).0;
  }

  first_copy_runs :
      (id primary content : Str) (replicas : List Str) (w : World)
      → primary ≢ []
      → (to_node setup net now primary (download_request id) w.stores).1 ≡ some (200, plain content)
      → first_copy (services setup net now) id (primary ∷ replicas) w ≡ (
        record w { stores = (to_node setup net now primary (download_request id) w.stores).0 },
        some content,
      )
  unfolding first_copy
  first_copy_runs id primary content replicas w host answer =
      rw (first_copy, str_eq_ne primary [] host, answer) refl

  -- The first address returns the chunk.
  download_runs :
      (f : Info) (w : World) (st : IsStored setup key chunks w.stores f)
      → download f w ≡ (asked f st.held.primary w, ok st.content)
  unfolding download_fragment
  download_runs f w st =
      let held = st.held in
      let answer =
        download_answer setup net now key chunks single held.primary (download_request f.id)
          w.stores st.job.position refl (ap (fragment_url []) st.job.named) st.content held.host
          (subst (λ id. KeptAt setup.metas id st.content held.primary w.stores) st.job.named
            held.kept) in
      let copied =
        ap (λ addrs. first_copy (services setup net now) f.id addrs w) held.addressed
        ∙ first_copy_runs f.id held.primary st.content held.replicas w held.host answer in
      rw (download_fragment, copied) (ap (λ p. (p.0, ok st.content)) copied)

  asked-IsStored :
      (f g : Info) (w : World) (st : IsStored setup key chunks w.stores f)
      → IsStored setup key chunks w.stores g
      → IsStored setup key chunks (asked f st.held.primary w).stores g
  asked-IsStored f g w st sg = record {
    content = sg.content;
    job = sg.job;
    held = record {
      primary = sg.held.primary;
      replicas = sg.held.replicas;
      addressed = sg.held.addressed;
      host = sg.held.host;
      kept =
          download_keeps setup net now key chunks single st.held.primary (download_request f.id)
            w.stores st.job.position refl (ap (fragment_url []) st.job.named) g.id sg.content
            sg.held.primary sg.held.kept;
    };
  }

  pub all_asked :
      (fs : List Info) (f : Info) (w : World) (st : IsStored setup key chunks w.stores f)
      → All (IsStored setup key chunks w.stores) fs
      → All (IsStored setup key chunks (asked f st.held.primary w).stores) fs
  all_asked [] f w st h = tt
  all_asked (g ∷ fs) f w st (h, hs) = (asked-IsStored f g w st h, all_asked fs f w st hs)

  -- What the downloads of a get return: nothing but chunks, those that were there before, and one for
  -- each fragment.
  pub record Fetched (fs : List Info) (before : List (ℕ × Str)) (result : Result (List (ℕ × Str)))
      : Type 0 where
    pub fetches : List (ℕ × Str)
    pub no_failure : result ≡ ok fetches
    pub chunks_only : Right chunks fetches
    pub still : (i : ℕ) → Occurs i before → Occurs i fetches
    pub each : All (λ f. Occurs f.index fetches) fs

  -- The downloads of fragments that are stored succeed, whatever their order.
  pub downloads-Fetched :
      (fs : List Info) (before : List (ℕ × Str)) (w : World)
      → All (IsStored setup key chunks w.stores) fs
      → Right chunks before
      → Fetched fs before (downloads fs before w).1
  unfolding download_all
  downloads-Fetched [] before w h right = record {
    fetches = before;
    no_failure = refl;
    chunks_only = right;
    still = λ i o. o;
    each = tt;
  }
  downloads-Fetched (f ∷ fs) before w (st, sts) right =
      let fetched : List (ℕ × Str) = (f.index, st.content) ∷ before in
      let cut : get_elem? chunks f.index ≡ some st.content =
        ap (get_elem? chunks) st.job.numbered ∙ st.job.cut in
      let later =
        downloads-Fetched fs fetched (asked f st.held.primary w) (all_asked fs f w st sts)
          (cut, right) in
      record {
        fetches = later.fetches;
        no_failure =
            rw (download_all, download_runs f w st)
              (ap (λ p. (downloads fs fetched p.0).1) (download_runs f w st) ∙ later.no_failure);
        chunks_only = later.chunks_only;
        still = λ i o. later.still i (inr o);
        each = (later.still f.index (inl refl), later.each);
      }

-- out.Write on a file that takes every byte.
abbrev pub append : Str → Str → Str × Option Fault
append content out = (out ++ content, none)

-- The fragments of a plan from index `i` on, and their chunks.
abbrev pub Aligned : Str → ℕ → List Info → List Str → Type 0
Aligned key i [] [] = Unit
Aligned key i [] (c ∷ cs) = ⊥
Aligned key i (f ∷ fs) [] = ⊥
Aligned key i (f ∷ fs) (c ∷ cs) =
    (f.id ≡ Fragment.id key i) × (f.index ≡ i) × Aligned key (i + 1) fs cs

pub get_elem?-append :
    (before : List Str) (c : Str) (cs : List Str)
    → get_elem? (before ++ c ∷ cs) (length before) ≡ some c
get_elem?-append [] c cs = refl
get_elem?-append (b ∷ before) c cs = get_elem?-append before c cs

-- The loop of a get writes the chunks in order.
pub write_from-Aligned :
    (key : Str) (fetches : List (ℕ × Str)) (before : List Str) (fs : List Info) (cs : List Str)
    (i : ℕ) (out : Str)
    → i ≡ length before
    → Aligned key i fs cs
    → Right (before ++ cs) fetches
    → All (λ f. Occurs f.index fetches) fs
    → write_from append fetches (length fs) i out ≡ (out ++ flatten cs, none)
unfolding write_from flatten
write_from-Aligned key fetches before [] [] i out e al right each =
    ap (λ (t : Str). (t, none)) (sym (append-nil out))
write_from-Aligned key fetches before [] (c ∷ cs) i out e al right each = elim al [ ]
write_from-Aligned key fetches before (f ∷ fs) [] i out e al right each = elim al [ ]
write_from-Aligned key fetches before (f ∷ fs) (c ∷ cs) i out e (named, index, al) right
      (occurs, each) =
    let cut = ap (get_elem? (before ++ c ∷ cs)) e ∙ get_elem?-append before c cs in
    let read =
      fetched_at-Right (before ++ c ∷ cs) i c fetches cut right
        (subst (λ j. Occurs j fetches) index occurs) in
    rw read (
      write_from-Aligned key fetches (before ++ c ∷ []) fs cs (i + 1) (out ++ c)
        (omega (arith, e, length-append before (c ∷ []))) al
        (subst (λ (t : List Str). Right t fetches) (sym (append_assoc before (c ∷ []) cs)) right)
        each
      ∙ ap (λ (t : Str). (t, none)) (append_assoc out c (flatten cs)))
