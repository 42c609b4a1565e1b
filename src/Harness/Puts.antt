-- ===== src/Harness/Puts.antt =====
-- The uploads and the commit of PutValue of experiments/harness/harness.go against the whole system.
use mathlib.Core.Option
use mathlib.Core.Option.{some-injective}
use frag_kv.Base.{
  List-cases, Str, ℕ, ◌≡◌, ◌≢◌, refl, sym, ap, ◌∙◌, List, [], ◌∷◌, Option, none, some, All,
  Bool-cases, inl, inr, str_eq,
}
use frag_kv.Base.Codec.{Codec}
use frag_kv.Base.Int.{ℤ}
use frag_kv.Fragment.{Info}
use frag_kv.Metadata.Setup.{Raft}
use frag_kv.Metadata.Types.{KeyEntry, Catalog, Command, bare, commit_key}
use frag_kv.Metadata.Fsm.{get_key, commit_entry, apply_command, apply_log}
use frag_kv.Metadata.Fsm.Lookups.{apply_pointwise}
use frag_kv.Metadata.Store.{commit_key_op}
use frag_kv.Metadata.System.Kept.{Relation, apply-keeps}
use frag_kv.Kvctl.{Failure, upload_fragment, upload_all}
use frag_kv.Kvctl.Uploads.{first_failure-none}
use frag_kv.Metadata.System.Heard.{decoded}
use frag_kv.Cluster.{Setup, Network, World, services}
use frag_kv.Kvctl.{Json}
use frag_kv.Harness.{send, send_all}

-- What a commit leaves of the entry of a key: all but its mark.
abbrev pub marked_entry : Str → Catalog → Option KeyEntry
marked_entry key s = Option.map commit_entry (get_key key s)

abbrev marks_only : Str → Relation
marks_only key = record {
  Rel = λ s t. marked_entry key t ≡ marked_entry key s;
  same = λ s. refl;
  after = λ s t u first later. later ∙ first;
}

marked_twice :
    (o : Option KeyEntry)
    → Option.map commit_entry (Option.map commit_entry o) ≡ Option.map commit_entry o
marked_twice none = refl
marked_twice (some e) = refl

abbrev commit_of : Str → Command
commit_of name = record (bare commit_key) { key = name }

-- A commit changes no more of the entry of a key than its mark, whatever becomes of the command.
pub commit_marks :
    (json : Codec Command) (raft : Raft) (name key : Str) (s : Catalog)
    → marked_entry key (commit_key_op json raft name s).0 ≡ marked_entry key s
unfolding commit_key_op apply_log
commit_marks json raft name key s =
    apply-keeps json (marks_only key) raft (commit_of name)
      (λ t. ap (marked_entry key) (decoded json (commit_of name) t) ∙ marks t) s
  where
    marks : (t : Catalog) → marked_entry key (apply_command (commit_of name) t) ≡ marked_entry key t
    marks t =
        ap (Option.map commit_entry) ((apply_pointwise (commit_of name) t).0 key)
        ∙ elim (Bool-cases (str_eq name key)) [
          | inl same ↦ rw same (marked_twice (get_key key t))
          | inr other ↦ rw other refl
        ]

-- A fragment with an address.
abbrev pub IsAddressed : Info → Type 0
IsAddressed f = f.node_addrs ≢ []

module _ (setup : Setup) (net : Network) (now : ℕ) (json : Json) (quorum : ℤ) where
  -- For a fragment with an address, PutValue uploads like kvctl.
  send_uploads :
      (f : Info) (c : Str) (w : World)
      → IsAddressed f
      → send (services setup net now) json quorum f c w
        ≡ upload_fragment (services setup net now) f c quorum w
  unfolding send upload_fragment
  send_uploads f c w addressed = elim (List-cases f.node_addrs) [
    | inl nowhere ↦ absurd (addressed nowhere)
    | inr (primary, replicas, addrs) ↦ rw (send, upload_fragment, addrs) refl
  ]

  pub send_all_uploads :
      (jobs : List (Info × Str)) (w : World)
      → All (λ job. IsAddressed job.0) jobs
      → ((send_all (services setup net now) json quorum jobs w).0
          ≡ (upload_all (services setup net now) quorum jobs w).0)
        × ((send_all (services setup net now) json quorum jobs w).1 ≡ none
            → (upload_all (services setup net now) quorum jobs w).1 ≡ none)
  unfolding send_all upload_all
  send_all_uploads [] w _ = (refl, λ e. refl)
  send_all_uploads ((f, c) ∷ jobs) w (addressed, more) =
      let first = send_uploads f c w addressed in
      let w' = (send (services setup net now) json quorum f c w).0 in
      let (same, none_later) = send_all_uploads jobs w' more in
      (
        same
            ∙ ap
                (λ (p : World × Option Failure).
                  (upload_all (services setup net now) quorum jobs p.0).0)
                first,
        λ done.
            let (sent, later) = first_failure-none _ _ done in
            let sent' = ap (λ p. p.1) (sym first) ∙ sent in
            rw sent' (
              ap
                (λ (p : World × Option Failure).
                  (upload_all (services setup net now) quorum jobs p.0).1)
                (sym first)
              ∙ none_later later),
      )

send_catalog :
    (setup : Setup) (net : Network) (now : ℕ) (json : Json) (quorum : ℤ) (f : Info) (c : Str)
    (w : World)
    → (send (services setup net now) json quorum f c w).0.catalog ≡ w.catalog
unfolding send
send_catalog setup net now json quorum f c w = elim (List-cases f.node_addrs) [
  | inl nowhere ↦ rw (send, nowhere) refl
  | inr (primary, replicas, addrs) ↦ rw (send, addrs) refl
]

pub send_all_catalog :
    (setup : Setup) (net : Network) (now : ℕ) (json : Json) (quorum : ℤ) (jobs : List (Info × Str))
    (w : World)
    → (send_all (services setup net now) json quorum jobs w).0.catalog ≡ w.catalog
unfolding send_all
send_all_catalog setup net now json quorum [] w = refl
send_all_catalog setup net now json quorum ((f, c) ∷ jobs) w =
    send_all_catalog setup net now json quorum jobs
      (send (services setup net now) json quorum f c w).0
    ∙ send_catalog setup net now json quorum f c w
