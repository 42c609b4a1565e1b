-- ===== src/Metadata/System/Logged.antt =====
-- Logs: a catalog that another one becomes by entries of the log alone.
use frag_kv.Base.{Str, ◌≡◌, refl, sym, ap, ◌∙◌, List, [], ◌∷◌, ◌++◌}
use frag_kv.Base.Codec.{Codec}
use frag_kv.Metadata.Types.{Catalog, Command}
use frag_kv.Metadata.Fsm.{apply_log, replay}
use frag_kv.Metadata.Fsm.Replay.{replay-append}
use frag_kv.Metadata.System.Kept.{Relation}

module _ (json : Codec Command) where
  -- The second catalog is the first with the entries of some log applied.
  pub record IsLogged (s t : Catalog) : Type 0 where
    pub log : List Str
    pub gives : t ≡ replay json log s

  pub unchanged : (s : Catalog) → IsLogged s s
  unfolding replay
  unchanged s = record { log = []; gives = refl }

  pub one_entry : (entry : Str) (s : Catalog) → IsLogged s (apply_log json entry s).0
  unfolding replay
  one_entry entry s = record { log = entry ∷ []; gives = refl }

  pub followed : {s t u : Catalog} → IsLogged s t → IsLogged t u → IsLogged s u
  followed {s} first later = record {
    log = first.log ++ later.log;
    gives =
        later.gives
        ∙ ap (replay json later.log) first.gives
        ∙ sym (replay-append json first.log later.log s);
  }

  abbrev pub logged : Relation
  logged = record {
    Rel = IsLogged;
    same = unchanged;
    after = λ s t u first later. followed first later;
  }
