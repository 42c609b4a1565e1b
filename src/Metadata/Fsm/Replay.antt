-- ===== src/Metadata/Fsm/Replay.antt =====
-- Snapshots of internal/metadata/fsm.go against the log.
use frag_kv.Base.{Str, ◌≡◌, refl, List, [], ◌∷◌, ◌++◌, true}
use frag_kv.Base.Codec.{Codec}
use frag_kv.Metadata.Types.{Catalog, Command, new_state}
use frag_kv.Metadata.Fsm.{apply_log, replay, snapshot, restore}

pub replay-append :
    (json : Codec Command) (before later : List Str) (s : Catalog)
    → replay json (before ++ later) s ≡ replay json later (replay json before s)
unfolding replay
replay-append json [] later s = refl
replay-append json (entry ∷ before) later s =
    replay-append json before later (apply_log json entry s).0

restored : (json : Codec Catalog) (s old : Catalog) → restore json (snapshot json s) old ≡ (s, true)
unfolding restore snapshot
restored json s old = rw (json.unmarshal-marshal s, restore)

-- A replica that restores a snapshot, whatever state it had, and applies the entries behind it, has
-- the state of one that applied the whole log; and the restore reports success.
pub restore-snapshot :
    (json : Codec Command) (json' : Codec Catalog) (before later : List Str) (old : Catalog)
    → (replay json later (restore json' (snapshot json' (replay json before new_state)) old).0
        ≡ replay json (before ++ later) new_state)
      × ((restore json' (snapshot json' (replay json before new_state)) old).1 ≡ true)
restore-snapshot json json' before later old =
    let same = restored json' (replay json before new_state) old in
    (rw (same, replay-append json before later new_state), rw same)
