-- ===== src/Fragment.antt =====
-- internal/fragment/fragment.go: fragments of a value, `Split` and `Assemble`. A reader is the bytes
-- that it still holds and the error, if any, that it ends with; a callback is a function of a state
-- of its own. `Split` loops on fuel, and `none` means that the fuel ran out.
pub mod Ids
pub mod Chunks
pub mod Splits
pub mod Collects
pub mod RoundTrip
pub mod Tests
use frag_kv.Base.{
  Str, ℕ, zero, suc, ◌+◌, List, [], ◌∷◌, ◌++◌, Option, none, some, slash, length, take, drop, leb,
  if◌then◌else◌,
}
use frag_kv.Base.Decimal.{itoa}
use frag_kv.Base.Int.{ℤ, pos, negsuc, ◌+ℤ◌}

-- An error of the code around the program: of a reader, a file system, a peer.
abbrev pub Fault : Type 0
Fault = ℕ

-- DefaultChunkSize
abbrev pub default_chunk_size : ℕ
default_chunk_size = 8388608

-- ID
unfoldable pub id : Str → ℕ → Str
id key index = key ++ slash ∷ itoa index

pub record Info : Type 0 where
  pub id : Str
  pub key : Str
  pub index : ℕ
  pub size : ℤ
  pub node_ids : List Str
  pub node_addrs : List Str

pub record Plan : Type 0 where
  pub key : Str
  pub total_size : ℤ
  pub chunk_size : ℤ
  pub fragments : List Info

pub record Reader : Type 0 where
  pub unread : Str
  pub fault : Option Fault

pub data ReadError : Type 0 where
  eof unexpected_eof : ReadError
  broken : Fault → ReadError

-- What a reader reports behind its last byte, when `n` bytes of the buffer are filled.
abbrev end_error : List ℕ → Option Fault → ReadError
end_error chunk (some e) = broken e
end_error [] none = eof
end_error (c ∷ s) none = unexpected_eof

-- io.ReadFull with a buffer of `size` bytes: the bytes read, the error and the reader after it.
unfoldable pub read_full : ℕ → Reader → Str × Option ReadError × Reader
read_full size r =
    if leb size (length r.unread)
    then (take size r.unread, none, record r { unread = drop size r.unread })
    else (r.unread, some (end_error r.unread r.fault), record r { unread = [] })

pub data SplitError (E : Type 0) : Type 0 where
  callback : E → SplitError E
  reading : Fault → SplitError E

pub record Outcome (S E : Type 0) : Type 0 where
  pub plan : Plan
  pub error : Option (SplitError E)
  pub state : S

-- `chunkSize <= 0` means the default.
unfoldable pub effective_size : ℤ → ℤ
effective_size (pos zero) = pos default_chunk_size
effective_size (pos (suc n)) = pos (suc n)
effective_size (negsuc n) = pos default_chunk_size

abbrev pub bytes_of : ℤ → ℕ
bytes_of (pos n) = n
bytes_of (negsuc n) = 0

unfoldable pub new_info : Str → ℕ → Str → Info
new_info key index chunk = record {
  id = id key index;
  key = key;
  index = index;
  size = pos (length chunk);
  node_ids = [];
  node_addrs = [];
}

-- plan.Fragments = append(plan.Fragments, info); plan.TotalSize += int64(n)
unfoldable pub add_info : Str → Plan → ℕ → Str → Plan
unfolding new_info
add_info key plan index chunk = record plan {
  fragments = plan.fragments ++ new_info key index chunk ∷ [];
  total_size = plan.total_size +ℤ pos (length chunk);
}

module _ {S E : Type 0} (key : Str) (size : ℕ) (fn : ℕ → Str → S → S × Option E) where
  -- One round of the loop behind the callback: the error of the read decides.
  abbrev pub after_read : Option ReadError → Plan → S → Option (Outcome S E) → Option (Outcome S E)
  after_read none plan s next = next
  after_read (some eof) plan s next = some (record { plan = plan; error = none; state = s })
  after_read (some unexpected_eof) plan s next =
      some (record { plan = plan; error = none; state = s })
  after_read (some (broken e)) plan s next =
      some (record { plan = plan; error = some (reading e); state = s })

  unfoldable pub split_loop : ℕ → Reader → Plan → ℕ → S → Option (Outcome S E)
  unfolding read_full
  split_loop zero r plan index s = none
  split_loop (suc fuel) r plan index s =
      let (chunk, err, r') = read_full size r in
      elim chunk [
        | [] ↦ (let next = split_loop fuel r' plan index s in after_read err plan s next)
        | c ∷ cs ↦
            (let plan' = add_info key plan index (c ∷ cs) in
              let (s', ferr) = fn index (c ∷ cs) s in
              elim ferr [
                | some e ↦ some (record { plan = plan'; error = some (callback e); state = s' })
                | none ↦
                    (let next = split_loop fuel r' plan' (index + 1) s' in
                      after_read err plan' s' next)
              ])
      ]

-- Split. A chunk holds at least one byte, so the rounds are at most one more than the bytes.
unfoldable pub split :
    {S E : Type 0} → Str → Reader → ℤ → (ℕ → Str → S → S × Option E) → S → Option (Outcome S E)
unfolding effective_size
split key r chunk_size fn s =
    let size = effective_size chunk_size in
    split_loop key (bytes_of size) fn (length r.unread + 1) r
      (record { key = key; total_size = pos 0; chunk_size = size; fragments = [] }) 0 s

pub data Fetched : Type 0 where
  bytes : Str → Fetched
  fetch_failed : Fault → Fetched

pub data AssembleError : Type 0 where
  fetching writing : Str → Fault → AssembleError

module _ {W : Type 0} (write : Str → W → W × Option Fault) (fetch : Str → Fetched) where
  -- Assemble: the writer after the run, and the error that ended it.
  unfoldable pub assemble : W → List Info → W × Option AssembleError
  assemble w [] = (w, none)
  assemble w (f ∷ fs) = elim (fetch f.id) [
    | fetch_failed e ↦ (w, some (fetching f.id e))
    | bytes chunk ↦
        (let (w', err) = write chunk w in
          elim err [ some e ↦ (w', some (writing f.id e)) | none ↦ assemble w' fs ])
  ]
