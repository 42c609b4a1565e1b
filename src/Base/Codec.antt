-- ===== src/Base/Codec.antt =====
-- What the program relies on of encoding/json: what it has encoded is decoded to the same value.
use mathlib.Core.Path.{◌≡◌}
use mathlib.Core.Option.{Option, some}
use frag_kv.Base.Text.{Str}

pub record Codec (A : Type 0) : Type 0 where
  pub marshal : A → Str
  pub unmarshal : Str → Option A
  pub unmarshal-marshal : (a : A) → unmarshal (marshal a) ≡ some a
