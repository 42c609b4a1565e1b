-- ===== src/Kvctl/Keys.antt =====
-- The keys that cmd/kvctl/main.go can write into the path of a URL as they are. net/url and net/http
-- leave a path of letters, digits, '-', '_', '.' and '~' alone, other than the names "." and "..".
use frag_kv.Base.{
  Str, ℕ, ◌≡◌, ◌≢◌, [], ◌∷◌, Bool, true, ◌||◌, ◌&&◌, ◌==◌, leb, arith, slash, Lacks, All, codes,
}

-- The unreserved bytes of a URL.
abbrev pub is_unreserved : ℕ → Bool
is_unreserved b =
    leb b'a' b && leb b b'z'
    || leb b'A' b && leb b b'Z'
    || leb b'0' b && leb b b'9'
    || b == b'-'
    || b == b'_'
    || b == b'.'
    || b == b'~'

pub record IsPlainKey (key : Str) : Type 0 where
  pub unreserved : All (λ b. is_unreserved b ≡ true) key
  pub named : key ≢ []
  pub not_here : key ≢ codes "."
  pub not_above : key ≢ codes ".."

unreserved_lacks : (s : Str) → All (λ b. is_unreserved b ≡ true) s → Lacks slash s
unreserved_lacks [] h = tt
unreserved_lacks (b ∷ s) (here, later) = (λ e. ground (arith, here, e), unreserved_lacks s later)

pub IsPlainKey-Lacks : {key : Str} → IsPlainKey key → Lacks slash key
IsPlainKey-Lacks {key} plain = unreserved_lacks key plain.unreserved
