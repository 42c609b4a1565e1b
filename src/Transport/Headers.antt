-- ===== src/Transport/Headers.antt =====
-- The headers of internal/transport/storaged_server.go: lists of addresses and numbers.
use frag_kv.Base.{
  Str, ℕ, zero, suc, ◌+◌, ◌*◌, ◌-◌, List, [], ◌∷◌, Bool, ◌==◌, ◌&&◌, ◌||◌, leb, if◌then◌else◌,
}
use frag_kv.Base.Int.{max_int64}

abbrev cons_first : ℕ → List Str → List Str
cons_first c [] = (c ∷ []) ∷ []
cons_first c (s ∷ parts) = (c ∷ s) ∷ parts

-- strings.Split, for a separator of one byte
unfoldable pub split_on : ℕ → Str → List Str
split_on sep [] = [] ∷ []
split_on sep (c ∷ s) =
    let rest = split_on sep s in if c == sep then [] ∷ rest else cons_first c rest

abbrev is_space : ℕ → Bool
is_space c = (c == 32) || leb 9 c && leb c 13

skip_space : Str → Str
skip_space [] = []
skip_space (c ∷ s) = let rest = skip_space s in if is_space c then rest else c ∷ s

trim_end : Str → Str
trim_end [] = []
trim_end (c ∷ s) = elim (trim_end s) [ [] ↦ if is_space c then [] else c ∷ [] | d ∷ t ↦ c ∷ d ∷ t ]

-- strings.TrimSpace, for ASCII
unfoldable pub trim_space : Str → Str
unfolding skip_space trim_end
trim_space s = trim_end (skip_space s)

abbrev is_digit : ℕ → Bool
is_digit c = leb 48 c && leb c 57

-- The number of the leading digits, behind `n`.
digits_value : ℕ → Str → ℕ
digits_value n [] = n
digits_value n (c ∷ s) =
    let next = digits_value (n * 10 + (c - 48)) s in if is_digit c then next else n

-- A sign is accepted; a negative number counts as 0.
signed_value : Str → ℕ
unfolding digits_value
signed_value [] = 0
signed_value (c ∷ s) =
    if c == b'+' then digits_value 0 s else if c == b'-' then 0 else digits_value 0 (c ∷ s)

-- fmt.Sscanf(s, "%d", &n) for an int, which leaves 0 where the number does not fit
scan_int : Str → ℕ
unfolding signed_value skip_space
scan_int s = let n = signed_value (skip_space s) in if leb n max_int64 then n else 0

-- parseIntHeader, for a default above 0
unfoldable pub parse_int_header : Str → ℕ → ℕ
unfolding scan_int
parse_int_header [] def = def
parse_int_header (c ∷ s) def = elim (scan_int (c ∷ s)) [ zero ↦ def | suc n ↦ suc n ]
