-- ===== src/Base/Decimal.antt =====
-- The verb %d of package fmt at a number that is not negative: its shortest decimal text.
use Prim.Native.Nat.{ℕ, zero, suc, ◌+◌, ◌-◌, ◌*◌, ◌/◌, ◌%◌, ◌≤◌, ◌<◌}
use mathlib.Core.Path.{◌≡◌, refl, sym, ap, ◌∙◌, subst}
use mathlib.Core.Logic.{◌⊎◌, inl, inr}
use mathlib.Core.List.{[], ◌∷◌, ◌++◌}
use native.Mathlib.Omega.{arith}
use frag_kv.Base.Tests.{ltb, if◌then◌else◌, Bool-cases}
use frag_kv.Base.Lists.{All, All-append}
use frag_kv.Base.Text.{Str, Lacks, codes}

-- The fuel counts the digits still allowed; a number below its fuel never uses it up.
digits : ℕ → ℕ → Str
digits zero n = []
digits (suc f) n =
    let more = digits f (n / 10) ++ (b'0' + n % 10) ∷ [] in
    if ltb n 10 then (b'0' + n) ∷ [] else more

unfoldable pub itoa : ℕ → Str
unfolding digits
itoa n = digits (n + 1) n

-- The number that decimal digits spell behind `n`.
read : ℕ → Str → ℕ
read n [] = n
read n (c ∷ s) = read (n * 10 + (c - b'0')) s

read-snoc : (n : ℕ) (s : Str) (c : ℕ) → read n (s ++ c ∷ []) ≡ read n s * 10 + (c - b'0')
unfolding read
read-snoc n [] c = refl
read-snoc n (d ∷ s) c = read-snoc (n * 10 + (d - b'0')) s c

read-digits : (f n : ℕ) → n < f → read 0 (digits f n) ≡ n
unfolding digits
read-digits zero n h = elim h [ ]
read-digits (suc f) n h = elim (Bool-cases (ltb n 10)) [
  | inl small ↦ rw small (unfold read in omega arith)
  | inr big ↦
      rw big
        (ground (arith, read-snoc 0 (digits f (n / 10)) (b'0' + n % 10), read-digits f (n / 10)))
]

abbrev pub IsDigit : ℕ → Type 0
IsDigit c = (b'0' ≤ c) × (c ≤ b'9')

digits-IsDigit : (f n : ℕ) → All IsDigit (digits f n)
unfolding digits
digits-IsDigit zero n = tt
digits-IsDigit (suc f) n = elim (Bool-cases (ltb n 10)) [
  | inl small ↦ rw small (ground arith)
  | inr big ↦
      rw big (All-append IsDigit (digits f (n / 10)) _ (digits-IsDigit f (n / 10)) (omega arith))
]

pub itoa-IsDigit : (n : ℕ) → All IsDigit (itoa n)
unfolding itoa
itoa-IsDigit n = digits-IsDigit (n + 1) n

pub IsDigit-Lacks : (b : ℕ) (s : Str) → b < b'0' ⊎ b'9' < b → All IsDigit s → Lacks b s
IsDigit-Lacks b [] out h = tt
IsDigit-Lacks b (c ∷ s) out h = (λ e. omega arith, IsDigit-Lacks b s out h.1)

-- The last byte of a text, or `b` where it is empty.
unfoldable pub last : ℕ → Str → ℕ
last b [] = b
last b (c ∷ s) = last c s

pub last-append : (b c : ℕ) (s t : Str) → last b (s ++ c ∷ t) ≡ last c t
unfolding last
last-append b c [] t = refl
last-append b c (d ∷ s) t = last-append d c s t

last-digits-IsDigit : (b f n : ℕ) → IsDigit (last b (digits (suc f) n))
unfolding digits last
last-digits-IsDigit b f n = elim (Bool-cases (ltb n 10)) [
  | inl small ↦ rw small (ground arith)
  | inr big ↦ rw (big, last-append b (b'0' + n % 10) (digits f (n / 10)) []) (omega arith)
]

pub last-itoa-IsDigit : (b n : ℕ) → IsDigit (last b (itoa n))
unfolding itoa
last-itoa-IsDigit b n =
    subst (λ f. IsDigit (last b (digits f n))) {x = suc n} (omega arith) (last-digits-IsDigit b n n)

-- Two numbers with one decimal text are equal.
pub itoa_injective : (m n : ℕ) → itoa m ≡ itoa n → m ≡ n
unfolding itoa
itoa_injective m n h =
    sym (read-digits (m + 1) m (omega arith)) ∙ ap (read 0) h ∙ read-digits (n + 1) n (omega arith)

itoa_1205 : itoa 1205 ≡ codes "1205"
unfolding itoa
itoa_1205 = refl
