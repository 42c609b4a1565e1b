-- ===== src/Base/Encode.antt =====
-- Encodings of values that are read back: instances of `Codec`, with which examples are run.
use Prim.Native.Nat.{ℕ, zero, suc}
use mathlib.Core.Path.{◌≡◌, refl, ap, ◌∙◌}
use mathlib.Core.Option.{Option, none, some}
use mathlib.Core.List.{List, [], ◌∷◌}
use mathlib.Core.Bool.{Bool, true, false}
use frag_kv.Base.Text.{Str}
use frag_kv.Base.Lists.{length}
use frag_kv.Base.Codec.{Codec}
use frag_kv.Base.Int.{ℤ, pos, negsuc}

-- A value in front of a text, and back.
pub record Encoding (A : Type 0) : Type 0 where
  pub put : A → Str → Str
  pub take : Str → Option (A × Str)
  pub take-put : (a : A) (rest : Str) → take (put a rest) ≡ some (a, rest)

abbrev take_nat : Str → Option (ℕ × Str)
take_nat [] = none
take_nat (n ∷ rest) = some (n, rest)

abbrev pub nat : Encoding ℕ
nat = record { put = λ n rest. n ∷ rest; take = take_nat; take-put = λ n rest. refl }

abbrev first_of : {A : Type 0} → Option (A × Str) → Option A
first_of none = none
first_of (some (a, rest)) = some a

abbrev mapped : {A B : Type 0} → (B → A) → Option (B × Str) → Option (A × Str)
mapped g none = none
mapped g (some (b, rest)) = some (g b, rest)

abbrev then_take :
    {A B : Type 0} → (Str → Option (B × Str)) → Option (A × Str) → Option ((A × B) × Str)
then_take take none = none
then_take take (some (a, s)) = mapped (λ b. (a, b)) (take s)

abbrev pub pair : {A B : Type 0} → Encoding A → Encoding B → Encoding (A × B)
pair e f = record {
  put = λ p rest. e.put p.0 (f.put p.1 rest);
  take = λ s. then_take f.take (e.take s);
  take-put = λ p rest.
      ap (then_take f.take) (e.take-put p.0 (f.put p.1 rest))
      ∙ ap (mapped (λ b. (p.0, b))) (f.take-put p.1 rest);
}

-- An encoding by way of another type.
abbrev pub via :
    {A B : Type 0} → (f : A → B) (g : B → A) → ((a : A) → g (f a) ≡ a) → Encoding B → Encoding A
via f g back e = record {
  put = λ a rest. e.put (f a) rest;
  take = λ s. mapped g (e.take s);
  take-put = λ a rest. ap (mapped g) (e.take-put (f a) rest) ∙ ap (λ x. some (x, rest)) (back a);
}

abbrev cons_to : {A : Type 0} → A → Option (List A × Str) → Option (List A × Str)
cons_to a none = none
cons_to a (some (xs, rest)) = some (a ∷ xs, rest)

module _ {A : Type 0} (e : Encoding A) where
  unfoldable pub put_all : List A → Str → Str
  put_all [] rest = rest
  put_all (x ∷ xs) rest = e.put x (put_all xs rest)

  unfoldable pub then_all : (Str → Option (List A × Str)) → Option (A × Str) → Option (List A × Str)
  then_all later none = none
  then_all later (some (a, s)) = cons_to a (later s)

  unfoldable pub take_all : ℕ → Str → Option (List A × Str)
  unfolding then_all
  take_all zero s = some ([], s)
  take_all (suc n) s = then_all (take_all n) (e.take s)

  unfoldable pub take_counted : Str → Option (List A × Str)
  take_counted [] = none
  take_counted (n ∷ s) = take_all n s

  pub take_all-put_all :
      (xs : List A) (rest : Str) → take_all (length xs) (put_all xs rest) ≡ some (xs, rest)
  unfolding take_all put_all then_all
  take_all-put_all [] rest = refl
  take_all-put_all (x ∷ xs) rest =
      ap (then_all (take_all (length xs))) (e.take-put x (put_all xs rest))
      ∙ ap (cons_to x) (take_all-put_all xs rest)

  unfoldable pub list : Encoding (List A)
  unfolding take_counted
  list = record {
    put = λ xs rest. length xs ∷ put_all xs rest;
    take = take_counted;
    take-put = take_all-put_all;
  }

abbrev pub str : Encoding Str
str = list nat

abbrev list_of : {A : Type 0} → Option A → List A
list_of none = []
list_of (some a) = a ∷ []

abbrev option_of : {A : Type 0} → List A → Option A
option_of [] = none
option_of (a ∷ xs) = some a

pub option_back : {A : Type 0} (o : Option A) → option_of (list_of o) ≡ o
option_back none = refl
option_back (some a) = refl

abbrev pub option : {A : Type 0} → Encoding A → Encoding (Option A)
option e = via list_of option_of option_back (list e)

abbrev of_bool : Bool → ℕ
of_bool false = 0
of_bool true = 1

abbrev to_bool : ℕ → Bool
to_bool zero = false
to_bool (suc n) = true

pub bool_back : (b : Bool) → to_bool (of_bool b) ≡ b
bool_back false = refl
bool_back true = refl

abbrev pub bool : Encoding Bool
bool = via of_bool to_bool bool_back nat

abbrev of_int : ℤ → Bool × ℕ
of_int (pos n) = (true, n)
of_int (negsuc n) = (false, n)

abbrev to_int : Bool × ℕ → ℤ
to_int (true, n) = pos n
to_int (false, n) = negsuc n

pub int_back : (z : ℤ) → to_int (of_int z) ≡ z
int_back (pos n) = refl
int_back (negsuc n) = refl

abbrev pub int : Encoding ℤ
int = via of_int to_int int_back (pair bool nat)

abbrev pub codec_of : {A : Type 0} → Encoding A → Codec A
codec_of e = record {
  marshal = λ a. e.put a [];
  unmarshal = λ s. first_of (e.take s);
  unmarshal-marshal = λ a. ap first_of (e.take-put a []);
}
