-- ===== src/Prelude/Bytes.antt =====
-- Text as the list of its bytes: Go's slices, and what the packages use of `strings`.
use Prim.Native.Char.{code}
use Prim.Native.Nat.{ℕ, zero, suc, ◌-◌}
use Prim.Native.String.{String}
use mathlib.Core.Path.{◌≡◌, refl, ap}
use mathlib.Core.Bool.{Bool, true, false, ◌&&◌}
use mathlib.Core.List.{List, [], ◌∷◌, ◌++◌}
use mathlib.Core.Option.{Option, none, some}
use native.Mathlib.Omega.{arith}
use goplatform.Prelude.Tests.{◌==◌, leb, if◌then◌else◌}
use goplatform.Prelude.Lists.{length, length-append, All}

-- The bytes of an ASCII text.
abbrev pub codes : String → List ℕ
codes String.[] = []
codes (String.◌∷◌ c s) = code c ∷ codes s

abbrev pub eq_bytes : List ℕ → List ℕ → Bool
eq_bytes [] [] = true
eq_bytes [] (y ∷ ys) = false
eq_bytes (x ∷ xs) [] = false
eq_bytes (x ∷ xs) (y ∷ ys) = (x == y) && eq_bytes xs ys

-- s[:n] and s[n:]
abbrev pub take : ℕ → List ℕ → List ℕ
take zero s = []
take (suc n) [] = []
take (suc n) (c ∷ cs) = c ∷ take n cs

abbrev pub drop : ℕ → List ℕ → List ℕ
drop zero s = s
drop (suc n) [] = []
drop (suc n) (c ∷ cs) = drop n cs

-- What is left of a text after a prefix, if it has that prefix: strings.HasPrefix and strings.TrimPrefix.
unfoldable pub after_prefix : List ℕ → List ℕ → Option (List ℕ)
after_prefix [] s = some s
after_prefix (p ∷ ps) [] = none
after_prefix (p ∷ ps) (c ∷ cs) = let rest = after_prefix ps cs in if p == c then rest else none

-- strings.HasSuffix
unfoldable pub has_suffix : List ℕ → List ℕ → Bool
has_suffix s suffix =
    leb (length suffix) (length s) && eq_bytes (drop (length s - length suffix) s) suffix

abbrev pub one_more : Option ℕ → Option ℕ
one_more none = none
one_more (some i) = some (suc i)

-- strings.IndexByte, with none for -1.
unfoldable pub index_byte : List ℕ → ℕ → Option ℕ
index_byte [] b = none
index_byte (c ∷ cs) b = let later = one_more (index_byte cs b) in if c == b then some 0 else later

-- The texts that do not have a byte.
abbrev pub Lacks : ℕ → List ℕ → Type 0
Lacks b = All (λ c. (c == b) ≡ false)

pub eq_of_eq_bytes : (s t : List ℕ) → eq_bytes s t ≡ true → s ≡ t
eq_of_eq_bytes [] [] h = refl
eq_of_eq_bytes [] (y ∷ ys) h = cc
eq_of_eq_bytes (x ∷ xs) [] h = cc
eq_of_eq_bytes (x ∷ xs) (y ∷ ys) h = ground (arith, eq_of_eq_bytes xs ys)

pub eq_bytes_refl : (s : List ℕ) → eq_bytes s s ≡ true
eq_bytes_refl [] = refl
eq_bytes_refl (c ∷ cs) = ground (arith, eq_bytes_refl cs)

pub drop-append : (xs ys : List ℕ) → drop (length xs) (xs ++ ys) ≡ ys
drop-append [] ys = refl
drop-append (x ∷ xs) ys = drop-append xs ys

pub take-append : (xs ys : List ℕ) → take (length xs) (xs ++ ys) ≡ xs
take-append [] ys = refl
take-append (x ∷ xs) ys = ap (λ t. x ∷ t) (take-append xs ys)

pub after_prefix-append : (prefix rest : List ℕ) → after_prefix prefix (prefix ++ rest) ≡ some rest
unfolding after_prefix
after_prefix-append [] rest = refl
after_prefix-append (p ∷ ps) rest = ground (arith, after_prefix-append ps rest)

-- What is left of a text without a suffix of its own.
pub rest_length : (xs ys : List ℕ) → length (xs ++ ys) - length ys ≡ length xs
rest_length xs ys = omega (arith, length-append xs ys)

pub has_suffix-append :
    (xs suffix other : List ℕ)
    → length other ≡ length suffix
    → has_suffix (xs ++ suffix) other ≡ eq_bytes suffix other
unfolding has_suffix
has_suffix-append xs suffix other h =
    let long : leb (length suffix) (length (xs ++ suffix)) ≡ true =
      ground (arith, length-append xs suffix) in
    rw (h, long, rest_length xs suffix, drop-append xs suffix) refl

pub index_byte-append :
    (b : ℕ) (name rest : List ℕ)
    → Lacks b name
    → index_byte (name ++ b ∷ rest) b ≡ some (length name)
unfolding index_byte
index_byte-append b [] rest plain = ground arith
index_byte-append b (c ∷ cs) rest (h, plain) = rw (h, index_byte-append b cs rest plain) refl

pub index_byte-none : (b : ℕ) (s : List ℕ) → Lacks b s → index_byte s b ≡ none
unfolding index_byte
index_byte-none b [] plain = refl
index_byte-none b (c ∷ cs) (h, plain) = rw (h, index_byte-none b cs plain) refl

not_here :
    (here : Bool) (later : Option ℕ)
    → (if here then some 0 else one_more later) ≡ none
    → (here ≡ false) × (later ≡ none)
not_here true later h = cc
not_here false none h = (refl, refl)
not_here false (some i) h = cc

pub index_byte-Lacks : (b : ℕ) (s : List ℕ) → index_byte s b ≡ none → Lacks b s
unfolding index_byte
index_byte-Lacks b [] h = _
index_byte-Lacks b (c ∷ cs) h =
    let (other, later) = not_here (c == b) (index_byte cs b) h in
    (other, index_byte-Lacks b cs later)

pub drop_segment : (b : ℕ) (name rest : List ℕ) → drop (suc (length name)) (name ++ b ∷ rest) ≡ rest
drop_segment b [] rest = refl
drop_segment b (c ∷ cs) rest = drop_segment b cs rest
