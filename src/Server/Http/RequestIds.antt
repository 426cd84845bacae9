-- ===== src/Server/Http/RequestIds.antt =====
-- generateRequestID of pkg/server/middleware.go: 16 random bytes as hexadecimal digits in five fields.
use native.Mathlib.Numerals.{unary_clauses}
use goplatform.Prelude.{
  ℕ, zero, suc, ◌≤◌, ◌+◌, ◌-◌, ◌*◌, ◌/◌, ◌%◌, ◌<◌, ◌≡◌, refl, sym, ap, ap₂, List, [], ◌∷◌, ◌++◌,
  append_assoc, arith, ltb, ◌==◌, if◌then◌else◌, length, length-append, All,
}

abbrev pub take : ℕ → List ℕ → List ℕ
take zero xs = []
take (suc n) [] = []
take (suc n) (x ∷ xs) = x ∷ take n xs

abbrev pub drop : ℕ → List ℕ → List ℕ
drop zero xs = xs
drop (suc n) [] = []
drop (suc n) (x ∷ xs) = drop n xs

-- b[lo:hi]
abbrev pub slice : List ℕ → ℕ → ℕ → List ℕ
slice bytes lo hi = take (hi - lo) (drop lo bytes)

-- '0'…'9' and 'a'…'f' as character codes.
abbrev pub hex_digit : ℕ → ℕ
hex_digit n = if ltb n 10 then 48 + n else 87 + n

pub hex : List ℕ → List ℕ
hex [] = []
hex (b ∷ bs) = hex_digit (b / 16) ∷ hex_digit (b % 16) ∷ hex bs

zeros : ℕ → List ℕ
zeros zero = []
zeros (suc n) = 48 ∷ zeros n

-- %0<width>x of a slice
unfoldable pub padded : ℕ → List ℕ → List ℕ
unfolding hex zeros
padded width bs = let digits = hex bs in zeros (width - length digits) ++ digits

unfoldable pub generate_request_id : List ℕ → List ℕ
unfolding padded
generate_request_id b =
    padded 8 (slice b 0 4)
    ++ (45 ∷ padded 4 (slice b 4 6))
    ++ (45 ∷ padded 4 (slice b 6 8))
    ++ (45 ∷ padded 4 (slice b 8 10))
    ++ (45 ∷ padded 12 (slice b 10 16))

-- The value of a digit.
unfoldable pub digit_value : ℕ → ℕ
digit_value c = if ltb c 58 then c - 48 else c - 87

-- The bytes that an id was made from: its digits in pairs, without the dashes.
unfoldable pub without_dashes : List ℕ → List ℕ
without_dashes [] = []
without_dashes (c ∷ cs) = let rest = without_dashes cs in if c == 45 then rest else c ∷ rest

unfoldable pub bytes_of : List ℕ → List ℕ
unfolding digit_value
bytes_of [] = []
bytes_of (c ∷ []) = []
bytes_of (c ∷ d ∷ cs) = (digit_value c * 16 + digit_value d) ∷ bytes_of cs

unfoldable pub IsBytes : List ℕ → Type 0
IsBytes bs = All (λ b. b < 256) bs

without_dashes-append :
    (xs ys : List ℕ) → without_dashes (xs ++ ys) ≡ without_dashes xs ++ without_dashes ys
unfolding without_dashes
without_dashes-append [] ys = refl
without_dashes-append (x ∷ xs) ys = ground (arith, without_dashes-append xs ys)

without_dashes-hex : (bs : List ℕ) → without_dashes (hex bs) ≡ hex bs
unfolding hex without_dashes
without_dashes-hex [] = refl
without_dashes-hex (b ∷ bs) = ground (arith, without_dashes-hex bs)

digit_value-hex_digit : (n : ℕ) → n < 16 → digit_value (hex_digit n) ≡ n
unfolding digit_value
digit_value-hex_digit n h = ground arith

bytes_of-hex : (bs : List ℕ) → IsBytes bs → bytes_of (hex bs) ≡ bs
unfolding hex bytes_of IsBytes
bytes_of-hex [] h = refl
bytes_of-hex (b ∷ bs) (small, rest) =
    let high = digit_value-hex_digit (b / 16) (omega arith) in
    let low = digit_value-hex_digit (b % 16) (omega arith) in
    ap₂ (λ x y. x ∷ y) (rw (high, low) (omega arith)) (bytes_of-hex bs rest)

length-hex : (bs : List ℕ) → length (hex bs) ≡ 2 * length bs
unfolding hex
length-hex [] = refl
length-hex (b ∷ bs) = omega (arith, length-hex bs)

length-take : (n : ℕ) (xs : List ℕ) → n ≤ length xs → length (take n xs) ≡ n
length-take zero xs h = refl
length-take (suc n) [] h = omega arith
length-take (suc n) (x ∷ xs) h = omega (arith, length-take n xs (omega arith))

length-drop : (n : ℕ) (xs : List ℕ) → length (drop n xs) ≡ length xs - n
length-drop zero xs = omega arith
length-drop (suc n) [] = omega arith
length-drop (suc n) (x ∷ xs) = omega (arith, length-drop n xs)

take_all : (n : ℕ) (xs : List ℕ) → length xs ≡ n → take n xs ≡ xs
take_all zero [] h = refl
take_all zero (x ∷ xs) h = ground arith
take_all (suc n) [] h = ground arith
take_all (suc n) (x ∷ xs) h = ap (λ t. x ∷ t) (take_all n xs (omega arith))

take-drop : (n : ℕ) (xs : List ℕ) → take n xs ++ drop n xs ≡ xs
take-drop zero xs = refl
take-drop (suc n) [] = refl
take-drop (suc n) (x ∷ xs) = ap (λ t. x ∷ t) (take-drop n xs)

drop-drop : (lo n : ℕ) (xs : List ℕ) → drop n (drop lo xs) ≡ drop (lo + n) xs
drop-drop zero n xs = let e : 0 + n ≡ n = omega arith in rw e refl
drop-drop (suc lo) zero [] = simp unary_clauses refl
drop-drop (suc lo) (suc n) [] = simp unary_clauses refl
drop-drop (suc lo) n (x ∷ xs) =
    let e : suc lo + n ≡ suc (lo + n) = omega arith in rw e (drop-drop lo n xs)

-- The bytes of a field and those behind it.
field_then_rest :
    (lo n : ℕ) (bytes : List ℕ) → take n (drop lo bytes) ++ drop (lo + n) bytes ≡ drop lo bytes
field_then_rest lo n bytes = rw (sym (drop-drop lo n bytes)) (take-drop n (drop lo bytes))

-- A field of the right length needs no padding.
padded-field :
    (lo n : ℕ) (bytes : List ℕ)
    → lo + n ≤ length bytes
    → padded (2 * n) (take n (drop lo bytes)) ≡ hex (take n (drop lo bytes))
unfolding padded zeros
padded-field lo n bytes h =
    let enough : n ≤ length (drop lo bytes) = omega (arith, length-drop lo bytes) in
    let full : 2 * n - length (hex (take n (drop lo bytes))) ≡ 0 =
      omega (arith, length-take n (drop lo bytes) enough, length-hex (take n (drop lo bytes))) in
    rw full refl

hex-append : (xs ys : List ℕ) → hex (xs ++ ys) ≡ hex xs ++ hex ys
unfolding hex
hex-append [] ys = refl
hex-append (x ∷ xs) ys = ap (λ t. hex_digit (x / 16) ∷ hex_digit (x % 16) ∷ t) (hex-append xs ys)

-- The id of sixteen bytes: their digits, in fields.
fields :
    (bytes : List ℕ)
    → length bytes ≡ 16
    → generate_request_id bytes
      ≡ hex (take 4 bytes)
        ++ (45 ∷ hex (take 2 (drop 4 bytes)))
        ++ (45 ∷ hex (take 2 (drop 6 bytes)))
        ++ (45 ∷ hex (take 2 (drop 8 bytes)))
        ++ (45 ∷ hex (drop 10 bytes))
unfolding generate_request_id
fields bytes h =
    let last : take 6 (drop 10 bytes) ≡ drop 10 bytes =
      take_all 6 (drop 10 bytes) (omega (arith, length-drop 10 bytes)) in
    let e0 = padded-field 0 4 bytes (omega arith) in
    let e1 = padded-field 4 2 bytes (omega arith) in
    let e2 = padded-field 6 2 bytes (omega arith) in
    let e3 = padded-field 8 2 bytes (omega arith) in
    let e4 = padded-field 10 6 bytes (omega arith) in rw (e0, e1, e2, e3, e4, last) refl

-- An id made of sixteen random bytes is 36 characters long, and taking away its dashes and reading
-- the digits in pairs gives the bytes back: different random bytes make different ids.
pub bytes_of-generate_request_id :
    (bytes : List ℕ)
    → length bytes ≡ 16
    → IsBytes bytes
    → (length (generate_request_id bytes) ≡ 36)
      × (bytes_of (without_dashes (generate_request_id bytes)) ≡ bytes)
bytes_of-generate_request_id bytes h small =
    let whole : take 4 bytes
          ++ take 2 (drop 4 bytes)
          ++ take 2 (drop 6 bytes)
          ++ take 2 (drop 8 bytes)
          ++ drop 10 bytes
        ≡ bytes =
      simp append_assoc (
        rw
          (
            field_then_rest 8 2 bytes,
            field_then_rest 6 2 bytes,
            field_then_rest 4 2 bytes,
            take-drop 4 bytes,
          )
          refl) in
    let digits : without_dashes (generate_request_id bytes) ≡ hex bytes = rw (fields bytes h) (
      unfold without_dashes in
      simp (without_dashes-append, without_dashes-hex)
        (simp (sym (hex-append _ _)) (ap hex whole))) in
    (
      rw (fields bytes h) (
          simp (length-append, length-hex)
            (omega (
              arith,
              h,
              length-take 4 bytes (omega arith),
              length-take 2 (drop 4 bytes) (omega (arith, length-drop 4 bytes)),
              length-take 2 (drop 6 bytes) (omega (arith, length-drop 6 bytes)),
              length-take 2 (drop 8 bytes) (omega (arith, length-drop 8 bytes)),
              length-drop 10 bytes,
            ))),
      rw digits (bytes_of-hex bytes small),
    )
