-- ===== src/Scaffold/Names.antt =====
-- What the generated names look like.
use goplatform.Prelude.{
  ℕ, suc, append_assoc, ◌≤◌, ◌≡◌, refl, sym, ap, ap₂, ◌∙◌, Bool, true, false, List, [], ◌∷◌, ◌++◌,
  map, map-append, ◌==◌, length, Bool-cases, inl, inr, arith, if◌then◌else◌,
}
use goplatform.Scaffold.{
  Case, dash, underscore, is_separator, snake_case, service, svc, suffixes, strip, title_case,
  pascal_from, pascal_case, service_name,
}
use goplatform.Prelude.Bytes.{has_suffix, take-append, rest_length, has_suffix-append}

-- The words of a name: its pieces between dashes and underscores, empty ones included. `word` is the
-- word that has begun.
pub words : List ℕ → List ℕ → List (List ℕ)
words word [] = word ∷ []
words word (r ∷ rs) =
    let next = words [] rs in
    let longer = words (word ++ r ∷ []) rs in if is_separator r then word ∷ next else longer

pub concat_titles : Case → List (List ℕ) → List ℕ
concat_titles c [] = []
concat_titles c (w ∷ ws) = title_case c w ++ concat_titles c ws

pascal_from-words :
    (c : Case) (s : List ℕ)
    → (pascal_from c true s ≡ concat_titles c (words [] s))
      × ((x : ℕ) (xs : List ℕ)
          → (c.upper x ∷ xs) ++ pascal_from c false s ≡ concat_titles c (words (x ∷ xs) s))
unfolding pascal_from words concat_titles title_case
pascal_from-words c [] = (refl, λ x xs. refl)
pascal_from-words c (r ∷ rs) =
    let (begun, going) = pascal_from-words c rs in
    elim (Bool-cases (is_separator r)) [
      | inl sep ↦ rw sep (begun, λ x xs. ap (λ t. (c.upper x ∷ xs) ++ t) begun)
      | inr letter ↦ rw letter (
        going r [],
        λ x xs.
            sym (append_assoc (c.upper x ∷ xs) (r ∷ []) (pascal_from c false rs))
            ∙ going x (xs ++ r ∷ []),
      )
    ]

-- pascalCase of a name is its words, each with its first letter in upper case, put together.
pub pascal_case-words : (c : Case) (s : List ℕ) → pascal_case c s ≡ concat_titles c (words [] s)
unfolding pascal_case
pascal_case-words c s = (pascal_from-words c s).0

length-map : (f : ℕ → ℕ) (s : List ℕ) → length (map f s) ≡ length s
length-map f [] = refl
length-map f (x ∷ xs) = ap suc (length-map f xs)

pascal_from-snake :
    (c : Case) (upper : Bool) (s : List ℕ)
    → pascal_from c upper (map (λ r. if r == dash then underscore else r) s) ≡ pascal_from c upper s
unfolding pascal_from
pascal_from-snake c upper [] = refl
pascal_from-snake c upper (r ∷ rs) =
    let after_separator = pascal_from-snake c true rs in
    let after_letter = pascal_from-snake c false rs in
    elim (Bool-cases (r == dash)) [
      | inl is_dash ↦ rw (is_dash, after_separator) refl
      | inr other ↦ rw (other, after_separator, after_letter) (rw other refl)
    ]

-- snakeCase keeps the length of a name, and does not change what pascalCase makes of it.
pub pascal_case-snake_case :
    (c : Case) (s : List ℕ)
    → (length (snake_case s) ≡ length s) × (pascal_case c (snake_case s) ≡ pascal_case c s)
unfolding pascal_case snake_case
pascal_case-snake_case c s = (length-map _ s, pascal_from-snake c true s)

-- The lower case of a lower-case letter, '-' and '_' is itself.
pub record KeepsLower (c : Case) : Type 0 where
  pub letters : (r : ℕ) → 97 ≤ r → r ≤ 122 → c.lower r ≡ r
  pub dash_kept : c.lower dash ≡ dash
  pub underscore_kept : c.lower underscore ≡ underscore

lower-service : (c : Case) → KeepsLower c → map c.lower service ≡ service
lower-service c keeps =
    let lower = keeps.letters in
    rw
      (
        lower 115 (omega arith) (omega arith),
        lower 101 (omega arith) (omega arith),
        lower 114 (omega arith) (omega arith),
        lower 118 (omega arith) (omega arith),
        lower 105 (omega arith) (omega arith),
        lower 99 (omega arith) (omega arith),
      )
      refl

strip-suffix :
    (base suffix lowered : List ℕ) (rest : List (List ℕ))
    → has_suffix lowered suffix ≡ true
    → strip (suffix ∷ rest) lowered (base ++ suffix) ≡ base
unfolding strip
strip-suffix base suffix lowered rest h =
    rw (h, rest_length base suffix, take-append base suffix) refl

-- serviceName of a name that ends with "-service" or "_service" is pascalCase of the rest, whatever the
-- rest is, so that the generated code does not say "service" twice.
pub service_name-suffix :
    (c : Case) (base : List ℕ)
    → KeepsLower c
    → (service_name c (base ++ dash ∷ service) ≡ pascal_case c base)
      × (service_name c (base ++ underscore ∷ service) ≡ pascal_case c base)
unfolding service_name
service_name-suffix c base keeps =
    let dashed : map c.lower (base ++ dash ∷ service) ≡ map c.lower base ++ dash ∷ service =
      map-append c.lower base (dash ∷ service)
      ∙ ap₂ (λ x y. map c.lower base ++ x ∷ y) keeps.dash_kept (lower-service c keeps) in
    let scored : map c.lower (base ++ underscore ∷ service)
        ≡ map c.lower base ++ underscore ∷ service =
      map-append c.lower base (underscore ∷ service)
      ∙ ap₂ (λ x y. map c.lower base ++ x ∷ y) keeps.underscore_kept (lower-service c keeps) in
    let low = map c.lower base in
    let stripped : strip suffixes (low ++ underscore ∷ service) (base ++ underscore ∷ service)
        ≡ base =
      unfold strip in
      rw (has_suffix-append low (underscore ∷ service) (dash ∷ service) refl) (
        strip-suffix base (underscore ∷ service) (low ++ underscore ∷ service)
          ((dash ∷ svc) ∷ (underscore ∷ svc) ∷ [])
          (has_suffix-append low (underscore ∷ service) (underscore ∷ service) refl)) in
    (
      ap (pascal_case c) (
          ap (λ l. strip suffixes l (base ++ dash ∷ service)) dashed
          ∙ strip-suffix base (dash ∷ service) (low ++ dash ∷ service)
              ((underscore ∷ service) ∷ (dash ∷ svc) ∷ (underscore ∷ svc) ∷ [])
              (has_suffix-append low (dash ∷ service) (dash ∷ service) refl)),
      ap (pascal_case c)
          (ap (λ l. strip suffixes l (base ++ underscore ∷ service)) scored ∙ stripped),
    )
