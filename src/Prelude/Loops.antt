-- ===== src/Prelude/Loops.antt =====
-- `for i := len(xs) - 1; i >= 0; i--`: the loop that the lifecycle, the saga and the middleware
-- chains share, as the list of the indices and elements that it visits.
use mathlib.Core.List.{reverse-cons}
use goplatform.Prelude.{
  ℕ, zero, suc, ◌≤◌, ◌≡◌, refl, ap, ◌∙◌, none, some, List, [], ◌∷◌, ◌++◌, map, map-append, reverse,
  arith, length, get_elem?, get_elem?_lt,
}

module _ {ℓ} {A : Type ℓ} where
  -- From index `n - 1` down to 0. An index past the end would panic; the loops below never meet one.
  unfoldable pub down : ℕ → List A → List (ℕ × A)
  down zero xs = []
  down (suc i) xs = elim (get_elem? xs i) [ none ↦ [] | some x ↦ (i, x) ∷ down i xs ]

  -- Every element under its index, upwards from `k`.
  pub enum : ℕ → List A → List (ℕ × A)
  enum k [] = []
  enum k (x ∷ xs) = (k, x) ∷ enum (suc k) xs

  unfoldable pub downward : List A → List A
  unfolding down
  downward xs = map (λ p. p.1) (down (length xs) xs)

  shift : ℕ × A → ℕ × A
  shift (i, x) = (suc i, x)

  down-cons :
      (n : ℕ) (x : A) (xs : List A)
      → n ≤ length xs
      → down (suc n) (x ∷ xs) ≡ map shift (down n xs) ++ (0, x) ∷ []
  unfolding down shift
  down-cons zero x xs h = refl
  down-cons (suc n) x xs h =
      let (y, e) = get_elem?_lt xs n (omega arith) in
      rw (e, down) (ap (λ t. (suc n, y) ∷ t) (down-cons n x xs (omega arith)))

  enum-suc : (k : ℕ) (xs : List A) → enum (suc k) xs ≡ map shift (enum k xs)
  unfolding enum shift
  enum-suc k [] = refl
  enum-suc k (x ∷ xs) = ap (λ t. (suc k, x) ∷ t) (enum-suc (suc k) xs)

  map-enum : (k : ℕ) (xs : List A) → map (λ p. p.1) (enum k xs) ≡ xs
  unfolding enum
  map-enum k [] = refl
  map-enum k (x ∷ xs) = ap (λ t. x ∷ t) (map-enum (suc k) xs)

pub map-reverse {ℓ κ} :
    {A : Type ℓ} {B : Type κ} (f : A → B) (xs : List A) → map f (reverse xs) ≡ reverse (map f xs)
map-reverse f [] = refl
map-reverse f (x ∷ xs) = simp (reverse-cons, map-append, map-reverse f xs)

module _ {ℓ} {A : Type ℓ} where
  -- The loop visits the elements in the reverse order, each with its own index.
  pub down-reverse : (xs : List A) → down (length xs) xs ≡ reverse (enum 0 xs)
  unfolding enum
  down-reverse [] = unfold down in refl
  down-reverse (x ∷ xs) =
      let up : enum 1 xs ≡ map shift (enum 0 xs) = enum-suc 0 xs in
      down-cons (length xs) x xs (omega arith)
      ∙ simp (down-reverse xs, up, map-reverse, reverse-cons)

  pub map-down : (xs : List A) → map (λ p. p.1) (down (length xs) xs) ≡ reverse xs
  map-down xs = simp (down-reverse, map-reverse, map-enum)

  pub downward-reverse : (xs : List A) → downward xs ≡ reverse xs
  unfolding downward
  downward-reverse xs = map-down xs
