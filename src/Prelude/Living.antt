-- ===== src/Prelude/Living.antt =====
-- Which of the resources that pointers name are live: a function into Bool, which making one and releasing
-- some of them change. Releasing one again changes nothing.
pub mod Numbered
use mathlib.Core.Path.{◌≡◌, refl, sym, ap, ◌∙◌}
use mathlib.Core.Logic.{inl, inr}
use mathlib.Core.Bool.{Bool, true, false, ◌||◌}
use mathlib.Core.List.{List, [], ◌∷◌, ◌++◌}
use mathlib.Core.Option.{Option, none, some}
use goplatform.Prelude.Tests.{if◌then◌else◌, Bool-cases}
use goplatform.Prelude.Lists.{All, All-append}

-- The comparison of pointers.
pub record Identity {P : Type 0} (same : P → P → Bool) : Type 0 where
  pub same_refl : (p : P) → same p p ≡ true
  pub same_eq : (p q : P) → same p q ≡ true → p ≡ q

abbrev pub listed : {P : Type 0} → Option P → List P
listed none = []
listed (some p) = p ∷ []

module _ {P : Type 0} (same : P → P → Bool) where
  abbrev pub with_one : P → (P → Bool) → P → Bool
  with_one q live p = if same p q then true else live p

  abbrev pub without : P → (P → Bool) → P → Bool
  without q live p = if same p q then false else live p

  abbrev pub with_all : List P → (P → Bool) → P → Bool
  with_all [] live = live
  with_all (q ∷ qs) live = with_all qs (with_one q live)

  abbrev pub without_all : List P → (P → Bool) → P → Bool
  without_all [] live = live
  without_all (q ∷ qs) live = without_all qs (without q live)

  pub with_all-append :
      (xs ys : List P) (live : P → Bool) → with_all (xs ++ ys) live ≡ with_all ys (with_all xs live)
  with_all-append [] ys live = refl
  with_all-append (x ∷ xs) ys live = with_all-append xs ys (with_one x live)

  pub without_all-append :
      (xs ys : List P) (live : P → Bool)
      → without_all (xs ++ ys) live ≡ without_all ys (without_all xs live)
  without_all-append [] ys live = refl
  without_all-append (x ∷ xs) ys live = without_all-append xs ys (without x live)

  abbrev member : P → List P → Bool
  member p [] = false
  member p (q ∷ qs) = same p q || member p qs

  with_all-member :
      (qs : List P) (live : P → Bool) (p : P)
      → with_all qs live p ≡ (if member p qs then true else live p)
  with_all-member [] live p = refl
  with_all-member (q ∷ qs) live p =
      with_all-member qs (with_one q live) p ∙ split (same p q) (member p qs)
    where
      split :
          (here later : Bool)
          → (if later then true else if here then true else live p)
            ≡ (if here || later then true else live p)
      split true true = refl
      split true false = refl
      split false later = refl

  without_all-member :
      (qs : List P) (live : P → Bool) (p : P)
      → without_all qs live p ≡ (if member p qs then false else live p)
  without_all-member [] live p = refl
  without_all-member (q ∷ qs) live p =
      without_all-member qs (without q live) p ∙ split (same p q) (member p qs)
    where
      split :
          (here later : Bool)
          → (if later then false else if here then false else live p)
            ≡ (if here || later then false else live p)
      split true true = refl
      split true false = refl
      split false later = refl

  -- None of them is live.
  abbrev pub Fresh : List P → (P → Bool) → Type 0
  Fresh qs live = All (λ q. live q ≡ false) qs

  -- What is live now is what was live before, and those that are held, which were not.
  abbrev pub Holds : List P → (P → Bool) → (P → Bool) → Type 0
  Holds qs before now = (now ≡ with_all qs before) × Fresh qs before

  -- Making resources keeps what is live; so one that is not live was not live before.
  with_all-false :
      (qs : List P) (live : P → Bool) (p : P) → with_all qs live p ≡ false → live p ≡ false
  with_all-false qs live p h = go (member p qs) (sym (with_all-member qs live p) ∙ h)
    where
      go : (found : Bool) → (if found then true else live p) ≡ false → live p ≡ false
      go true e = cc
      go false e = e

  older : (xs ys : List P) (live : P → Bool) → Fresh ys (with_all xs live) → Fresh ys live
  older xs [] live fresh = _
  older xs (y ∷ ys) live (e, fresh) = (with_all-false xs live y e, older xs ys live fresh)

  pub Fresh-append :
      (xs ys : List P) (live : P → Bool)
      → Fresh xs live
      → Fresh ys (with_all xs live)
      → Fresh (xs ++ ys) live
  Fresh-append xs ys live fx fy = All-append (λ q. live q ≡ false) xs ys fx (older xs ys live fy)

  module _ (identity : Identity same) where
    member-Fresh :
        (qs : List P) (live : P → Bool) (p : P)
        → Fresh qs live
        → member p qs ≡ true
        → live p ≡ false
    member-Fresh [] live p fresh m = cc
    member-Fresh (q ∷ qs) live p (h, fresh) m = elim (Bool-cases (same p q)) [
      | inl here ↦ ap live (identity.same_eq p q here) ∙ h
      | inr other ↦ member-Fresh qs live p fresh (sym (ap (λ b. b || member p qs) other) ∙ m)
    ]

    -- Releasing new resources again leaves what was live before them.
    pub without_all-with_all :
        (qs : List P) (live : P → Bool) → Fresh qs live → without_all qs (with_all qs live) ≡ live
    without_all-with_all qs live fresh i p =
        (without_all-member qs (with_all qs live) p
            ∙ (ap (λ b. if member p qs then false else b) (with_all-member qs live p)
                ∙ settle (member p qs) refl))
          i
      where
        settle :
            (found : Bool)
            → member p qs ≡ found
            → (if found then false else if found then true else live p) ≡ live p
        settle true m = sym (member-Fresh qs live p fresh m)
        settle false m = refl
