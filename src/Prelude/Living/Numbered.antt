-- ===== src/Prelude/Living/Numbered.antt =====
-- Resources that are numbered in the order in which they are made: how many there are, and which of them
-- were released.
use goplatform.Prelude.Living.{Identity, with_one, without}
use Prim.Native.Nat.{ℕ, suc}
use mathlib.Core.Path.{◌≡◌, refl, fun_ext}
use mathlib.Core.Bool.{Bool, true, false, not, ◌&&◌}
use native.Mathlib.Omega.{arith}
use goplatform.Prelude.Tests.{ltb, ◌==◌, if◌then◌else◌}

abbrev pub Numbered : Type 0
Numbered = ℕ × (ℕ → Bool)

abbrev pub same_number : ℕ → ℕ → Bool
same_number p q = p == q

abbrev pub numbered_live : Numbered → ℕ → Bool
numbered_live w p = ltb p w.0 && not (w.1 p)

-- The new one has the number w.0.
abbrev pub make_one : Numbered → Numbered
make_one w = (suc w.0, λ p. if p == w.0 then false else w.1 p)

abbrev pub release_one : ℕ → Numbered → Numbered
release_one q w = (w.0, λ p. if p == q then true else w.1 p)

pub same_number-Identity : Identity same_number
same_number-Identity = record { same_refl = λ p. ground arith; same_eq = λ p q h. ground arith }

one_made :
    (p n : ℕ) (released : Bool)
    → (ltb p (suc n) && not (if p == n then false else released))
      ≡ (if p == n then true else (ltb p n && not released))
one_made p n true = ground arith
one_made p n false = ground arith

one_released :
    (known here released : Bool)
    → (known && not (if here then true else released))
      ≡ (if here then false else (known && not released))
one_released true true released = refl
one_released false true released = refl
one_released known false released = refl

pub make_one-live :
    (w : Numbered) → numbered_live (make_one w) ≡ with_one same_number w.0 (numbered_live w)
make_one-live w = fun_ext (λ p. one_made p w.0 (w.1 p))

pub make_one-new : (w : Numbered) → numbered_live w w.0 ≡ false
make_one-new w = go w.0 (w.1 w.0)
  where
    go : (n : ℕ) (b : Bool) → (ltb n n && not b) ≡ false
    go n b = ground arith

pub release_one-live :
    (q : ℕ) (w : Numbered)
    → numbered_live (release_one q w) ≡ without same_number q (numbered_live w)
release_one-live q w = fun_ext (λ p. one_released (ltb p w.0) (p == q) (w.1 p))
