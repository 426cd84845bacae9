-- ===== src/App/Health.antt =====
-- App.HealthCheckers (pkg/platform/app.go).
use goplatform.Prelude.{
  String, ◌≡◌, refl, ◌∙◌, false, Option, none, some, List, [], ◌∷◌, arith, str_eq, eq_iff,
  if◌then◌else◌, Bool-cases, inl, inr,
}
use goplatform.Prelude.Dict.{Dict, lookup, insert, lookup-insert, Distinct, insert-Distinct}
use goplatform.Errors.{Error}
use goplatform.App.{Ctx, Component, NamedComponent, App, find_component, get_component, taken}
use goplatform.App.Registry.{UniqueNames, find_not_taken}

abbrev pub HealthCheck : Type 0 → Type 0
HealthCheck W = Ctx → W → W × Option Error

module _ {W : Type 0} where
  abbrev pub add_checker :
      Option (HealthCheck W) → String → Dict (HealthCheck W) → Dict (HealthCheck W)
  add_checker none name checkers = checkers
  add_checker (some hc) name checkers = insert name hc checkers

  pub collect : List (NamedComponent W) → Dict (HealthCheck W) → Dict (HealthCheck W)
  collect [] checkers = checkers
  collect (nc ∷ ncs) checkers = collect ncs (add_checker nc.component.health nc.name checkers)

  unfoldable pub health_checkers : App W → Dict (HealthCheck W)
  unfolding collect
  health_checkers a = collect a.components []

  abbrev pub health_of : Option (Component W) → Option (HealthCheck W)
  health_of none = none
  health_of (some c) = c.health

  abbrev or_before : Option (HealthCheck W) → Option (HealthCheck W) → Option (HealthCheck W)
  or_before none before = before
  or_before (some hc) before = some hc

  lookup-add_checker :
      (o : Option (HealthCheck W)) (name key : String) (m : Dict (HealthCheck W))
      → lookup key (add_checker o name m)
        ≡ (if str_eq name key then or_before o (lookup key m) else lookup key m)
  lookup-add_checker none name key m = ground arith
  lookup-add_checker (some hc) name key m = lookup-insert name key hc m

  lookup-collect :
      (ncs : List (NamedComponent W)) (checkers : Dict (HealthCheck W)) (key : String)
      → UniqueNames ncs
      → lookup key (collect ncs checkers)
        ≡ or_before (health_of (find_component ncs key)) (lookup key checkers)
  unfolding collect find_component
  lookup-collect [] checkers key u = refl
  lookup-collect (nc ∷ ncs) checkers key u = elim (Bool-cases (str_eq nc.name key)) [
    | inl same ↦
        let k : nc.name ≡ key = (eq_iff nc.name key).0 same in
        let free : taken ncs key ≡ false = rw k at u.0 in
        lookup-collect ncs _ key u.1
        ∙ rw (same, find_not_taken ncs key free, lookup-add_checker nc.component.health) (rw same)
    | inr other ↦
        lookup-collect ncs _ key u.1 ∙ rw (other, lookup-add_checker nc.component.health) (rw other)
  ]

  -- The map that HealthCheckers returns has, under each name, the health check of the component
  -- registered under that name, and no entry where there is no such component or it has none.
  pub lookup-health_checkers :
      (a : App W) (key : String)
      → UniqueNames a.components
      → lookup key (health_checkers a) ≡ health_of (get_component a key)
  unfolding health_checkers get_component lookup
  lookup-health_checkers a key u = lookup-collect a.components [] key u ∙ ground arith

  collect-Distinct :
      (ncs : List (NamedComponent W)) (checkers : Dict (HealthCheck W))
      → Distinct checkers
      → Distinct (collect ncs checkers)
  unfolding collect
  collect-Distinct [] checkers distinct = distinct
  collect-Distinct (nc ∷ ncs) checkers distinct =
      collect-Distinct ncs _ (added nc.component.health nc.name)
    where
      added : (o : Option (HealthCheck W)) (name : String) → Distinct (add_checker o name checkers)
      added none name = distinct
      added (some hc) name = insert-Distinct name hc checkers distinct

  pub health_checkers-Distinct : (a : App W) → Distinct (health_checkers a)
  unfolding health_checkers Distinct
  health_checkers-Distinct a = collect-Distinct a.components [] _
