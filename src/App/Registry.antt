-- ===== src/App/Registry.antt =====
-- Registration (pkg/platform/app.go: Register, Component, and the methods of PluginContext): names
-- stay unique, also when plugins register components, and what was registered is found.
use goplatform.Prelude.{
  String, ◌≡◌, refl, true, false, ◌||◌, none, some, List, [], ◌∷◌, ◌++◌, arith, str_eq, eq_iff,
  if◌then◌else◌, append-nil, Bool-cases, inl, inr,
}
use goplatform.Errors.{Error}
use goplatform.App.{
  Component, NamedComponent, App, resolved_name, taken, register_component, find_component,
  get_component,
}

module _ {W : Type 0} where
  -- No two components have one name.
  abbrev pub UniqueNames : List (NamedComponent W) → Type 0
  UniqueNames [] = Unit
  UniqueNames (nc ∷ ncs) = (taken ncs nc.name ≡ false) × UniqueNames ncs

  taken-append :
      (xs : List (NamedComponent W)) (nc : NamedComponent W) (name : String)
      → taken (xs ++ nc ∷ []) name ≡ (taken xs name || str_eq nc.name name)
  unfolding taken
  taken-append [] nc name = ground arith
  taken-append (x ∷ xs) nc name = ground (arith, taken-append xs nc name)

  UniqueNames-append :
      (xs : List (NamedComponent W)) (nc : NamedComponent W)
      → UniqueNames xs
      → taken xs nc.name ≡ false
      → UniqueNames (xs ++ nc ∷ [])
  unfolding taken
  UniqueNames-append [] nc u t = (refl, tt)
  UniqueNames-append (x ∷ xs) nc u t = (
    ground (arith, taken-append xs nc x.name, eq_iff x.name nc.name, eq_iff nc.name x.name),
    UniqueNames-append xs nc u.1 (ground arith),
  )

  find_component-append :
      (xs : List (NamedComponent W)) (nc : NamedComponent W) (name : String)
      → find_component (xs ++ nc ∷ []) name ≡ (
          if taken xs name
          then find_component xs name
          else if str_eq nc.name name
          then some nc.component
          else none)
  unfolding find_component taken
  find_component-append [] nc name = refl
  find_component-append (x ∷ xs) nc name = ground (arith, find_component-append xs nc name)

  -- Register keeps names unique, whether it succeeds or not.
  pub register-UniqueNames :
      (a : App W) (name : String) (c : Component W)
      → UniqueNames a.components
      → UniqueNames (register_component a name c).0.components
  unfolding register_component
  register-UniqueNames a name c u = elim (Bool-cases (taken a.components (resolved_name name c))) [
    | inl t ↦ rw t u
    | inr t ↦ rw t (UniqueNames-append a.components _ u t)
  ]

  pub find_not_taken :
      (xs : List (NamedComponent W)) (name : String)
      → taken xs name ≡ false
      → find_component xs name ≡ none
  unfolding find_component taken
  find_not_taken [] name h = refl
  find_not_taken (x ∷ xs) name h = ground (arith, find_not_taken xs name)

  -- What Component answers after Register: the new component under its resolved name if that was
  -- free, and under every other name, or after a refusal, what it answered before.
  pub get-register :
      (a : App W) (name key : String) (c : Component W)
      → get_component (register_component a name c).0 key ≡ (
          if taken a.components (resolved_name name c)
          then get_component a key
          else if str_eq (resolved_name name c) key
          then some c
          else get_component a key)
  unfolding get_component register_component
  get-register a name key c =
      let r = resolved_name name c in
      elim (Bool-cases (taken a.components r)) [
        | inl t ↦ rw t refl
        | inr t ↦
            rw (t, find_component-append)
              (elim (Bool-cases (str_eq r key)) [
                | inl same ↦
                    let k : r ≡ key = (eq_iff r key).0 same in
                    let free : taken a.components key ≡ false = rw k at t in rw (same, free) refl
                | inr other ↦ rw other (elim (Bool-cases (taken a.components key)) [
                  | inl there ↦ rw there refl
                  | inr free ↦ rw (free, find_not_taken a.components key free) refl
                ])
              ])
      ]

  -- Register fails exactly when the resolved name is taken, and then changes nothing.
  pub register_refused :
      (a : App W) (name : String) (c : Component W) {err : Error}
      → (register_component a name c).1 ≡ some err
      → (taken a.components (resolved_name name c) ≡ true) × ((register_component a name c).0 ≡ a)
  unfolding register_component
  register_refused a name c h = ground arith

  pub register_adds :
      (a : App W) (name : String) (c : Component W)
      → (added : List (NamedComponent W)) × ((register_component a name c).0.components
          ≡ a.components ++ added)
  unfolding register_component
  register_adds a name c = elim (Bool-cases (taken a.components (resolved_name name c))) [
    | inl t ↦ ([], rw (t, append-nil) refl)
    | inr t ↦ (record { name = resolved_name name c; component = c } ∷ [], rw t refl)
  ]
