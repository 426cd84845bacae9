-- ===== src/Prelude/Dict.antt =====
-- Go's maps with string keys, as association lists. A missing key reads as `none`; the order of
-- iteration, which Go leaves open, is the order of the list.
use goplatform.Prelude.{
  String, ◌≡◌, refl, ap, subst, ◌∙◌, false, Bool-cases, inl, inr, ◌++◌, Option, none, some, List,
  [], ◌∷◌, arith, str_eq, eq_iff, if◌then◌else◌,
}

abbrev pub Dict {ℓ} : Type ℓ → Type ℓ
Dict Value = List (String × Value)

module _ {ℓ} {Value : Type ℓ} where
  unfoldable pub lookup : String → Dict Value → Option Value
  lookup key [] = none
  lookup key ((name, value) ∷ rest) = if str_eq name key then some value else lookup key rest

  -- m[key] = new
  unfoldable pub insert : String → Value → Dict Value → Dict Value
  insert key new [] = (key, new) ∷ []
  insert key new ((name, value) ∷ rest) =
      if str_eq name key then (key, new) ∷ rest else (name, value) ∷ insert key new rest

  pub lookup-insert :
      (key other : String) (new : Value) (dict : Dict Value)
      → lookup other (insert key new dict)
        ≡ (if str_eq key other then some new else lookup other dict)
  unfolding lookup insert
  lookup-insert key other new [] = refl
  lookup-insert key other new ((name, value) ∷ rest) =
      let later = lookup-insert key other new rest in
      ground (arith, later, eq_iff name key, eq_iff name other, eq_iff key other)

module _ {Value : Type 0} where
  -- The keys of a Go map are distinct.
  unfoldable pub Distinct : Dict Value → Type 0
  unfolding lookup
  Distinct [] = Unit
  Distinct ((name, value) ∷ rest) = (lookup name rest ≡ none) × Distinct rest

  -- A new key goes to the end.
  pub insert-fresh :
      (key : String) (new : Value) (dict : Dict Value)
      → lookup key dict ≡ none
      → insert key new dict ≡ dict ++ (key, new) ∷ []
  unfolding lookup insert
  insert-fresh key new [] h = refl
  insert-fresh key new ((name, value) ∷ rest) h = elim (Bool-cases (str_eq name key)) [
    | inl same ↦ ground (arith, h)
    | inr other ↦ rw other (ap (λ t. (name, value) ∷ t) (insert-fresh key new rest (rw other at h)))
  ]

  other_key :
      (front back : Dict Value) (name key : String) (value : Value)
      → lookup name (front ++ (key, value) ∷ back) ≡ none
      → str_eq key name ≡ false
  unfolding lookup
  other_key [] back name key value h = ground (arith, h)
  other_key ((first, v) ∷ front) back name key value h =
      other_key front back name key value (ground (arith, h))

  -- A key is not among those in front of it.
  pub lookup-front :
      (front back : Dict Value) (key : String) (value : Value)
      → Distinct (front ++ (key, value) ∷ back)
      → lookup key front ≡ none
  unfolding Distinct lookup
  lookup-front [] back key value h = refl
  lookup-front ((name, v) ∷ front) back key value (fresh, rest) =
      let later = lookup-front front back key value rest in
      ground
        (arith, later, other_key front back name key value fresh, eq_iff name key, eq_iff key name)

  pub insert-Distinct :
      (key : String) (new : Value) (dict : Dict Value)
      → Distinct dict
      → Distinct (insert key new dict)
  unfolding Distinct insert
  insert-Distinct key new [] h = (refl, _)
  insert-Distinct key new ((name, value) ∷ rest) (fresh, distinct) =
      elim (Bool-cases (str_eq name key)) [
        | inl same ↦
            rw same (subst (λ k. lookup k rest ≡ none) ((eq_iff name key).0 same) fresh, distinct)
        | inr other ↦ rw other (
          lookup-insert key name new rest
              ∙ ground (arith, fresh, other, eq_iff name key, eq_iff key name),
          insert-Distinct key new rest distinct,
        )
      ]
