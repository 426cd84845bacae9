-- ===== src/Command/Components.antt =====
-- The components that the message of init names, and those that Render renders.
use goplatform.Prelude.{
  ℕ, ◌≡◌, refl, Bool, true, false, ◌||◌, List, [], ◌∷◌, All, inl, inr, Bool-cases, if◌then◌else◌,
  arith,
}
use goplatform.Prelude.Bytes.{codes, eq_bytes, eq_of_eq_bytes}
use goplatform.Scaffold.{component_enabled}
use goplatform.Command.Init.{Flags, data_of, components, listed}

abbrev pub contains : List (List ℕ) → List ℕ → Bool
contains [] c = false
contains (n ∷ ns) c = eq_bytes c n || contains ns c

-- Names with their flags: the names that are on, and the flag of a name.
abbrev Table : Type 0
Table = List (List ℕ × Bool)

abbrev names_on : Table → List (List ℕ)
names_on [] = []
names_on ((n, b) ∷ t) = listed b n (names_on t)

abbrev flag_of : List ℕ → Table → Bool
flag_of c [] = false
flag_of c ((n, b) ∷ t) = if eq_bytes c n then b else flag_of c t

abbrev IsAbsent : List ℕ → Table → Type 0
IsAbsent c t = All (λ ((n, b) : List ℕ × Bool). eq_bytes c n ≡ false) t

abbrev AreDistinct : Table → Type 0
AreDistinct [] = Unit
AreDistinct ((n, b) ∷ t) = IsAbsent n t × AreDistinct t

contains-absent : (c : List ℕ) (t : Table) → IsAbsent c t → contains (names_on t) c ≡ false
contains-absent c [] absent = refl
contains-absent c ((n, true) ∷ t) (other, absent) = rw (other, contains-absent c t absent) refl
contains-absent c ((n, false) ∷ t) (other, absent) = contains-absent c t absent

contains-names_on : (c : List ℕ) (t : Table) → AreDistinct t → contains (names_on t) c ≡ flag_of c t
contains-names_on c [] distinct = refl
contains-names_on c ((n, true) ∷ t) (absent, distinct) =
    ground (arith, contains-names_on c t distinct)
contains-names_on c ((n, false) ∷ t) (absent, distinct) = elim (Bool-cases (eq_bytes c n)) [
  | inl same ↦ rw same (contains-absent c t (rw (eq_of_eq_bytes c n same) absent))
  | inr other ↦ rw other (contains-names_on c t distinct)
]

abbrev table : Flags → Table
table f =
    (codes "postgres", f.postgres)
    ∷ (codes "kafka", f.kafka)
    ∷ (codes "nats", f.nats)
    ∷ (codes "redis", f.redis)
    ∷ (codes "temporal", f.temporal)
    ∷ (codes "s3", f.s3)
    ∷ (codes "connect", f.connect)
    ∷ []

-- The message of init names a component exactly if Render, given the same flags, renders its templates.
pub components-enabled :
    (f : Flags) (base path c : List ℕ)
    → contains (components f) c ≡ component_enabled c (data_of base path f)
unfolding components component_enabled data_of
components-enabled f base path c = contains-names_on c (table f) (ground arith)
