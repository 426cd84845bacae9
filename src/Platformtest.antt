-- ===== src/Platformtest.antt =====
-- replaceDBName of pkg/platformtest/postgres.go: the address of a test's own database. Texts are lists of
-- bytes.
pub mod Database
pub mod Replaced
mod Tests
use goplatform.Prelude.{
  ℕ, suc, ◌+◌, Bool, true, false, ◌&&◌, ◌||◌, Option, none, some, List, [], ◌∷◌, ◌++◌, length, ◌==◌,
  if◌then◌else◌,
}
use goplatform.Prelude.Bytes.{codes, take, drop, after_prefix, one_more, index_byte}

abbrev pub slash : ℕ
slash = 47

abbrev pub question : ℕ
question = 63

abbrev pub has_prefix : List ℕ → List ℕ → Bool
has_prefix s prefix = elim (after_prefix prefix s) [ none ↦ false | some rest ↦ true ]

unfoldable pub is_uri : List ℕ → Bool
unfolding after_prefix
is_uri dsn = has_prefix dsn (codes "postgres://") || has_prefix dsn (codes "postgresql://")

-- The first place with two slashes.
unfoldable pub slashes : List ℕ → Option ℕ
slashes [] = none
slashes (c ∷ []) = none
slashes (c ∷ d ∷ cs) =
    let later = one_more (slashes (d ∷ cs)) in
    if (c == slash) && (d == slash) then some 0 else later

unfoldable pub scheme_end : List ℕ → ℕ
unfolding slashes
scheme_end dsn = elim (slashes dsn) [ none ↦ 0 | some i ↦ i + 2 ]

-- The loops that look for a byte from an index on.
unfoldable pub index_from : ℕ → List ℕ → ℕ → Option ℕ
unfolding index_byte
index_from start s b = elim (index_byte (drop start s) b) [
  | none ↦ none
  | some i ↦ some (start + i)
]

unfoldable pub db_start : List ℕ → Option ℕ
unfolding index_from
db_start dsn = elim (index_from (scheme_end dsn) dsn slash) [ none ↦ none | some i ↦ some (suc i) ]

unfoldable pub db_end : List ℕ → ℕ → ℕ
unfolding index_from
db_end dsn start = elim (index_from start dsn question) [ none ↦ length dsn | some i ↦ i ]

abbrev pub ends_with : List ℕ → ℕ → Bool
ends_with [] b = false
ends_with (c ∷ []) b = c == b
ends_with (c ∷ d ∷ cs) b = ends_with (d ∷ cs) b

-- A URI without a path; one that is empty does not get here.
unfoldable pub append_name : List ℕ → List ℕ → List ℕ
append_name [] new_db = new_db
append_name (c ∷ cs) new_db =
    if ends_with (c ∷ cs) slash then (c ∷ cs) ++ new_db else (c ∷ cs) ++ slash ∷ new_db

unfoldable pub replace_db_name : List ℕ → List ℕ → List ℕ
unfolding is_uri db_start db_end append_name
replace_db_name dsn new_db =
    if is_uri dsn
    then elim (db_start dsn) [
      | none ↦ append_name dsn new_db
      | some start ↦ take start dsn ++ new_db ++ drop (db_end dsn start) dsn
    ]
    else dsn ++ codes " dbname=" ++ new_db
