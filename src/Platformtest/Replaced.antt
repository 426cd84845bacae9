-- ===== src/Platformtest/Replaced.antt =====
-- What replaceDBName does to a connection URI, in terms of the URI's parts.
use goplatform.Prelude.{
  ℕ, zero, suc, ◌+◌, ◌≡◌, refl, ap, ◌∙◌, true, Option, none, some, List, [], ◌∷◌, ◌++◌, append-nil,
  append_assoc, length, length-append, arith,
}
use goplatform.Prelude.Bytes.{
  codes, take, drop, drop-append, drop_segment, Lacks, after_prefix, index_byte-append,
  index_byte-none,
}
use goplatform.Platformtest.{
  slash, question, is_uri, slashes, scheme_end, index_from, db_start, db_end, replace_db_name,
}

pub data Scheme : Type 0 where
  postgres : Scheme
  postgresql : Scheme

abbrev pub scheme_text : Scheme → List ℕ
scheme_text postgres = codes "postgres://"
scheme_text postgresql = codes "postgresql://"

-- A URI with a path: what stands between the scheme and the path, the name of the database, and the
-- parameters, if there are any.
pub record Uri : Type 0 where
  pub scheme : Scheme
  pub authority : List ℕ
  pub database : List ℕ
  pub parameters : Option (List ℕ)

abbrev pub query : Option (List ℕ) → List ℕ
query none = []
query (some parameters) = question ∷ parameters

abbrev pub uri_text : Uri → List ℕ
uri_text u = (scheme_text (u.scheme) ++ u.authority) ++ slash ∷ (u.database ++ query (u.parameters))

is_uri-scheme : (k : Scheme) (s : List ℕ) → is_uri (scheme_text k ++ s) ≡ true
unfolding is_uri after_prefix
is_uri-scheme postgres s = refl
is_uri-scheme postgresql s = refl

scheme_end-scheme :
    (k : Scheme) (s : List ℕ) → scheme_end (scheme_text k ++ s) ≡ length (scheme_text k)
unfolding scheme_end slashes
scheme_end-scheme postgres s = refl
scheme_end-scheme postgresql s = refl

take_segment :
    (b : ℕ) (name rest : List ℕ) → take (suc (length name)) (name ++ b ∷ rest) ≡ name ++ b ∷ []
take_segment b [] rest = refl
take_segment b (c ∷ cs) rest = ap (λ t. c ∷ t) (take_segment b cs rest)

zero_add : (n : ℕ) → 0 + n ≡ n
zero_add n = omega arith

suc_add : (m n : ℕ) → suc m + n ≡ suc (m + n)
suc_add m n = omega arith

drop_nil : (n : ℕ) → drop n [] ≡ []
drop_nil zero = refl
drop_nil (suc n) = refl

drop_add : (m n : ℕ) (s : List ℕ) → drop (m + n) s ≡ drop n (drop m s)
drop_add zero n s = rw (zero_add n) refl
drop_add (suc m) n [] = rw (suc_add m n, drop_nil n) refl
drop_add (suc m) n (c ∷ cs) = rw (suc_add m n) (drop_add m n cs)

drop_all : (s : List ℕ) → drop (length s) s ≡ []
drop_all [] = refl
drop_all (c ∷ cs) = drop_all cs

-- The name of the database ends where the parameters begin.
drop-db_end :
    (dsn database : List ℕ) (parameters : Option (List ℕ)) (start : ℕ)
    → drop start dsn ≡ database ++ query parameters
    → Lacks question database
    → drop (db_end dsn start) dsn ≡ query parameters
unfolding db_end index_from
drop-db_end dsn database none start h plain =
    rw (db_end, index_from, h, append-nil database, index_byte-none question database plain)
      (drop_all dsn)
drop-db_end dsn database (some parameters) start h plain =
    rw
      (
        db_end,
        index_from,
        h,
        index_byte-append question database parameters plain,
        drop_add start,
        h,
      )
      (drop-append database (question ∷ parameters))

module _ (u : Uri) (plain : Lacks slash (u.authority)) where
  abbrev front : List ℕ
  front = scheme_text (u.scheme) ++ u.authority

  scheme_end-uri : scheme_end (uri_text u) ≡ length (scheme_text (u.scheme))
  scheme_end-uri = rw (append_assoc) (scheme_end-scheme (u.scheme) _)

  db_start-uri : db_start (uri_text u) ≡ some (suc (length front))
  unfolding db_start index_from
  db_start-uri =
      rw
        (
          db_start,
          scheme_end-uri,
          index_from,
          append_assoc,
          drop-append,
          index_byte-append slash (u.authority) _ plain,
        )
        (rw (scheme_end-uri, length-append (scheme_text (u.scheme)) (u.authority)) refl)

  is_uri-uri : is_uri (uri_text u) ≡ true
  is_uri-uri = rw (append_assoc) (is_uri-scheme (u.scheme) _)

  -- Of a connection URI with a path, whose authority has no slash and whose database's name has no question
  -- mark, replaceDBName replaces the name of the database and keeps the scheme, the authority and the
  -- parameters, which may have slashes.
  pub replace_db_name-uri :
      (name : List ℕ)
      → Lacks question (u.database)
      → replace_db_name (uri_text u) name ≡ uri_text (record u { database = name })
  unfolding replace_db_name
  replace_db_name-uri name plain_name =
      rw
        (
          is_uri-uri,
          db_start-uri,
          drop-db_end (uri_text u) (u.database) (u.parameters) (suc (length front))
              (drop_segment slash front _) plain_name,
          take_segment slash front,
        )
        (append_assoc (front ++ slash ∷ []) name (query (u.parameters))
          ∙ append_assoc front (slash ∷ []) (name ++ query (u.parameters)))
