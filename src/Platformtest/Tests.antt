-- ===== src/Platformtest/Tests.antt =====
-- Addresses as they stand in the tests of services.
use goplatform.Prelude.{
  ℕ, Bool, true, false, pos, ◌≡◌, refl, Option, none, some, List, [], ◌∷◌, ◌++◌, inl, if◌then◌else◌,
}
use goplatform.Prelude.Bytes.{
  codes, eq_bytes, eq_bytes_refl, after_prefix, index_byte, index_byte-Lacks,
}
use goplatform.Errors.{sentinel}
use goplatform.Postgres.Db.{Db, PgxPool, new, apply_db_options, stop}
use goplatform.Platformtest.{
  slash, question, replace_db_name, is_uri, slashes, scheme_end, index_from, db_start, db_end,
  append_name,
}
use goplatform.Platformtest.Database.{Sql, hex, new_test_db, clean_up}
use goplatform.Platformtest.Database.Left.{TracksDatabases, new_test_db-clean_up}
use goplatform.Platformtest.Replaced.{Scheme, Uri, uri_text, replace_db_name-uri}

abbrev local : Uri
local = record {
  scheme = Scheme.postgres;
  authority = codes "app:secret@localhost:5432";
  database = codes "postgres";
  parameters = some (codes "sslmode=disable&options=/x");
}

replace_db_name-uri_example :
    replace_db_name (uri_text local) (codes "test_1")
    ≡ uri_text (record local { database = codes "test_1" })
unfolding index_byte
replace_db_name-uri_example =
    replace_db_name-uri local (index_byte-Lacks slash (local.authority) refl) (codes "test_1")
      (index_byte-Lacks question (local.database) refl)

uri_in_full : replace_db_name (codes "postgresql://h/a?b") (codes "c") ≡ codes "postgresql://h/c?b"
unfolding replace_db_name is_uri slashes scheme_end index_from db_start db_end after_prefix
    index_byte
uri_in_full = refl

without_path : replace_db_name (codes "postgres://h") (codes "c") ≡ codes "postgres://h/c"
unfolding replace_db_name is_uri slashes scheme_end index_from db_start append_name after_prefix
    index_byte
without_path = refl

-- The parameters of a URI without a path.
parameters_without_path :
    replace_db_name (codes "postgres://h?a=b") (codes "c") ≡ codes "postgres://h?a=b/c"
unfolding replace_db_name is_uri slashes scheme_end index_from db_start append_name after_prefix
    index_byte
parameters_without_path = refl

keywords : replace_db_name (codes "host=h") (codes "c") ≡ codes "host=h dbname=c"
unfolding replace_db_name is_uri after_prefix
keywords = refl

-- The databases that were created and dropped, the last one first.
abbrev Server : Type 0
Server = List (List ℕ × Bool)

abbrev has : List ℕ → Server → Bool
has name [] = false
has name ((other, there) ∷ rest) =
    let before = has name rest in if eq_bytes other name then there else before

abbrev dropping : Option (List ℕ) → Server → Server
dropping none w = w
dropping (some name) w = (name, false) ∷ w

abbrev running : Option (List ℕ) → Option (List ℕ) → Server → Server
running (some name) dropped w = (name, true) ∷ w
running none dropped w = dropping dropped w

abbrev server : Sql Server Unit
server = record {
  random = λ w. (w, inl (10 ∷ 255 ∷ []));
  open_db = λ dsn w. (w, inl _);
  exec = λ a text w. (
    running (after_prefix (codes "CREATE DATABASE ") text)
        (after_prefix (codes "DROP DATABASE IF EXISTS ") text) w,
    none,
  );
  close = λ a w. (w, none);
}

-- A pool that does not get a connection.
abbrev unreachable : PgxPool Server ℕ ℕ ℕ Unit
unreachable = record {
  parse_config = λ dsn. inl (record {
    max_conns = pos 4;
    min_conns = pos 0;
    connect_timeout = pos 0;
    tracer = none;
    other = _;
  });
  new_with_config = λ cfg w. (w, inl 1);
  ping = λ pool w. (w, some (sentinel "refused"));
  close = λ pool w. w;
}

server-TracksDatabases : TracksDatabases server unreachable has
unfolding after_prefix
server-TracksDatabases = record {
  made_one = λ a name w ok. rw (eq_bytes_refl name) refl;
  dropped_one = λ a name w ok. rw (eq_bytes_refl name) refl;
  closing = λ a name w. refl;
  pool_made = λ cfg name w. refl;
  pool_pinged = λ p name w. refl;
  pool_closed = λ p name w. refl;
}

abbrev test_name : List ℕ
test_name = codes "test_" ++ hex (10 ∷ 255 ∷ [])

test_name_text : test_name ≡ codes "test_0aff"
test_name_text = refl

abbrev no_db : Db ℕ ℕ ℕ
no_db = new []

new_test_db-clean_up_example :
    (has test_name (new_test_db server unreachable (codes "postgres://h/a") [] []).0 ≡ true)
    × (has test_name
          (clean_up server unreachable
            (codes "postgres://h/a")
            test_name
            no_db
            ((test_name, true) ∷ [])).1
        ≡ false)
unfolding new apply_db_options clean_up stop after_prefix
new_test_db-clean_up_example =
    new_test_db-clean_up server unreachable has server-TracksDatabases (codes "postgres://h/a")
      (10 ∷ 255 ∷ []) [] _ [] [] [] ((test_name, true) ∷ []) no_db refl refl refl refl
