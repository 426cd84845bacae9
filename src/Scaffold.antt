-- ===== src/Scaffold.antt =====
-- internal/scaffold/scaffold.go: the functions that make names, and which components are rendered. A
-- string is the list of its ASCII characters; `Case` is strings.ToUpper and strings.ToLower on one. Other
-- characters are not modelled. Scaffold.Render has Render.
pub mod Names
pub mod Files
pub mod Render
mod Tests
use goplatform.Prelude.{
  ℕ, zero, suc, ◌+◌, ◌-◌, String, Bool, true, false, ◌||◌, ◌&&◌, Option, none, some, List, [], ◌∷◌,
  ◌++◌, map, ◌==◌, leb, length, str_eq, if◌then◌else◌,
}
use goplatform.Prelude.Bytes.{codes, eq_bytes, take, has_suffix}

pub record Data : Type 0 where
  pub name : List ℕ
  pub module_path : List ℕ
  pub postgres : Bool
  pub kafka : Bool
  pub nats : Bool
  pub redis : Bool
  pub temporal : Bool
  pub s3 : Bool
  pub connect : Bool

pub record Case : Type 0 where
  pub upper : ℕ → ℕ
  pub lower : ℕ → ℕ

unfoldable pub component_enabled : List ℕ → Data → Bool
component_enabled component d =
    if eq_bytes component (codes "postgres")
    then d.postgres
    else if eq_bytes component (codes "kafka")
    then d.kafka
    else if eq_bytes component (codes "nats")
    then d.nats
    else if eq_bytes component (codes "redis")
    then d.redis
    else if eq_bytes component (codes "temporal")
    then d.temporal
    else if eq_bytes component (codes "s3")
    then d.s3
    else if eq_bytes component (codes "connect")
    then d.connect
    else false

-- '-' and '_'
abbrev pub dash : ℕ
dash = 45

abbrev pub underscore : ℕ
underscore = 95

abbrev pub is_separator : ℕ → Bool
is_separator r = (r == dash) || (r == underscore)

unfoldable pub snake_case : List ℕ → List ℕ
snake_case s = map (λ c. if c == dash then underscore else c) s

abbrev pub service : List ℕ
service = codes "service"

abbrev pub svc : List ℕ
svc = codes "svc"

-- The four suffixes, in order.
abbrev pub suffixes : List (List ℕ)
suffixes = (dash ∷ service) ∷ (underscore ∷ service) ∷ (dash ∷ svc) ∷ (underscore ∷ svc) ∷ []

-- The loop over the suffixes, which ends with the first that the lower-case name has.
unfoldable pub strip : List (List ℕ) → List ℕ → List ℕ → List ℕ
unfolding has_suffix
strip [] lowered s = s
strip (suffix ∷ rest) lowered s =
    if has_suffix lowered suffix then take (length s - length suffix) s else strip rest lowered s

module _ (c : Case) where
  unfoldable pub title_case : List ℕ → List ℕ
  title_case [] = []
  title_case (r ∷ rs) = c.upper r ∷ rs

  -- The loop of pascalCase; `upper` is its flag.
  unfoldable pub pascal_from : Bool → List ℕ → List ℕ
  pascal_from upper [] = []
  pascal_from upper (r ∷ rs) =
      let after_separator = pascal_from true rs in
      let after_letter = pascal_from false rs in
      if is_separator r
      then after_separator
      else if upper
      then c.upper r ∷ after_letter
      else r ∷ after_letter

  unfoldable pub pascal_case : List ℕ → List ℕ
  unfolding pascal_from
  pascal_case s = pascal_from true s

  unfoldable pub service_name : List ℕ → List ℕ
  unfolding strip pascal_case
  service_name s = pascal_case (strip suffixes (map c.lower s) s)
