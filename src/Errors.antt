-- ===== src/Errors.antt =====
-- pkg/platform/errors.go, with the Go error values that the packages build: `errors.New` sentinels,
-- `fmt.Errorf` with `%w`, `errors.Join`, and the domain errors of this package.
pub mod Laws
mod Tests
use goplatform.Prelude.{
  ℕ, ℤ, pos, String, Bool, false, ◌||◌, Option, none, some, List, [], ◌∷◌, ◌++◌, eq_ℤ, str_eq,
  if◌then◌else◌,
}

-- `type ErrorCode int`, and its constants in `iota` order.
abbrev pub ErrorCode : Type 0
ErrorCode = ℤ

abbrev pub code_internal : ErrorCode
code_internal = pos 0

abbrev pub code_not_found : ErrorCode
code_not_found = pos 1

abbrev pub code_already_exists : ErrorCode
code_already_exists = pos 2

abbrev pub code_invalid_argument : ErrorCode
code_invalid_argument = pos 3

abbrev pub code_permission_denied : ErrorCode
code_permission_denied = pos 4

abbrev pub code_unauthenticated : ErrorCode
code_unauthenticated = pos 5

abbrev pub code_unavailable : ErrorCode
code_unavailable = pos 6

-- An argument of `fmt.Errorf` that is no error: `%q`/`%s` text, as a literal or as its bytes, `%d` number.
pub data Arg : Type 0 where
  text : String → Arg
  num : ℕ → Arg
  bytes : List ℕ → Arg

mutual
  pub data Error : Type 0 where
    -- `errors.New(text)` held in a package variable: the text identifies it.
    sentinel : String → Error
    -- `fmt.Errorf(format, …)`: the plain arguments, the errors under `%w`, those under `%v`.
    errorf : String → List Arg → Errors → Errors → Error
    -- `errors.Join` of at least one error that is not nil.
    joined : Errors → Error
    -- `&platformError{code, msg, cause}`, with a nil cause and with another.
    plain : ErrorCode → String → Error
    caused : ErrorCode → String → Error → Error

  pub data Errors : Type 0 where
    nil : Errors
    cons : Error → Errors → Errors

-- errors.Join: nil arguments are dropped, and nothing but nil gives nil.
abbrev pub to_errors : List Error → Errors
to_errors [] = nil
to_errors (e ∷ es) = cons e (to_errors es)

unfoldable pub join : List Error → Option Error
join [] = none
join (e ∷ es) = some (joined (cons e (to_errors es)))

abbrev pub somes : List (Option Error) → List Error
somes [] = []
somes (none ∷ os) = somes os
somes (some e ∷ os) = e ∷ somes os

-- `errors.Join(a, b)`
unfoldable pub join2 : Option Error → Option Error → Option Error
unfolding join
join2 a b = join (somes (a ∷ b ∷ []))

abbrev pub wrap : String → List Arg → Error → Error
wrap format args e = errorf format args (cons e nil) nil

abbrev pub failure : String → List Arg → Error
failure format args = errorf format args nil nil

unfoldable pub new_error : ErrorCode → String → Error
new_error code msg = plain code msg

unfoldable pub wrap_error : ErrorCode → String → Option Error → Error
wrap_error code msg none = plain code msg
wrap_error code msg (some cause) = caused code msg cause

-- `platformError`: the value behind the two constructors `plain` and `caused`.
pub record PlatformError : Type 0 where
  pub code : ErrorCode
  pub msg : String
  pub cause : Option Error

abbrev pub or_else {ℓ} : {A : Type ℓ} → Option A → Option A → Option A
or_else (some a) o = some a
or_else none o = o

-- `errors.As(err, &pe)`: the tree of wrapped errors, each before what it wraps, in order. An
-- argument under `%v` is no part of the tree.
unfoldable mutual
  pub is_error : Error → Option PlatformError
  is_error (sentinel t) = none
  is_error (errorf format args wrapped shown) = any_error wrapped
  is_error (joined es) = any_error es
  is_error (plain c m) = some (record { code = c; msg = m; cause = none })
  is_error (caused c m e) = some (record { code = c; msg = m; cause = some e })

  pub any_error : Errors → Option PlatformError
  any_error nil = none
  any_error (cons e es) = or_else (is_error e) (any_error es)

unfoldable pub get_code : Error → ErrorCode
get_code err = elim (is_error err) [ some pe ↦ pe.code | none ↦ code_internal ]

-- `errors.Is(err, sentinel)` over the same tree.
unfoldable mutual
  pub is : String → Error → Bool
  is s (sentinel t) = str_eq t s
  is s (errorf format args wrapped shown) = any_is s wrapped
  is s (joined es) = any_is s es
  is s (plain c m) = false
  is s (caused c m e) = is s e

  pub any_is : String → Errors → Bool
  any_is s nil = false
  any_is s (cons e es) = is s e || any_is s es

-- Text as its formatting builds it: literal text, a number in decimal, the text of an error.
pub data Chunk : Type 0 where
  lit : String → Chunk
  dec : ℤ → Chunk
  shown_error : Error → Chunk

unfoldable pub code_string : ErrorCode → List Chunk
code_string c =
    if eq_ℤ c code_internal
    then lit "internal" ∷ []
    else if eq_ℤ c code_not_found
    then lit "not_found" ∷ []
    else if eq_ℤ c code_already_exists
    then lit "already_exists" ∷ []
    else if eq_ℤ c code_invalid_argument
    then lit "invalid_argument" ∷ []
    else if eq_ℤ c code_permission_denied
    then lit "permission_denied" ∷ []
    else if eq_ℤ c code_unauthenticated
    then lit "unauthenticated" ∷ []
    else if eq_ℤ c code_unavailable
    then lit "unavailable" ∷ []
    else lit "unknown(" ∷ dec c ∷ lit ")" ∷ []

cause_string : Option Error → List Chunk
cause_string none = []
cause_string (some cause) = lit ": " ∷ shown_error cause ∷ []

-- `(*platformError).Error`
unfoldable pub error_string : PlatformError → List Chunk
unfolding code_string cause_string
error_string e =
    lit "platform: " ∷ (code_string e.code ++ (lit ": " ∷ lit e.msg ∷ cause_string e.cause))
