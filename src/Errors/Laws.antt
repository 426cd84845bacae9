-- ===== src/Errors/Laws.antt =====
-- What `errors.As` and `errors.Is` find in the errors that the packages build (pkg/platform/errors.go).
use goplatform.Prelude.{
  String, ◌≡◌, refl, ap, Bool, ◌||◌, Option, none, some, List, [], ◌∷◌, ◌∙◌, arith,
}
use goplatform.Errors.{
  Error, PlatformError, join, join2, to_errors, ErrorCode, Arg, code_internal, wrap, wrap_error,
  get_code, is_error, any_error, or_else, is, any_is,
}

-- The code of the first error in the list that has one, or the internal code.
abbrev pub first_code : List Error → Option PlatformError
first_code [] = none
first_code (e ∷ es) = or_else (is_error e) (first_code es)

pub any_error-to_errors : (es : List Error) → any_error (to_errors es) ≡ first_code es
unfolding any_error
any_error-to_errors [] = refl
any_error-to_errors (e ∷ es) = ap (or_else (is_error e)) (any_error-to_errors es)

abbrev pub is_option : String → Option Error → Bool
is_option s none = Bool.false
is_option s (some e) = is s e

pub is-join2 :
    (s : String) (a b : Option Error) → is_option s (join2 a b) ≡ (is_option s a || is_option s b)
unfolding join2 is any_is
is-join2 s a b = ground arith

pub is-join : (s : String) (errs : List Error) → is_option s (join errs) ≡ any_is s (to_errors errs)
unfolding join is any_is
is-join s [] = refl
is-join s (e ∷ es) = refl

-- Layers of `fmt.Errorf("…: %w", …)` around an error, the last one outermost.
pub wrap_layers : List (String × List Arg) → Error → Error
wrap_layers [] e = e
wrap_layers ((format, args) ∷ layers) e = wrap_layers layers (wrap format args e)

or_else-none {ℓ} : {A : Type ℓ} (o : Option A) → or_else o none ≡ o
or_else-none none = refl
or_else-none (some a) = refl

is_error-wrap_layers :
    (layers : List (String × List Arg)) (e : Error) → is_error (wrap_layers layers e) ≡ is_error e
unfolding wrap_layers is_error any_error
is_error-wrap_layers [] e = refl
is_error-wrap_layers ((format, args) ∷ layers) e =
    is_error-wrap_layers layers (wrap format args e) ∙ or_else-none (is_error e)

is-wrap_layers :
    (s : String) (layers : List (String × List Arg)) (e : Error)
    → is s (wrap_layers layers e) ≡ is s e
unfolding wrap_layers is any_is
is-wrap_layers s [] e = refl
is-wrap_layers s ((format, args) ∷ layers) e =
    is-wrap_layers s layers (wrap format args e) ∙ ground arith

-- However often an error is wrapped with `%w`, GetCode returns the code it returns for the error
-- itself, and `errors.Is` finds the same sentinels in it.
pub wrap_transparent :
    (s : String) (layers : List (String × List Arg)) (e : Error)
    → (get_code (wrap_layers layers e) ≡ get_code e) × (is s (wrap_layers layers e) ≡ is s e)
unfolding get_code
wrap_transparent s layers e =
    (rw (is_error-wrap_layers layers e, get_code) refl, is-wrap_layers s layers e)

-- WrapError has the code that it is given, whatever code its cause has, and `errors.Is` sees the
-- cause through it and nothing else.
pub wrap_error_lem :
    (s msg : String) (code : ErrorCode) (cause : Option Error)
    → (get_code (wrap_error code msg cause) ≡ code)
      × (is s (wrap_error code msg cause) ≡ is_option s cause)
unfolding wrap_error get_code is_error is
wrap_error_lem s msg code none = (refl, refl)
wrap_error_lem s msg code (some cause) = (refl, refl)

-- The code of the first domain error in the list, in its order; internal where there is none.
abbrev pub code_of : Option PlatformError → ErrorCode
code_of none = code_internal
code_of (some pe) = pe.code

abbrev pub code_option : Option Error → ErrorCode
code_option none = code_internal
code_option (some e) = get_code e

-- GetCode of joined errors is the code of the first of them that is or wraps a domain error, and
-- the internal code if none does.
pub get_code-join : (errs : List Error) → code_option (join errs) ≡ code_of (first_code errs)
unfolding join get_code is_error any_error
get_code-join [] = refl
get_code-join (x ∷ xs) = rw (any_error-to_errors xs, get_code) (ground arith)
