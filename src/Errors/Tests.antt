-- ===== src/Errors/Tests.antt =====
-- The laws of errors at concrete errors.
use goplatform.Prelude.{◌≡◌, refl, [], ◌∷◌}
use goplatform.Errors.{Error, sentinel, plain, code_not_found, get_code, is_error, join}
use goplatform.Errors.Laws.{code_option}

abbrev missing : Error
missing = plain code_not_found "order"

joined_code : code_option (join (sentinel "eof" ∷ missing ∷ [])) ≡ code_not_found
unfolding join get_code is_error
joined_code = refl
