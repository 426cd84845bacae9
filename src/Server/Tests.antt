-- ===== src/Server/Tests.antt =====
-- The interceptor and the idempotency middleware at concrete handlers.
use goplatform.Prelude.{
  ℕ, pos, ◌≡◌, refl, ◌⊎◌, inl, inr, String, Bool, true, false, Option, none, some, [], ◌∷◌, eq_refl,
}
use goplatform.Prelude.Dict.{Dict, lookup, insert, lookup-insert}
use goplatform.Errors.{Error, sentinel, plain, code_not_found, wrap}
use goplatform.Server.ErrorInterceptor.{Answered, error_interceptor, interceptor_code}
use goplatform.Server.Idempotency.{
  Request, Response, Stored, Store, LawfulStore, idempotency_middleware, duplicate_same_answer,
}

abbrev failing : Error → ℕ → ℕ → ℕ × ℕ × Option Error
failing e req w = (w, 0, some e)

abbrev missing : Error
missing = wrap "load: %w" [] (plain code_not_found "order")

interceptor_code_example : Answered (failing missing 1 2) (error_interceptor (failing missing) 1 2)
interceptor_code_example = interceptor_code (failing missing) 1 2

-- A store that never fails and lets nothing expire.
abbrev set_nx_in : Option Stored → String → Stored → Dict Stored → Dict Stored × (Bool ⊎ Error)
set_nx_in none key v w = (insert key v w, inl true)
set_nx_in (some u) key v w = (w, inl false)

abbrev get_in : Option Stored → Stored ⊎ Error
get_in none = inr (sentinel "redis: key not found")
get_in (some u) = inl u

abbrev memory : Store (Dict Stored)
memory = record {
  set_nx = λ key v ttl w. set_nx_in (lookup key w) key v w;
  get = λ key w. (w, get_in (lookup key w));
  set = λ key v ttl w. (insert key v w, none);
}

memory-LawfulStore : LawfulStore memory lookup
memory-LawfulStore = record {
  set_nx_new = λ key v ttl w new. rw new refl;
  set_nx_there = λ key v u ttl w there. rw there (refl, there);
  get_value = λ key u w there. rw there refl;
  set_value = λ key v ttl w. rw lookup-insert (rw eq_refl refl);
}

abbrev created : Request ℕ → Dict Stored → Dict Stored × Response
created r w =
    (w, record { status_code = 201; headers = ("Location", "/1" ∷ []) ∷ []; body = "made" })

abbrev order : Request ℕ
order = record { idempotency_key = "k1"; rest = 5 }

duplicate_same_answer_example :
    let (w', answer) = idempotency_middleware memory (pos 60) created order [] in
    (idempotency_middleware memory
      (pos 60)
      created
      (record { idempotency_key = "k1"; rest = 6 })
      w').1
    ≡ answer
unfolding lookup
duplicate_same_answer_example =
    duplicate_same_answer memory (pos 60) lookup memory-LawfulStore created created order
      (record { idempotency_key = "k1"; rest = 6 }) [] 200 refl refl refl refl
