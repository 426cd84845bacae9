-- ===== src/Server/ErrorInterceptor.antt =====
-- pkg/server/errorinterceptor.go: domain errors become ConnectRPC errors.
use goplatform.Prelude.{
  ℕ, zero, suc, ◌<◌, pos, negsuc, subst, String, ◌≡◌, refl, sym, ap, ◌∙◌, append_assoc, eq_ℤ_iff,
  Option, none, some, List, [], ◌∷◌, ◌++◌, arith, eq_ℤ, if◌then◌else◌, ◌⊎◌, inl, inr,
}
use goplatform.Errors.{
  ErrorCode, Error, PlatformError, Chunk, lit, shown_error, code_internal, code_not_found,
  code_already_exists, code_invalid_argument, code_permission_denied, code_unauthenticated,
  code_unavailable, is_error, get_code, code_string, error_string, wrap_error,
}

-- The codes of `connect.Code` that the mapping uses.
pub data ConnectCode : Type 0 where
  internal not_found already_exists invalid_argument permission_denied : ConnectCode
  unauthenticated unavailable : ConnectCode

unfoldable pub map_platform_code : ErrorCode → ConnectCode
map_platform_code code =
    if eq_ℤ code code_not_found
    then not_found
    else if eq_ℤ code code_already_exists
    then already_exists
    else if eq_ℤ code code_invalid_argument
    then invalid_argument
    else if eq_ℤ code code_permission_denied
    then permission_denied
    else if eq_ℤ code code_unauthenticated
    then unauthenticated
    else if eq_ℤ code code_unavailable
    then unavailable
    else internal

-- `connect.NewError(code, err)`. The underlying error is either the domain error or a fresh one.
pub data Underlying : Type 0 where
  domain : PlatformError → Underlying
  fresh : String → Underlying

pub record ConnectError : Type 0 where
  pub code : ConnectCode
  pub underlying : Underlying

pub data Reply (R : Type 0) : Type 0 where
  response : R → Reply R
  error : ConnectError → Reply R

-- What the interceptor makes of what `next` returned.
unfoldable pub convert : Error → ConnectError
unfolding map_platform_code
convert err = elim (is_error err) [
  | some pe ↦ record { code = map_platform_code pe.code; underlying = domain pe }
  | none ↦ record { code = internal; underlying = fresh "internal error" }
]

module _ {W Req R : Type 0} where
  unfoldable pub error_interceptor : (Req → W → W × R × Option Error) → Req → W → W × Reply R
  unfolding convert
  error_interceptor next req w =
      let (w', resp, err) = next req w in
      elim err [ none ↦ (w', response resp) | some e ↦ (w', error (convert e)) ]

-- The text of an error that is made of its own words alone.
unfoldable pub client_text : Underlying → List Chunk
client_text (domain pe) = error_string pe
client_text (fresh msg) = lit msg ∷ []

-- Which connect code belongs to a platform code.
pub data SameName : ErrorCode → ConnectCode → Type 0 where
  not_found_name : SameName (pos 1) not_found
  already_exists_name : SameName (pos 2) already_exists
  invalid_argument_name : SameName (pos 3) invalid_argument
  permission_denied_name : SameName (pos 4) permission_denied
  unauthenticated_name : SameName (pos 5) unauthenticated
  unavailable_name : SameName (pos 6) unavailable
  internal_name : SameName (pos 0) internal
  beyond : (n : ℕ) → 6 < n → SameName (pos n) internal
  negative : (n : ℕ) → SameName (negsuc n) internal

map_platform_code-beyond : (n : ℕ) → 6 < n → map_platform_code (pos n) ≡ internal
unfolding map_platform_code
map_platform_code-beyond n h = ground arith

map_platform_code-SameName : (c : ErrorCode) → SameName c (map_platform_code c)
unfolding map_platform_code
map_platform_code-SameName (pos zero) = internal_name
map_platform_code-SameName (pos (suc zero)) = not_found_name
map_platform_code-SameName (pos (suc (suc zero))) = already_exists_name
map_platform_code-SameName (pos (suc (suc (suc zero)))) = invalid_argument_name
map_platform_code-SameName (pos (suc (suc (suc (suc zero))))) = permission_denied_name
map_platform_code-SameName (pos (suc (suc (suc (suc (suc zero)))))) = unauthenticated_name
map_platform_code-SameName (pos (suc (suc (suc (suc (suc (suc zero))))))) = unavailable_name
map_platform_code-SameName (pos (suc (suc (suc (suc (suc (suc (suc n)))))))) =
    subst (SameName _)
      (sym (map_platform_code-beyond (suc (suc (suc (suc (suc (suc (suc n))))))) (omega arith)))
      (beyond (suc (suc (suc (suc (suc (suc (suc n))))))) (omega arith))
map_platform_code-SameName (negsuc n) = negative n

convert_code : (x : Error) → map_platform_code (get_code x) ≡ (convert x).code
unfolding convert map_platform_code get_code
convert_code x = ground arith

-- What the interceptor answers for what the handler returned: the world and the response, or the error.
pub data Answered {W R : Type 0} (ran : W × R × Option Error) (out : W × Reply R) : Type 0 where
  passed : ran.2 ≡ none → out ≡ (ran.0, response ran.1) → Answered ran out
  refused :
      (err : Error) (e : ConnectError)
      → ran.2 ≡ some err
      → out ≡ (ran.0, error e)
      → SameName (get_code err) e.code
      → Answered ran out

module _ {W Req R : Type 0} (next : Req → W → W × R × Option Error) (req : Req) (w : W) where
  -- A handler's response passes through, with its effects. Every error comes back as a connect error under
  -- the connect code of the same name as the error's GetCode, or under internal where there is none; so
  -- under internal for an error that is no domain error.
  pub interceptor_code : Answered (next req w) (error_interceptor next req w)
  unfolding error_interceptor convert
  interceptor_code = go (next req w)
    where
      code_lem : (x : Error) → SameName (get_code x) (convert x).code
      code_lem x = subst (SameName (get_code x)) (convert_code x) (map_platform_code-SameName _)

      go :
          (ran : W × R × Option Error)
          → Answered ran
              (elim ran.2 [ none ↦ (ran.0, response ran.1) | some e ↦ (ran.0, error (convert e)) ])
      go (w', resp, none) = passed refl refl
      go (w', resp, some e) = refused e (convert e) refl refl (code_lem e)

  -- Nothing of an error that wraps no domain error reaches the client: every such error gives the
  -- same reply.
  pub interceptor_hides :
      (err : Error)
      → (next req w).2 ≡ some err
      → is_error err ≡ none
      → (error_interceptor next req w).1
        ≡ error (record { code = internal; underlying = fresh "internal error" })
  unfolding error_interceptor convert
  interceptor_hides err h n = rw (h, n, convert, error_interceptor) refl

unmap : ConnectCode → ErrorCode
unmap internal = code_internal
unmap not_found = code_not_found
unmap already_exists = code_already_exists
unmap invalid_argument = code_invalid_argument
unmap permission_denied = code_permission_denied
unmap unauthenticated = code_unauthenticated
unmap unavailable = code_unavailable

unmap-map_platform_code :
    (c : ErrorCode) → (unmap (map_platform_code c) ≡ c) ⊎ (map_platform_code c ≡ internal)
unfolding map_platform_code unmap
unmap-map_platform_code c = ground (
  arith,
  eq_ℤ_iff c code_not_found,
  eq_ℤ_iff c code_already_exists,
  eq_ℤ_iff c code_invalid_argument,
  eq_ℤ_iff c code_permission_denied,
  eq_ℤ_iff c code_unauthenticated,
  eq_ℤ_iff c code_unavailable,
)

-- The mapping keeps the codes apart: two platform codes with one connect code are equal, or both
-- are sent to internal.
pub map_platform_code_injective :
    (c d : ErrorCode)
    → map_platform_code c ≡ map_platform_code d
    → (c ≡ d) ⊎ ((map_platform_code c ≡ internal) × (map_platform_code d ≡ internal))
map_platform_code_injective c d h = elim (unmap-map_platform_code c) [
  | inl back ↦ elim (unmap-map_platform_code d) [
    | inl back' ↦ inl (sym back ∙ ap unmap h ∙ back')
    | inr e ↦ inr (h ∙ e, e)
  ]
  | inr e ↦ inr (e, sym h ∙ e)
]

-- The client's text ends with the cause of a domain error that was made by WrapError.
pub interceptor_shows_cause :
    (code : ErrorCode) (msg : String) (cause : Error)
    → (start : List Chunk) × (client_text (convert (wrap_error code msg (some cause))).underlying
        ≡ start ++ shown_error cause ∷ [])
unfolding client_text convert wrap_error is_error error_string
interceptor_shows_cause code msg cause = (
  lit "platform: " ∷ (code_string code ++ (lit ": " ∷ lit msg ∷ lit ": " ∷ [])),
  ap (λ t. lit "platform: " ∷ t) (sym (append_assoc (code_string code) _ _)),
)
