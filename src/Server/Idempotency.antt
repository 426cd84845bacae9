-- ===== src/Server/Idempotency.antt =====
-- pkg/server/idempotency.go. The store is the parameter `Store`; a value in it is the JSON that was
-- put there. TTLs only reach the store. A handler that panics is not modelled: the panic leaves the
-- middleware, and the key stays as "processing".
use Prim.Native.String.{◌++◌ as str_append}
use goplatform.Prelude.{
  ℕ, suc, ℤ, String, ◌≡◌, refl, sym, ap, ◌∙◌, Bool, true, false, Option, none, some, List, [], ◌∷◌,
  ◌⊎◌, inl, inr, str_eq, ◌==◌, arith, if◌then◌else◌,
}
use goplatform.Prelude.Dict.{Dict}
use goplatform.Errors.{Error}

-- The values under a header's key; a key with no values reads as "".
abbrev pub first_value : List String → String
first_value [] = ""
first_value (v ∷ vs) = v

pub record Response : Type 0 where
  pub status_code : ℕ
  pub headers : Dict (List String)
  pub body : String

pub record CachedResponse : Type 0 where
  pub status_code : ℕ
  pub headers : Dict String
  pub body : String

-- The JSON of the string "processing" and of a cachedResponse.
pub data Stored : Type 0 where
  processing : Stored
  completed : CachedResponse → Stored

pub record Request (R : Type 0) : Type 0 where
  pub idempotency_key : String
  pub rest : R

abbrev pub HttpHandler : Type 0 → Type 0 → Type 0
HttpHandler W R = Request R → W → W × Response

-- IdempotencyStore
pub record Store (W : Type 0) : Type 0 where
  pub set_nx : String → Stored → ℤ → W → W × (Bool ⊎ Error)
  pub get : String → W → W × (Stored ⊎ Error)
  pub set : String → Stored → ℤ → W → W × Option Error

first_values : Dict (List String) → Dict String
first_values [] = []
first_values ((k, vs) ∷ hs) = (k, first_value vs) ∷ first_values hs

as_lists : Dict String → Dict (List String)
as_lists [] = []
as_lists ((k, v) ∷ hs) = (k, v ∷ []) ∷ as_lists hs

unfoldable pub to_cached : Response → CachedResponse
unfolding first_values
to_cached r = record {
  status_code = r.status_code;
  headers = first_values r.headers;
  body = r.body;
}

-- What is written to the client of a captured or cached response.
unfoldable pub replay : CachedResponse → Response
unfolding as_lists
replay c = record { status_code = c.status_code; headers = as_lists c.headers; body = c.body }

-- `http.Error` with status 500.
unfoldable pub store_error : Response
store_error = record {
  status_code = 500;
  headers =
      ("Content-Type", "text/plain; charset=utf-8" ∷ [])
      ∷ ("X-Content-Type-Options", "nosniff" ∷ [])
      ∷ [];
  body = "{\"error\":\"idempotency store error\"}\n";
}

unfoldable pub conflict : Response
conflict = record {
  status_code = 409;
  headers = ("Content-Type", "application/json" ∷ []) ∷ [];
  body = "{\"error\":\"concurrent request with same idempotency key\"}";
}

-- Unmarshalling into a cachedResponse fails for a string; a status of 0 counts as no response.
unfoldable pub answer_stored : Stored → Response
unfolding conflict replay
answer_stored processing = conflict
answer_stored (completed c) = if c.status_code == 0 then conflict else replay c

abbrev pub store_key : String → String
store_key key = str_append "idem:" key

module _ {W R : Type 0} (store : Store W) (ttl : ℤ) (next : HttpHandler W R) where
  -- A new key.
  unfoldable pub run_first : String → Request R → W → W × Response
  unfolding to_cached replay
  run_first key r w =
      let (w1, response) = next r w in
      let (w2, ignored) = store.set key (completed (to_cached response)) ttl w1 in
      (w2, replay (to_cached response))

  abbrev after_get : Stored ⊎ Error → W → W × Response
  after_get (inl stored) w = (w, answer_stored stored)
  after_get (inr e) w = (w, store_error)

  -- A key that was there.
  unfoldable pub answer_existing : String → W → W × Response
  unfolding answer_stored store_error
  answer_existing key w = let (w1, got) = store.get key w in after_get got w1

  abbrev after_set_nx : String → Request R → Bool ⊎ Error → W → W × Response
  after_set_nx key r (inl true) w = run_first key r w
  after_set_nx key r (inl false) w = answer_existing key w
  after_set_nx key r (inr e) w = (w, store_error)

  unfoldable pub idempotency_middleware : HttpHandler W R
  unfolding run_first answer_existing store_error
  idempotency_middleware r w =
      if str_eq r.idempotency_key ""
      then next r w
      else let key = store_key r.idempotency_key in
        let (w1, set) = store.set_nx key processing ttl w in after_set_nx key r set w1

-- What a store does that is reached and lets nothing expire: `value` is what it holds.
pub record LawfulStore {W : Type 0} (store : Store W) (value : String → W → Option Stored)
    : Type 0 where
  pub set_nx_new :
      (key : String) (v : Stored) (ttl : ℤ) (w : W)
      → value key w ≡ none
      → (store.set_nx key v ttl w).1 ≡ inl true
  pub set_nx_there :
      (key : String) (v u : Stored) (ttl : ℤ) (w : W)
      → value key w ≡ some u
      → ((store.set_nx key v ttl w).1 ≡ inl false)
        × (value key (store.set_nx key v ttl w).0 ≡ some u)
  pub get_value :
      (key : String) (u : Stored) (w : W) → value key w ≡ some u → (store.get key w).1 ≡ inl u
  pub set_value :
      (key : String) (v : Stored) (ttl : ℤ) (w : W) → value key (store.set key v ttl w).0 ≡ some v

module _ {W R : Type 0} (store : Store W) (ttl : ℤ) (value : String → W → Option Stored)
    (lawful : LawfulStore store value) where
  -- For a key that the store holds, the middleware asks the store and answers from what is there,
  -- whatever the handler is, and the handler is not called: the stored response if there is one,
  -- 409 while the first request is being processed.
  pub duplicate_answered :
      (next : HttpHandler W R) (r : Request R) (u : Stored) (w : W)
      → str_eq r.idempotency_key "" ≡ false
      → value (store_key r.idempotency_key) w ≡ some u
      → let key = store_key r.idempotency_key in
        idempotency_middleware store ttl next r w
        ≡ ((store.get key (store.set_nx key processing ttl w).0).0, answer_stored u)
  unfolding idempotency_middleware answer_existing
  duplicate_answered next r u w keyed there =
      let key = store_key r.idempotency_key in
      let (seen, kept) = lawful.set_nx_there key processing u ttl w there in
      let got = lawful.get_value key u (store.set_nx key processing ttl w).0 kept in
      rw (idempotency_middleware, keyed, seen, got) refl

  -- The first request with a key.
  first_stored :
      (next : HttpHandler W R) (r : Request R) (w : W)
      → str_eq r.idempotency_key "" ≡ false
      → value (store_key r.idempotency_key) w ≡ none
      → let key = store_key r.idempotency_key in
        let response = (next r (store.set_nx key processing ttl w).0).1 in
        let (w', answer) = idempotency_middleware store ttl next r w in
        (value key w' ≡ some (completed (to_cached response)))
        × (answer ≡ replay (to_cached response))
  unfolding idempotency_middleware run_first
  first_stored next r w keyed new =
      let key = store_key r.idempotency_key in
      let fresh = lawful.set_nx_new key processing ttl w new in
      rw (idempotency_middleware, keyed, fresh) (lawful.set_value key _ ttl _, refl)

  -- A key that the store does not hold: the request that follows the first one with this key gets
  -- the answer of the first, whatever handler it is for. The status of the first handler's response
  -- is not 0.
  pub duplicate_same_answer :
      (next other : HttpHandler W R) (r again : Request R) (w : W) (s : ℕ)
      → str_eq r.idempotency_key "" ≡ false
      → again.idempotency_key ≡ r.idempotency_key
      → value (store_key r.idempotency_key) w ≡ none
      → (next r (store.set_nx (store_key r.idempotency_key) processing ttl w).0).1.status_code
        ≡ suc s
      → let (w', answer) = idempotency_middleware store ttl next r w in
        (idempotency_middleware store ttl other again w').1 ≡ answer
  unfolding answer_stored to_cached
  duplicate_same_answer next other r again w s keyed same new status =
      let (held, answered) = first_stored next r w keyed new in
      let response = (next r (store.set_nx (store_key r.idempotency_key) processing ttl w).0).1 in
      let keyed' : str_eq again.idempotency_key "" ≡ false = rw same keyed in
      let w' = (idempotency_middleware store ttl next r w).0 in
      let held' : value (store_key again.idempotency_key) w'
          ≡ some (completed (to_cached response)) =
        rw same held in
      let e = duplicate_answered other again _ w' keyed' held' in
      let nonzero : (response.status_code == 0) ≡ false = ground (arith, status) in
      let ok : answer_stored (completed (to_cached response)) ≡ replay (to_cached response) =
        rw nonzero refl in
      ap (λ x. x.1) e ∙ ok ∙ sym answered
