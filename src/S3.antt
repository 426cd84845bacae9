-- ===== src/S3.antt =====
-- pkg/s3: the client of one bucket. The AWS SDK is a parameter: `C` is the type of its clients and `B`
-- that of bodies. The mutex makes Start and Stop one step each; the other methods read the client under
-- it and call the SDK outside of it. The logger is left out.
pub mod Objects
mod Tests
use goplatform.Prelude.{
  ℤ, String, Bool, true, false, ◌||◌, Option, none, some, List, [], ◌∷◌, ◌⊎◌, inl, inr, str_eq,
  if◌then◌else◌,
}
use goplatform.Errors.{Error, sentinel, text, wrap, failure}

unfoldable pub err_not_found : Error
err_not_found = sentinel "s3: object not found"

pub record Client (C : Type 0) : Type 0 where
  pub endpoint : String
  pub region : String
  pub access_key : String
  pub secret_key : String
  pub bucket : String
  pub use_ssl : Bool
  pub s3_client : Option C
  pub started : Bool

pub record UploadOptions : Type 0 where
  pub content_type : String

-- `BaseEndpoint` as its scheme and its rest; with one, paths name the bucket.
pub record Endpoint : Type 0 where
  pub scheme : String
  pub host : String

-- The SDK. `api_code` is errors.As for a smithy.APIError, and its code.
pub record Aws (W C Cfg B : Type 0) : Type 0 where
  pub load_default_config : String → String → String → W → W × (Cfg ⊎ Error)
  pub new_from_config : Cfg → Option Endpoint → C
  pub head_bucket : C → String → W → W × Option Error
  pub put_object : C → String → String → B → Option String → W → W × Option Error
  pub get_object : C → String → String → W → W × (B ⊎ Error)
  pub delete_object : C → String → String → W → W × Option Error
  pub head_object : C → String → String → W → W × Option Error
  pub presign_get_object : C → String → String → ℤ → W → W × (String ⊎ Error)
  pub api_code : Error → Option String

module _ {C : Type 0} where
  unfoldable pub with_endpoint : String → Client C → Client C
  with_endpoint endpoint c = record c { endpoint = endpoint }

  unfoldable pub with_region : String → Client C → Client C
  with_region region c = record c { region = region }

  unfoldable pub with_credentials : String → String → Client C → Client C
  with_credentials access_key secret_key c = record c {
    access_key = access_key;
    secret_key = secret_key;
  }

  unfoldable pub with_bucket : String → Client C → Client C
  with_bucket bucket c = record c { bucket = bucket }

  unfoldable pub with_use_ssl : Bool → Client C → Client C
  with_use_ssl use_ssl c = record c { use_ssl = use_ssl }

  unfoldable pub apply_options : Client C → List (Client C → Client C) → Client C
  apply_options c [] = c
  apply_options c (opt ∷ opts) = apply_options (opt c) opts

  unfoldable pub new : List (Client C → Client C) → Client C ⊎ Error
  unfolding apply_options
  new opts =
      let blank : Client C = record {
        endpoint = "";
        region = "us-east-1";
        access_key = "";
        secret_key = "";
        bucket = "";
        use_ssl = false;
        s3_client = none;
        started = false;
      } in
      let c = apply_options blank opts in
      if str_eq c.bucket "" then inr (failure "s3: bucket is required" []) else inl c

  unfoldable pub base_endpoint : Client C → Option Endpoint
  base_endpoint c =
      if str_eq c.endpoint ""
      then none
      else some (record { scheme = if c.use_ssl then "https" else "http"; host = c.endpoint })

  unfoldable pub stop : Client C → Client C
  stop c = if c.started then record c { started = false; s3_client = none } else c

unfoldable pub with_content_type : String → UploadOptions → UploadOptions
with_content_type ct o = record o { content_type = ct }

unfoldable pub apply_upload_options :
    UploadOptions → List (UploadOptions → UploadOptions) → UploadOptions
apply_upload_options o [] = o
apply_upload_options o (opt ∷ opts) = apply_upload_options (opt o) opts

abbrev pub content_type_of : List (UploadOptions → UploadOptions) → Option String
content_type_of opts =
    let o = apply_upload_options (record { content_type = "" }) opts in
    if str_eq o.content_type "" then none else some o.content_type

abbrev pub not_started : Error
not_started = failure "s3: not started" []

abbrev pub with_key : String → String → Option Error → Option Error
with_key format key none = none
with_key format key (some e) = some (wrap format (text key ∷ []) e)

abbrev pub is_not_found_code : Option String → Bool
is_not_found_code none = false
is_not_found_code (some code) =
    str_eq code "NoSuchKey" || str_eq code "NotFound" || str_eq code "404"

module _ {W C Cfg B : Type 0} (aws : Aws W C Cfg B) where
  unfoldable pub is_not_found_error : Error → Bool
  is_not_found_error err = is_not_found_code (aws.api_code err)

  -- After HeadBucket with the new client.
  abbrev pub headed : Client C → C → W × Option Error → Client C × W × Option Error
  headed c client (w, none) = (record c { s3_client = some client; started = true }, w, none)
  headed c client (w, some e) = (
    record c { s3_client = none },
    w,
    some (wrap "s3: head bucket %q: %w" (text c.bucket ∷ []) e),
  )

  -- After awsconfig.LoadDefaultConfig.
  abbrev pub configured : Client C → W × (Cfg ⊎ Error) → Client C × W × Option Error
  configured c (w, inr e) = (c, w, some (wrap "s3: load aws config: %w" [] e))
  configured c (w, inl cfg) =
      let client = aws.new_from_config cfg (base_endpoint c) in
      headed c client (aws.head_bucket client c.bucket w)

  unfoldable pub start : Client C → W → Client C × W × Option Error
  unfolding base_endpoint
  start c w =
      if c.started
      then (c, w, some (failure "s3: already started" []))
      else configured c (aws.load_default_config c.region c.access_key c.secret_key w)

  abbrev pub health_from : String → Option C → W → W × Option Error
  health_from bucket none w = (w, some not_started)
  health_from bucket (some client) w =
      let (w', err) = aws.head_bucket client bucket w in
      elim err [ none ↦ (w', none) | some e ↦ (w', some (wrap "s3: health check failed: %w" [] e)) ]

  unfoldable pub health_check : Client C → W → W × Option Error
  health_check c w = health_from c.bucket c.s3_client w

  abbrev pub upload_from : String → Option C → String → B → Option String → W → W × Option Error
  upload_from bucket none key reader content_type w = (w, some not_started)
  upload_from bucket (some client) key reader content_type w =
      let (w', err) = aws.put_object client bucket key reader content_type w in
      (w', with_key "s3: upload %q: %w" key err)

  unfoldable pub upload :
      Client C → String → B → List (UploadOptions → UploadOptions) → W → W × Option Error
  unfolding apply_upload_options
  upload c key reader opts w = upload_from c.bucket c.s3_client key reader (content_type_of opts) w

  abbrev pub download_result : String → B ⊎ Error → B ⊎ Error
  download_result key (inl body) = inl body
  download_result key (inr e) =
      if is_not_found_error e
      then inr (wrap "s3: download %q: %w" (text key ∷ []) err_not_found)
      else inr (wrap "s3: download %q: %w" (text key ∷ []) e)

  abbrev pub download_from : String → Option C → String → W → W × (B ⊎ Error)
  download_from bucket none key w = (w, inr not_started)
  download_from bucket (some client) key w =
      let (w', output) = aws.get_object client bucket key w in (w', download_result key output)

  unfoldable pub download : Client C → String → W → W × (B ⊎ Error)
  unfolding is_not_found_error err_not_found
  download c key w = download_from c.bucket c.s3_client key w

  abbrev pub delete_from : String → Option C → String → W → W × Option Error
  delete_from bucket none key w = (w, some not_started)
  delete_from bucket (some client) key w =
      let (w', err) = aws.delete_object client bucket key w in
      (w', with_key "s3: delete %q: %w" key err)

  unfoldable pub delete : Client C → String → W → W × Option Error
  delete c key w = delete_from c.bucket c.s3_client key w

  abbrev pub exists_result : String → Option Error → Bool × Option Error
  exists_result key none = (true, none)
  exists_result key (some e) =
      if is_not_found_error e
      then (false, none)
      else (false, some (wrap "s3: exists %q: %w" (text key ∷ []) e))

  abbrev pub exists_from : String → Option C → String → W → W × Bool × Option Error
  exists_from bucket none key w = (w, false, some not_started)
  exists_from bucket (some client) key w =
      let (w', err) = aws.head_object client bucket key w in
      let (found, reported) = exists_result key err in (w', found, reported)

  unfoldable pub exists : Client C → String → W → W × Bool × Option Error
  unfolding is_not_found_error
  exists c key w = exists_from c.bucket c.s3_client key w

  abbrev pub presign_from : String → Option C → String → ℤ → W → W × (String ⊎ Error)
  presign_from bucket none key expires w = (w, inr not_started)
  presign_from bucket (some client) key expires w =
      let (w', req) = aws.presign_get_object client bucket key expires w in
      elim req [
        | inl url ↦ (w', inl url)
        | inr e ↦ (w', inr (wrap "s3: presign %q: %w" (text key ∷ []) e))
      ]

  unfoldable pub presigned_url : Client C → String → ℤ → W → W × (String ⊎ Error)
  presigned_url c key expires w = presign_from c.bucket c.s3_client key expires w
