-- ===== src/S3/Objects.antt =====
-- The objects of a bucket as the client shows them.
use goplatform.Prelude.{
  String, str_eq, eq_iff, ◌≡◌, refl, sym, subst, ap, ◌∙◌, Bool, true, false, ◌||◌, Option, none,
  some, List, [], ◌∷◌, ◌⊎◌, inl, inr, Bool-cases, arith,
}
use goplatform.Errors.{Error, is, wrap, text}
use goplatform.S3.{
  Client, UploadOptions, Aws, is_not_found_error, is_not_found_code, upload, upload_from, download,
  download_from, download_result, exists, exists_from, exists_result, delete, delete_from, with_key,
  err_not_found, content_type_of,
}

-- The codes under which S3, and stores with its protocol, report a missing object: GetObject has an error
-- document with the first, the reply to HeadObject has no body and is known by its status alone, which is
-- passed on by its name or its number.
pub data MissingCode : Option String → Type 0 where
  no_such_key : MissingCode (some "NoSuchKey")
  not_found : MissingCode (some "NotFound")
  status_404 : MissingCode (some "404")

-- What GetObject answers for an object that may be there: its content, that it is missing, or, whether it
-- is there or not, another error.
pub data Got {B : Type 0} (api_code : Error → Option String) (there : Option B) (raw : B ⊎ Error)
    : Type 0 where
  got_object : (b : B) → there ≡ some b → raw ≡ inl b → Got api_code there raw
  got_missing :
      (e : Error) → there ≡ none → raw ≡ inr e → MissingCode (api_code e) → Got api_code there raw
  got_refused : (e : Error) → raw ≡ inr e → ¬ MissingCode (api_code e) → Got api_code there raw

-- And HeadObject.
pub data Head {B : Type 0} (api_code : Error → Option String) (there : Option B)
    (raw : Option Error) : Type 0 where
  head_found : (b : B) → there ≡ some b → raw ≡ none → Head api_code there raw
  head_missing :
      (e : Error) → there ≡ none → raw ≡ some e → MissingCode (api_code e) → Head api_code there raw
  head_refused : (e : Error) → raw ≡ some e → ¬ MissingCode (api_code e) → Head api_code there raw

-- S3's consistency: `objects` are the objects of a bucket under their keys. An upload and a deletion
-- that succeed are seen by what follows.
pub record Consistent {W C Cfg B : Type 0} (aws : Aws W C Cfg B)
    (objects : String → String → W → Option B) : Type 0 where
  pub put :
      (client : C) (bucket key : String) (b : B) (ct : Option String) (w : W)
      → (aws.put_object client bucket key b ct w).1 ≡ none
      → objects bucket key (aws.put_object client bucket key b ct w).0 ≡ some b
  pub deleted :
      (client : C) (bucket key : String) (w : W)
      → (aws.delete_object client bucket key w).1 ≡ none
      → objects bucket key (aws.delete_object client bucket key w).0 ≡ none
  pub get :
      (client : C) (bucket key : String) (w : W)
      → Got aws.api_code (objects bucket key w) (aws.get_object client bucket key w).1
  pub head_object :
      (client : C) (bucket key : String) (w : W)
      → Head aws.api_code (objects bucket key w) (aws.head_object client bucket key w).1

MissingCode-is_not_found_code : (o : Option String) → MissingCode o → is_not_found_code o ≡ true
MissingCode-is_not_found_code o no_such_key = refl
MissingCode-is_not_found_code o not_found = refl
MissingCode-is_not_found_code o status_404 = refl

one_of_three : (a b c : Bool) → (a || b || c) ≡ true → (a ≡ true) ⊎ ((b ≡ true) ⊎ (c ≡ true))
one_of_three true b c h = inl refl
one_of_three false true c h = inr (inl refl)
one_of_three false false c h = inr (inr h)

is_not_found_code-MissingCode : (o : Option String) → is_not_found_code o ≡ true → MissingCode o
is_not_found_code-MissingCode none h = cc
is_not_found_code-MissingCode (some code) h =
    elim (one_of_three (str_eq code "NoSuchKey") (str_eq code "NotFound") (str_eq code "404") h) [
      | inl e ↦ subst (λ c. MissingCode (some c)) (sym ((eq_iff _ _).0 e)) no_such_key
      | inr (inl e) ↦ subst (λ c. MissingCode (some c)) (sym ((eq_iff _ _).0 e)) not_found
      | inr (inr e) ↦ subst (λ c. MissingCode (some c)) (sym ((eq_iff _ _).0 e)) status_404
    ]

other_code : (o : Option String) → ¬ MissingCode o → is_not_found_code o ≡ false
other_code o other = elim (Bool-cases (is_not_found_code o)) [
  | inl known ↦ absurd (other (is_not_found_code-MissingCode o known))
  | inr unknown ↦ unknown
]

-- What Download returns, where GetObject answered `raw`.
pub data Downloaded {B : Type 0} (api_code : Error → Option String) (key : String)
    (there : Option B) (raw got : B ⊎ Error) : Type 0 where
  present : (b : B) → there ≡ some b → got ≡ inl b → Downloaded api_code key there raw got
  absent :
      (e : Error)
      → there ≡ none
      → got ≡ inr e
      → is "s3: object not found" e ≡ true
      → Downloaded api_code key there raw got
  failed :
      (cause : Error)
      → raw ≡ inr cause
      → ¬ MissingCode (api_code cause)
      → got ≡ inr (wrap "s3: download %q: %w" (text key ∷ []) cause)
      → Downloaded api_code key there raw got

-- What Exists returns, where HeadObject answered `raw`.
pub data Reported {B : Type 0} (api_code : Error → Option String) (key : String) (there : Option B)
    (raw : Option Error) (found : Bool) (err : Option Error) : Type 0 where
  exists_there :
      (b : B)
      → there ≡ some b
      → found ≡ true
      → err ≡ none
      → Reported api_code key there raw found err
  not_there : there ≡ none → found ≡ false → err ≡ none → Reported api_code key there raw found err
  unknown :
      (cause : Error)
      → raw ≡ some cause
      → ¬ MissingCode (api_code cause)
      → found ≡ false
      → err ≡ some (wrap "s3: exists %q: %w" (text key ∷ []) cause)
      → Reported api_code key there raw found err

module _ {W C Cfg B : Type 0} (aws : Aws W C Cfg B) where
  download_result-Downloaded :
      (key : String) (there : Option B) (raw : B ⊎ Error)
      → Got aws.api_code there raw
      → Downloaded aws.api_code key there raw (download_result aws key raw)
  unfolding is_not_found_error err_not_found is
  download_result-Downloaded key there raw (got_object b e r) =
      present b e (ap (download_result aws key) r)
  download_result-Downloaded key there raw (got_missing e gone r code) =
      absent (wrap "s3: download %q: %w" (text key ∷ []) err_not_found) gone
        (ap (download_result aws key) r ∙ rw (MissingCode-is_not_found_code _ code) refl) refl
  download_result-Downloaded key there raw (got_refused e r other) =
      failed e r other (ap (download_result aws key) r ∙ rw (other_code _ other) refl)

  exists_result-Reported :
      (key : String) (there : Option B) (raw : Option Error)
      → Head aws.api_code there raw
      → let x = exists_result aws key raw in Reported aws.api_code key there raw x.0 x.1
  unfolding is_not_found_error
  exists_result-Reported key there raw (head_found b e r) =
      exists_there b e (ap (λ h. (exists_result aws key h).0) r)
        (ap (λ h. (exists_result aws key h).1) r)
  exists_result-Reported key there raw (head_missing e gone r code) =
      let known = MissingCode-is_not_found_code _ code in
      not_there gone (ap (λ h. (exists_result aws key h).0) r ∙ rw known refl)
        (ap (λ h. (exists_result aws key h).1) r ∙ rw known refl)
  exists_result-Reported key there raw (head_refused e r other) =
      let unlisted = other_code _ other in
      unknown e r other (ap (λ h. (exists_result aws key h).0) r ∙ rw unlisted refl)
        (ap (λ h. (exists_result aws key h).1) r ∙ rw unlisted refl)

module _ {W C Cfg B : Type 0} (aws : Aws W C Cfg B) (objects : String → String → W → Option B)
    (consistent : Consistent aws objects) where
  -- What Download and Exists say of an object.
  abbrev pub Shown : String → String → C → W → B ⊎ Error → Bool → Option Error → Type 0
  Shown bucket key client w got found err =
      Downloaded aws.api_code key (objects bucket key w) (aws.get_object client bucket key w).1 got
      × Reported aws.api_code key (objects bucket key w) (aws.head_object client bucket key w).1
          found err

  download_from-Shown :
      (client : C) (bucket key : String) (w : W)
      → let x = exists_from aws bucket (some client) key w in
        Shown bucket key client w (download_from aws bucket (some client) key w).1 x.1 x.2
  download_from-Shown client bucket key w = (
    download_result-Downloaded aws key _ _ (consistent.get client bucket key w),
    exists_result-Reported aws key _ _ (consistent.head_object client bucket key w),
  )

  -- Over a consistent bucket, Download and Exists of a started client say what is there: an object that is
  -- there is downloaded as it is and exists; for one that S3 reports as missing, Download returns an error
  -- that is ErrNotFound, and Exists returns false without an error. An error that S3 gives one of the
  -- two calls under any other code, or under none, is returned by that call with its cause.
  pub exists-download :
      (c : Client C) (client : C) (key : String) (w : W)
      → c.s3_client ≡ some client
      → let x = exists aws c key w in Shown c.bucket key client w (download aws c key w).1 x.1 x.2
  unfolding exists download
  exists-download c client key w h =
      subst
        (λ o.
          let x = exists_from aws c.bucket o key w in
          Shown c.bucket key client w (download_from aws c.bucket o key w).1 x.1 x.2)
        (sym h) (download_from-Shown client c.bucket key w)

  with_key-none : (format key : String) (o : Option Error) → with_key format key o ≡ none → o ≡ none
  with_key-none format key none h = refl
  with_key-none format key (some e) h = ground arith

  Reported-false :
      (key : String) (raw : Option Error) (found : Bool) (err : Option Error)
      → Reported {B = B} aws.api_code key none raw found err
      → found ≡ false
  Reported-false key raw f err (exists_there b e x nil) = cc
  Reported-false key raw f err (not_there e x nil) = x
  Reported-false key raw f err (unknown cause r other x shown) = x

  abbrev Stored : Option C → C → String → String → B → Option String → W → Type 0
  Stored o client bucket key b ct w =
      let up = upload_from aws bucket o key b ct w in
      up.1 ≡ none
      → Downloaded aws.api_code key (some b) (aws.get_object client bucket key up.0).1
          (download_from aws bucket o key up.0).1
        × ((delete_from aws bucket o key up.0).1 ≡ none
            → (exists_from aws bucket o key (delete_from aws bucket o key up.0).0).1 ≡ false)

  stored_from :
      (client : C) (bucket key : String) (b : B) (ct : Option String) (w : W)
      → Stored (some client) client bucket key b ct w
  stored_from client bucket key b ct w ok =
      let w1 = (aws.put_object client bucket key b ct w).0 in
      let put = consistent.put client bucket key b ct w (with_key-none _ key _ ok) in
      (
        subst
            (λ there.
              Downloaded aws.api_code key there (aws.get_object client bucket key w1).1
                (download_from aws bucket (some client) key w1).1)
            put (download_from-Shown client bucket key w1).0,
        λ gone.
            let w2 = (aws.delete_object client bucket key w1).0 in
            let left = consistent.deleted client bucket key w1 (with_key-none _ key _ gone) in
            Reported-false key _ _ _ (
              subst
                (λ there.
                  let x = exists_from aws bucket (some client) key w2 in
                  Reported aws.api_code key there (aws.head_object client bucket key w2).1 x.1 x.2)
                left (download_from-Shown client bucket key w2).1),
      )

  -- Over a consistent bucket, what an Upload that returned nil has stored under a key is what Download
  -- returns for it, with any upload options, unless S3 refuses the call, and after a Delete that returned
  -- nil Exists does not find the object.
  pub download-upload :
      (c : Client C) (client : C) (key : String) (b : B)
      (opts : List (UploadOptions → UploadOptions)) (w : W)
      → c.s3_client ≡ some client
      → (upload aws c key b opts w).1 ≡ none
      → let w1 = (upload aws c key b opts w).0 in
        Downloaded aws.api_code key
          (some b)
          (aws.get_object client c.bucket key w1).1
          (download aws c key w1).1
        × ((delete aws c key w1).1 ≡ none → (exists aws c key (delete aws c key w1).0).1 ≡ false)
  unfolding upload download delete exists
  download-upload c client key b opts w h =
      subst (λ o. Stored o client c.bucket key b (content_type_of opts) w) (sym h)
        (stored_from client c.bucket key b (content_type_of opts) w)
