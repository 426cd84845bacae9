-- ===== src/S3/Tests.antt =====
-- The client over a bucket that is a function of the keys.
use goplatform.Prelude.{
  ℕ, String, refl, false, true, Option, none, some, ◌⊎◌, inl, inr, str_eq, eq_refl, if◌then◌else◌,
}
use goplatform.Errors.{Error, sentinel}
use goplatform.S3.{Client, Aws, download, exists}
use goplatform.S3.Objects.{
  Got,
  Head,
  MissingCode.{no_such_key, not_found},
  Got.{got_object, got_missing},
  Head.{head_found, head_missing},
  Consistent,
  Shown,
  exists-download,
}

abbrev World : Type 0
World = String → Option ℕ

abbrev got : Option ℕ → ℕ ⊎ Error
got none = inr (sentinel "NoSuchKey")
got (some b) = inl b

abbrev headed : Option ℕ → Option Error
headed none = some (sentinel "NotFound")
headed (some b) = none

abbrev code : Error → Option String
code (sentinel t) = some t
code e = none

abbrev bucket : Aws World ℕ ℕ ℕ
bucket = record {
  load_default_config = λ region access secret w. (w, inl 1);
  new_from_config = λ cfg endpoint. cfg;
  head_bucket = λ client b w. (w, none);
  put_object = λ client b key body ct w. ((λ k. if str_eq key k then some body else w k), none);
  get_object = λ client b key w. (w, got (w key));
  delete_object = λ client b key w. ((λ k. if str_eq key k then none else w k), none);
  head_object = λ client b key w. (w, headed (w key));
  presign_get_object = λ client b key expires w. (w, inl key);
  api_code = code;
}

abbrev objects : String → String → World → Option ℕ
objects b key w = w key

got-Got : (o : Option ℕ) → Got code o (got o)
got-Got none = got_missing (sentinel "NoSuchKey") refl refl no_such_key
got-Got (some b) = got_object b refl refl

headed-Head : (o : Option ℕ) → Head code o (headed o)
headed-Head none = head_missing (sentinel "NotFound") refl refl not_found
headed-Head (some b) = head_found b refl refl

bucket-Consistent : Consistent bucket objects
bucket-Consistent = record {
  put = λ client b key body ct w h. rw (eq_refl key) refl;
  deleted = λ client b key w h. rw (eq_refl key) refl;
  get = λ client b key w. got-Got (w key);
  head_object = λ client b key w. headed-Head (w key);
}

abbrev client : Client ℕ
client = record {
  endpoint = "localhost:9000";
  region = "us-east-1";
  access_key = "a";
  secret_key = "s";
  bucket = "orders";
  use_ssl = false;
  s3_client = some 1;
  started = true;
}

abbrev one_object : World
one_object key = if str_eq key "a.txt" then some 5 else none

exists-download_example :
    let x = exists bucket client "b.txt" one_object in
    Shown bucket objects bucket-Consistent "orders" "b.txt" 1 one_object
      (download bucket client "b.txt" one_object).1
      x.1
      x.2
exists-download_example =
    exists-download bucket objects bucket-Consistent client 1 "b.txt" one_object refl
