-- ===== src/Upload/Store.antt =====
-- internal/upload/s3/client.go: the client of the object store.
use mdrive.Prelude.{ℕ, Bool, true, false, Option, List, [], ◌∷◌, Text, no_text, ◌==◌, if◌then◌else◌}
use mdrive.Errorx.{Kind}
use mdrive.Result.{Result, ok, err}
use mdrive.Outside.{Moment}

-- The answer to HeadObject: the object is there, the SDK's NotFound, another HTTP status, or another
-- error.
pub data Head : Type 0 where
  found : Head
  not_found : Head
  status : ℕ → Head
  failed : Head

-- The SDK and the store behind it, which are not part of the program: HeadObject, DeleteObject,
-- DeleteObjects, which answers with the keys that it could not delete, and the presigner.
pub record S3Api : Type 1 where
  pub State : Type 0
  pub head_object : Moment → Text → Text → State → Head
  pub delete_object : Moment → Text → Text → State → Result (Unit {0}) × State
  pub delete_objects : Moment → Text → List Text → State → Result (List Text) × State
  pub presign_put : Moment → Text → Text → ℕ → Result Text
  pub presign_get : Moment → Text → Text → ℕ → Result Text

-- ObjectExists: a 404 in any form is an answer, and no error.
abbrev pub exists_of : Head → Result Bool
exists_of found = ok true
exists_of not_found = ok false
exists_of (status n) = if n == 404 then ok false else err Kind.unknown
exists_of failed = err Kind.unknown

abbrev pub dropped : {A : Type 0} → Result A → Result (Unit {0})
dropped (ok a) = ok tt
dropped (err k) = err k

module _ (O : S3Api) where
  unfoldable pub object_exists : Moment → Text → Text → O.State → Result Bool × O.State
  object_exists t bucket key s = (exists_of (O.head_object t bucket key s), s)

  -- DeleteObject
  unfoldable pub delete_object : Moment → Text → Text → O.State → Result (Unit {0}) × O.State
  delete_object t bucket key s = O.delete_object t bucket key s

  -- DeleteObjects: of the answer, only whether there is an error is looked at.
  unfoldable pub delete_objects : Moment → Text → List Text → O.State → Result (Unit {0}) × O.State
  delete_objects t bucket [] s = (ok tt, s)
  delete_objects t bucket (key ∷ keys) s =
      let (r, s') = O.delete_objects t bucket (key ∷ keys) s in (dropped r, s')

  -- GetPresignedUploadURL and GetPresignedDownloadURL
  unfoldable pub get_presigned_upload_url :
      Moment → Text → Text → ℕ → O.State → Result Text × O.State
  get_presigned_upload_url t bucket key expiry s = (O.presign_put t bucket key expiry, s)

  unfoldable pub get_presigned_download_url :
      Moment → Text → Text → ℕ → O.State → Result Text × O.State
  get_presigned_download_url t bucket key expiry s = (O.presign_get t bucket key expiry, s)

-- Config of a client.
pub record S3Config : Type 0 where
  pub region : Text
  pub endpoint : Option Text
  pub access_key : Text
  pub secret_key : Text
  pub use_path_style : Bool

-- The same for every configuration of a client, over one state.
pub record S3Cloud : Type 1 where
  pub State : Type 0
  pub head_object : S3Config → Moment → Text → Text → State → Head
  pub delete_object : S3Config → Moment → Text → Text → State → Result (Unit {0}) × State
  pub delete_objects : S3Config → Moment → Text → List Text → State → Result (List Text) × State
  pub presign_put : S3Config → Moment → Text → Text → ℕ → Result Text
  pub presign_get : S3Config → Moment → Text → Text → ℕ → Result Text

-- NewClient: the configuration wants a region.
unfoldable pub new_client : S3Config → Result (Unit {0})
new_client cfg = if no_text cfg.region then err Kind.unknown else ok tt

abbrev pub client_of : S3Cloud → S3Config → S3Api
client_of C cfg = record {
  State = C.State;
  head_object = C.head_object cfg;
  delete_object = C.delete_object cfg;
  delete_objects = C.delete_objects cfg;
  presign_put = C.presign_put cfg;
  presign_get = C.presign_get cfg;
}
