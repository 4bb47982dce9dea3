-- ===== src/Upload/Service.antt =====
-- internal/upload/service.go: the service, over any registry and any object store.
use mdrive.Prelude.{
  ℕ, ◌+◌, Bool, false, not, Option, none, some, List, [], ◌∷◌, ◌++◌, Text, codes, ℤ, pos, negsuc,
  no_text, ◌==◌, ◌=s=◌, if◌then◌else◌,
}
use mdrive.Errorx.{Kind}
use mdrive.Result.{Result, ok, err}
use mdrive.Node.Inode.{Node, is_object}
use mdrive.Node.Typed.{read_object}
use mdrive.Crypto.{Cipher}
use mdrive.World.Action
use mdrive.World.Action.{Action, draw_now}
use mdrive.World.Tx.{with_tx}
use mdrive.Drives.Rows.{get_storage}
use mdrive.NodeOp.Create.{get_by_id}
use mdrive.Vfs.Path.{path_clean}
use mdrive.Vfs.Service.{resolve_node_id}
use mdrive.Outside.{Moment, Call, pure, raise, raise_if, lift, attempt, db, ask, ◌>>=◌, ◌>>◌}
use mdrive.Upload.Tokens.{PresignMeta, TokenRegistry}
use mdrive.Upload.Body.{complete_body}
use mdrive.Upload.Store.{
  S3Api, object_exists, delete_object, get_presigned_upload_url, get_presigned_download_url,
}

-- PresignInfo; its headers are always empty.
pub record PresignInfo : Type 0 where
  pub upload_id : Text
  pub method : Text
  pub url : Text
  pub key : Text
  pub expires_at : ℕ

pub record Servers (R : TokenRegistry) (O : S3Api) : Type 0 where
  pub tokens : R.State
  pub objects : O.State

-- `path.Join("drives", driveID, "uploads", uploadID)`: the elements that are not empty, with slashes
-- between them, cleaned.
abbrev joined : List Text → Text
joined [] = []
joined (s ∷ []) = s
joined (s ∷ t ∷ more) = s ++ 0x2f ∷ joined (t ∷ more)

abbrev not_empty : List Text → List Text
not_empty [] = []
not_empty (s ∷ more) = if no_text s then not_empty more else s ∷ not_empty more

unfoldable pub object_key : Text → Text → Text
unfolding path_clean
object_key drive_id upload_id =
    path_clean (joined (not_empty (codes "drives" ∷ drive_id ∷ codes "uploads" ∷ upload_id ∷ [])))

-- Whether a size that was promised is another than the one that is claimed.
abbrev eq_int : ℤ → ℤ → Bool
eq_int (pos a) (pos b) = a == b
eq_int (negsuc a) (negsuc b) = a == b
eq_int (pos a) (negsuc b) = false
eq_int (negsuc a) (pos b) = false

abbrev pub mismatch : Option ℤ → ℤ → Bool
mismatch none length = false
mismatch (some size) length = not (eq_int size length)

-- `uuid.NewString()`: a draw from the generator, whose text is an argument of the service.
abbrev pub draw_id : (ℕ → Text) → Action Text
draw_id uuid_text e w = (ok (uuid_text (e.uuid w.tick)), Action.step w)

module _ (R : TokenRegistry) (O : S3Api) where
  abbrev pub ask_tokens :
      {A : Type 0} → (Moment → R.State → Result A × R.State) → Call (Servers R O) A
  ask_tokens f = ask λ t v. let (r, s) = f t v.tokens in (r, record v { tokens = s })

  abbrev pub ask_objects :
      {A : Type 0} → (Moment → O.State → Result A × O.State) → Call (Servers R O) A
  ask_objects f = ask λ t v. let (r, s) = f t v.objects in (r, record v { objects = s })

  -- InitiateUpload: the token is put before the URL is made, and deleted again if there is none.
  abbrev pub url_or_undo : Text → Result Text → Call (Servers R O) Text
  url_or_undo upload_id (ok url) = pure url
  url_or_undo upload_id (err k) = do _ ← attempt (ask_tokens λ t. R.delete t upload_id); raise k

  unfoldable pub new_token :
      Cipher
      → (ℕ → Text)
      → Text
      → Text
      → Text
      → Option Text
      → Option ℤ
      → ℕ
      → Call (Servers R O) PresignMeta
  unfolding get_storage draw_now object_key
  new_token c uuid_text user_id drive_id dest_path content_type content_length expiry = do
    storage ← db (get_storage c drive_id)
    raise_if (no_text storage.bucket) Kind.failed_precondition
    upload_id ← db (draw_id uuid_text)
    now ← db draw_now
    pure (record {
      upload_id = upload_id;
      drive_id = drive_id;
      user_id = user_id;
      path = dest_path;
      bucket = storage.bucket;
      key = object_key drive_id upload_id;
      content_type = content_type;
      size = content_length;
      expires_at = now + expiry;
    })

  unfoldable pub issue_url : PresignMeta → ℕ → Call (Servers R O) PresignInfo
  unfolding get_presigned_upload_url
  issue_url m expiry = do
    ask_tokens λ t. R.put t m expiry
    answer ← attempt (ask_objects λ t. get_presigned_upload_url O t m.bucket m.key expiry)
    url ← url_or_undo m.upload_id answer
    pure (record {
      upload_id = m.upload_id;
      method = codes "PUT";
      url = url;
      key = m.key;
      expires_at = m.expires_at;
    })

  unfoldable pub initiate_upload :
      Cipher
      → (ℕ → Text)
      → Text
      → Text
      → Text
      → Option Text
      → Option ℤ
      → ℕ
      → Call (Servers R O) PresignInfo
  unfolding new_token issue_url
  initiate_upload c uuid_text user_id drive_id dest_path content_type content_length expiry = do
    m ← new_token c uuid_text user_id drive_id dest_path content_type content_length expiry
    issue_url m expiry

  -- CompleteUpload, up to the deletion of the token.
  unfoldable pub claim_token : Text → Text → Text → ℤ → Call (Servers R O) PresignMeta
  unfolding object_exists ◌=s=◌
  claim_token user_id drive_id upload_id length = do
    m ← ask_tokens λ t. R.get t upload_id
    raise_if (not (m.user_id =s= user_id)) Kind.permission_denied
    raise_if (not (m.drive_id =s= drive_id)) Kind.invalid_argument
    raise_if (mismatch m.size length) Kind.invalid_argument
    exists ← ask_objects λ t. object_exists O t m.bucket m.key
    raise_if (not exists) Kind.not_found
    pure m

  unfoldable pub complete_upload : Text → Text → Text → ℤ → Option Text → Call (Servers R O) Node
  unfolding claim_token complete_body with_tx
  complete_upload user_id drive_id upload_id length checksum = do
    m ← claim_token user_id drive_id upload_id length
    n ← db (with_tx (complete_body drive_id m length checksum))
    ask_tokens λ t. R.delete t upload_id
    pure n

  -- PresignDownload
  unfoldable pub presign_download : Text → Text → Text → ℕ → Call (Servers R O) PresignInfo
  unfolding resolve_node_id get_by_id is_object read_object get_presigned_download_url draw_now
  presign_download user_id drive_id file_path expiry = do
    node_id ← db (resolve_node_id drive_id file_path)
    n ← db (get_by_id node_id)
    raise_if (not (is_object n)) Kind.invalid_argument
    o ← lift (read_object n)
    url ← ask_objects λ t. get_presigned_download_url O t o.bucket o.key expiry
    now ← db draw_now
    pure (record {
      upload_id = [];
      method = codes "GET";
      url = url;
      key = [];
      expires_at = now + expiry;
    })

  -- DeleteObject
  unfoldable pub delete_upload : Text → Text → Call (Servers R O) (Unit {0})
  unfolding delete_object
  delete_upload bucket key = ask_objects λ t. delete_object O t bucket key
