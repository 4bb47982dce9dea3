-- ===== src/Handlers/Uploads.antt =====
-- internal/app/apiserver/handler/upload.go
use mdrive.Prelude.{ℕ, Option, Text, ℤ}
use mdrive.Node.Inode.{Node}
use mdrive.Crypto.{Cipher}
use mdrive.Permission.{Permission, FgaClient}
use mdrive.Auth.{Session, user_id_from_context}
use mdrive.Outside.{Call, ◌>>◌}
use mdrive.Upload.Tokens.{TokenRegistry}
use mdrive.Upload.Store.{S3Api}
use mdrive.Upload.Service.{PresignInfo, Servers, initiate_upload, complete_upload, presign_download}
use mdrive.Handlers.{require_perm}

module _ (F : FgaClient) (session : Option Session) (R : TokenRegistry) (O : S3Api) where
  -- InitiateUpload; `ttl` is the time that the handler was made with.
  unfoldable pub initiate :
      Cipher
      → (ℕ → Text)
      → ℕ
      → Text
      → Text
      → Option Text
      → Option ℤ
      → Call (Servers R O) PresignInfo
  unfolding require_perm initiate_upload
  initiate c uuid_text ttl drive_id path content_type length = do
    require_perm F session Permission.edit drive_id
    initiate_upload R O c uuid_text (user_id_from_context session) drive_id path content_type length
        ttl

  -- CompleteUpload, up to the fields of the inode that it returns.
  unfoldable pub complete : Text → Text → ℤ → Option Text → Call (Servers R O) Node
  unfolding require_perm complete_upload
  complete drive_id upload_id length checksum = do
    require_perm F session Permission.edit drive_id
    complete_upload R O (user_id_from_context session) drive_id upload_id length checksum

  -- PresignDownload
  unfoldable pub presign : ℕ → Text → Text → Call (Servers R O) PresignInfo
  unfolding require_perm presign_download
  presign ttl drive_id path = do
    require_perm F session Permission.view drive_id
    presign_download R O (user_id_from_context session) drive_id path ttl
