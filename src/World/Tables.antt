-- ===== src/World/Tables.antt =====
-- ent/schema: the tables nodes, drives, drive_storage, users and gc_tombstones.
use mdrive.Prelude.{ℕ, Bool, Option, none, some, List, Text, ◌==◌, if◌then◌else◌, ℤ}
use mdrive.Node.Content.{Content}

-- A row of nodes, without its key.
pub record Row : Type 0 where
  pub kind : Text
  pub size : ℤ
  pub nlink : ℕ
  pub content : Option Content
  pub atime : ℕ
  pub mtime : ℕ
  pub ctime : ℕ
  pub crtime : ℕ
  pub flags : ℕ
  pub revision : Text

-- internal/core/drive/drive.go: Provider
pub data Provider : Type 0 where
  s3 minio : Provider

-- internal/core/drive/drive.go: Drive, which is also its row.
pub record Drive : Type 0 where
  pub id : Text
  pub public_id : Text
  pub name : Text
  pub description : Option Text
  pub provider : Provider
  pub owner_id : Text
  pub root_node_id : Option ℕ
  pub deleted_at : Option ℕ
  pub created_at : ℕ
  pub updated_at : ℕ

-- internal/core/drive/storage.go: Storage
pub record Storage : Type 0 where
  pub drive_id : Text
  pub bucket : Text
  pub endpoint : Option Text
  pub region : Text
  pub access_key : Text
  pub secret_key : Text
  pub use_path_style : Bool

-- internal/core/user/user.go: User, which is also its row.
pub record User : Type 0 where
  pub id : Text
  pub public_id : Text
  pub name : Text
  pub email : Option Text
  pub provider : Text
  pub provider_id : Text
  pub created_at : ℕ
  pub updated_at : ℕ

-- internal/vfs/service.go: GarbageRef
pub record GarbageRef : Type 0 where
  pub bucket : Text
  pub key : Text

-- internal/app/gc/store.go: Tombstone, with its time of creation.
pub record Tombstone : Type 0 where
  pub id : ℕ
  pub bucket : Text
  pub key : Text
  pub create_time : ℕ

-- The rows of nodes by their ids, those of the other tables in the order in which a query finds them,
-- and the next id of gc_tombstones.
pub record Db : Type 0 where
  pub nodes : ℕ → Option Row
  pub drives : List Drive
  pub storages : List Storage
  pub users : List User
  pub tombstones : List Tombstone
  pub next_tombstone : ℕ

-- A table with one row written, and with one row deleted.
abbrev pub write_row : (ℕ → Option Row) → ℕ → Row → ℕ → Option Row
write_row t id r j = if id == j then some r else t j

abbrev pub delete_row : (ℕ → Option Row) → ℕ → ℕ → Option Row
delete_row t id j = if id == j then none else t j
