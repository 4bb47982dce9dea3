-- ===== src/Handlers/Answers.antt =====
-- internal/app/apiserver/handler: what the handlers make of nodes, drives and users, in fs.go, drive.go,
-- user.go and apiopts.go. An optional field of the generated types is none where it is not set; an id of
-- an inode is the number that its text stands for.
use mdrive.Prelude.{ℕ, Option, some, Text, ℤ}
use mdrive.Node.Kinds.{kind_string}
use mdrive.Node.Flags.{flags_string}
use mdrive.Node.Inode.{Node}
use mdrive.World.Tables.{Drive, User}

-- api.NodeStat
pub record NodeStat : Type 0 where
  pub type : Text
  pub size : ℤ
  pub nlink : ℕ
  pub ino : ℕ
  pub atime : ℕ
  pub mtime : ℕ
  pub ctime : ℕ
  pub crtime : ℕ
  pub flags : Option Text
  pub revision : Option Text

-- statToAPI and lstatToAPI
unfoldable pub stat_to_api : Node → NodeStat
unfolding kind_string
stat_to_api n = record {
  type = kind_string n.kind;
  size = n.size;
  nlink = n.nlink;
  ino = n.id;
  atime = n.atime;
  mtime = n.mtime;
  ctime = n.ctime;
  crtime = n.crtime;
  flags = some (flags_string n.flags);
  revision = some n.rev;
}

-- api.Drive; the id of a root that is not there is the empty text, here none.
pub record ApiDrive : Type 0 where
  pub id : Option Text
  pub public_id : Option Text
  pub name : Option Text
  pub description : Option Text
  pub owner_id : Option Text
  pub root_node_id : Option (Option ℕ)
  pub deleted_at : Option ℕ
  pub created_at : Option ℕ
  pub updated_at : Option ℕ

-- driveToAPI
unfoldable pub drive_to_api : Drive → ApiDrive
drive_to_api d = record {
  id = some d.id;
  public_id = some d.public_id;
  name = some d.name;
  description = d.description;
  owner_id = some d.owner_id;
  root_node_id = some d.root_node_id;
  deleted_at = d.deleted_at;
  created_at = some d.created_at;
  updated_at = some d.updated_at;
}

-- api.User
pub record ApiUser : Type 0 where
  pub id : Option Text
  pub public_id : Option Text
  pub name : Option Text
  pub email : Option Text
  pub created_at : Option ℕ
  pub updated_at : Option ℕ

-- userToAPI
unfoldable pub user_to_api : User → ApiUser
user_to_api u = record {
  id = some u.id;
  public_id = some u.public_id;
  name = some u.name;
  email = u.email;
  created_at = some u.created_at;
  updated_at = some u.updated_at;
}
