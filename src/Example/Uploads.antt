-- ===== src/Example/Uploads.antt =====
-- Uploads on the drive of the examples, with the registry in memory and an object store that lists its keys.
use mdrive.Prelude.{
  ℕ, suc, ◌+◌, ◌≡◌, ◌≢◌, ◌≤◌, ◌⊎◌, refl, false, none, some, List, [], ◌∷◌, ◌++◌, Text, codes, ℤ,
  pos,
}
use mdrive.Errorx.{Kind}
use mdrive.Result.{Result, ok, err}
use mdrive.Crypto.{no_op}
use mdrive.Node.Kinds.{NodeKind}
use mdrive.Node.Content.{DirEntry, object_json, content_len}
use mdrive.Node.Inode.{Node}
use mdrive.Node.Dir.{find_entry, entry_of, add_entry}
use mdrive.Node.Dir.Listing.{IsDirectory}
use mdrive.World.Action.{Env, step, draw_stamp}
use mdrive.Node.Typed.{new_object}
use mdrive.Repo.{get, save, from_ent}
use mdrive.Repo.Locking.{HasRow}
use mdrive.Outside.{Site, at}
use mdrive.Upload.Tokens.{PresignMeta, Refines}
use mdrive.Upload.Memory.{memory_registry, memory_registry-Refines}
use mdrive.Upload.Store.{Head, S3Api, exists_of}
use mdrive.Upload.Body.{object_of}
use mdrive.Upload.Service.{
  Servers, PresignInfo, initiate_upload, complete_upload, claim_token, object_key,
}
use mdrive.Upload.Claims.{IsClaimed}
use mdrive.Upload.Complete.{Resolves, claimed, complete_upload_lem, complete_upload_err}
use mdrive.Upload.Initiate.{verdict, claim_token-initiate_upload}
use mdrive.Example.Fixture.{value, quiet}
use mdrive.Example.Paths.{world, rows, root}

-- A store that has every object, and signs an address by its key.
abbrev pub full_store : S3Api
full_store = record {
  State = List Text;
  head_object = λ t bucket key s. Head.found;
  delete_object = λ t bucket key s. (ok tt, key ∷ s);
  delete_objects = λ t bucket keys s. (ok [], keys ++ s);
  presign_put = λ t bucket key expiry. ok key;
  presign_get = λ t bucket key expiry. ok key;
}

abbrev token : PresignMeta
token = record {
  upload_id = codes "t";
  drive_id = codes "d";
  user_id = codes "u";
  path = codes "/e";
  bucket = codes "b";
  key = codes "k";
  content_type = none;
  size = some (pos 3);
  expires_at = 1000;
}

abbrev site : Site (Servers memory_registry full_store)
unfolding memory_registry
site = record {
  world = world;
  servers = record { tokens = (codes "t", record { meta = token; exp = 1000 }) ∷ []; objects = [] };
}

unfoldable completed : Result Node × Site (Servers memory_registry full_store)
unfolding complete_upload
completed =
    complete_upload memory_registry full_store (codes "u") (codes "d") (codes "t") (pos 3) none
      quiet site

complete_upload_lem_example :
    let n : Node = value root completed.0 in
    let c = world.committed in
    (m : PresignMeta) × IsClaimed memory_registry full_store
      (codes "u")
      (codes "d")
      (codes "t")
      (pos 3)
      quiet
      site
      m
    × (n.kind ≡ NodeKind.object)
    × (n.content ≡ some (object_json (object_of m none)))
    × (name : Text) × (parent : Node) × Resolves (codes "d") m.path quiet c name parent
    × ((es : List DirEntry)
        → IsDirectory parent es
        → parent.id ≢ n.id
        → (find_entry name es ≡ none)
          × (p' : Node) × IsDirectory p' (es ++ entry_of name n ∷ [])
          × (p'.id ≡ parent.id)
          × HasRow completed.1.world.committed.nodes p'
          × HasRow completed.1.world.committed.nodes n
          × ((i : ℕ)
              → i ≢ parent.id
              → i ≢ n.id
              → completed.1.world.committed.nodes i ≡ world.committed.nodes i))
    × (Refines.entry memory_registry-Refines completed.1.servers.tokens (codes "t") ≡ none)
unfolding completed complete_upload memory_registry get rows from_ent new_object content_len save
    draw_stamp add_entry
complete_upload_lem_example =
    complete_upload_lem memory_registry full_store memory_registry-Refines (codes "u") (codes "d")
      (codes "t") (pos 3) none (value root completed.0) quiet site completed.1 refl refl

-- Another user claims the token.
unfoldable stolen : Result Node × Site (Servers memory_registry full_store)
unfolding complete_upload
stolen =
    complete_upload memory_registry full_store (codes "v") (codes "d") (codes "t") (pos 3) none
      quiet site

complete_upload_err_example :
    (stolen.1.world.committed ≡ world.committed)
    ⊎ ((n : Node) × (s' : Site (Servers memory_registry full_store)) × (claimed memory_registry
            full_store
            (codes "v")
            (codes "d")
            (codes "t")
            (pos 3)
            none
            quiet
            site
          ≡ (ok n, s'))
        × ((memory_registry.delete (at quiet s'.world) (codes "t") s'.servers.tokens).0
            ≡ err Kind.permission_denied))
unfolding stolen complete_upload memory_registry
complete_upload_err_example =
    complete_upload_err memory_registry full_store (codes "v") (codes "d") (codes "t") (pos 3) none
      Kind.permission_denied quiet site refl refl

-- The same drive, with a storage.
abbrev stored : Site (Servers memory_registry full_store)
stored = record site {
  world = record world {
    committed = record world.committed {
      storages =
          record {
            drive_id = codes "d";
            bucket = codes "b";
            endpoint = none;
            region = codes "r";
            access_key = codes "a";
            secret_key = codes "s";
            use_path_style = false;
          }
          ∷ [];
    };
  };
}

abbrev digit : ℕ → Text
digit n = n ∷ []

unfoldable started : Result PresignInfo × Site (Servers memory_registry full_store)
unfolding initiate_upload
started =
    initiate_upload memory_registry full_store no_op digit (codes "u") (codes "d") (codes "/e") none
      (some (pos 3)) 60 quiet stored

abbrev no_info : PresignInfo
no_info = record { upload_id = []; method = []; url = []; key = []; expires_at = 0 }

claim_token-initiate_upload_example :
    let info : PresignInfo = value no_info started.0 in
    (m : PresignMeta) × (t : ℕ) × (info.expires_at ≡ quiet.now t + 60)
    × (m.user_id ≡ codes "u")
    × (m.drive_id ≡ codes "d")
    × (m.path ≡ codes "/e")
    × (m.size ≡ some (pos 3))
    × (m.key ≡ object_key (codes "d") info.upload_id)
    × ((user' drive' : Text) (length : ℤ) (e' : Env) (v : Site (Servers memory_registry full_store))
        → v.servers.tokens ≡ started.1.servers.tokens
        → (at e' v.world).fails ≡ false
        → (at e' v.world).now ≤ quiet.now (suc t) + 60
        → (at e' v.world).now ≤ info.expires_at
        → (claim_token memory_registry full_store user' drive' info.upload_id length e' v).0
          ≡ verdict memory_registry full_store user' drive' length m (
              exists_of
                (full_store.head_object (at e' (step v.world)) m.bucket m.key v.servers.objects)))
unfolding started initiate_upload memory_registry
claim_token-initiate_upload_example =
    claim_token-initiate_upload memory_registry full_store memory_registry-Refines no_op digit
      (codes "u") (codes "d") (codes "/e") none (some (pos 3)) 60 (value no_info started.0) quiet
      stored started.1 refl
