-- ===== src/Gc.antt =====
-- internal/app/gc/runner.go: the jobs of the garbage collector.
pub mod Tombstones
pub mod Expirer
pub mod Secrets
pub mod Cleaner
pub mod Objects
pub mod Sizes
pub mod Cleared
pub mod Purger
use mdrive.Prelude.{
  ℕ, zero, suc, ◌*◌, ◌-◌, Bool, true, false, not, ◌||◌, Option, none, some, List, [], ◌∷◌, Text,
  no_text, ◌==◌, if◌then◌else◌,
}
use mdrive.Errorx.{Kind}
use mdrive.Result.{Result, ok, err}
use mdrive.World.Tables.{Drive}
use mdrive.World.Action.{draw_now}
use mdrive.Drives.{list_deleted_for_admin, purge}
use mdrive.Vfs.Remove.{record_garbage}
use mdrive.Outside.{Moment, Call, pure, raise, lift, attempt, db, ask, ◌>>=◌, ◌>>◌}
use mdrive.Upload.Tokens.{PresignMeta, is_expired, TokenRegistry}
use mdrive.Upload.Store.{S3Api, S3Config, S3Cloud, client_of, new_client, delete_objects}
use mdrive.Upload.Service.{Servers, ask_tokens, delete_upload}
use mdrive.Gc.Tombstones.{
  TombstoneGroup, query_tombstones, delete_tombstones, find_storage_by_bucket,
}

-- defaultProcessLimit
abbrev pub default_process_limit : ℕ
default_process_limit = 1000

-- stringPtr
abbrev string_ptr : Option Text → Option Text
string_ptr none = none
string_ptr (some s) = if no_text s then none else some s

module _ (C : S3Cloud) where
  -- (t *TombstoneCleaner) processGroup
  unfoldable pub process_group : TombstoneGroup → Call C.State (Unit {0})
  unfolding find_storage_by_bucket new_client delete_objects
  process_group g = do
    storage ← db (find_storage_by_bucket g.bucket)
    let cfg : S3Config = record storage { endpoint = string_ptr storage.endpoint }
    lift (new_client cfg)
    ask λ t. delete_objects (client_of C cfg) t g.bucket g.keys

  -- The loop of Run: the rows of a group are deleted only if its objects were.
  abbrev pub drop_rows : TombstoneGroup → Result (Unit {0}) → Call C.State (Unit {0})
  drop_rows g (err k) = pure tt
  drop_rows g (ok a) = do _ ← attempt (db (delete_tombstones g.ids)); pure tt

  unfoldable pub clean_groups : List TombstoneGroup → Call C.State (Unit {0})
  unfolding process_group delete_tombstones
  clean_groups [] = pure tt
  clean_groups (g ∷ groups) = do
    done ← attempt (process_group g)
    drop_rows g done
    clean_groups groups

  -- (t *TombstoneCleaner) Run
  unfoldable pub clean_tombstones :
      (List TombstoneGroup → List TombstoneGroup) → Call C.State (Unit {0})
  unfolding query_tombstones clean_groups
  clean_tombstones visit = do
    groups ← db (query_tombstones visit default_process_limit)
    clean_groups groups

-- NewDrivePurger: seven days, in nanoseconds, if no retention is given.
abbrev pub retention_or_default : ℕ → ℕ
retention_or_default zero = 7 * 24 * 3600 * 1000000000
retention_or_default (suc n) = suc n

-- The loop of (p *DrivePurger) Run.
unfoldable pub purge_all : {S : Type 0} → List Drive → Call S (Unit {0})
unfolding purge
purge_all [] = pure tt
purge_all (d ∷ drives) = do _ ← attempt (db (purge d.id)); purge_all drives

-- (p *DrivePurger) Run
unfoldable pub purge_drives : {S : Type 0} → ℕ → Call S (Unit {0})
unfolding draw_now list_deleted_for_admin purge_all
purge_drives retention = do
  now ← db draw_now
  drives ←
      db (list_deleted_for_admin true (now - retention_or_default retention) default_process_limit)
  purge_all drives

module _ (R : TokenRegistry) (O : S3Api) where
  -- (u *UploadExpirer) Run: what it does with one id of the scan.
  abbrev garbage_if_left : Text → Text → Result (Unit {0}) → Call (Servers R O) (Unit {0})
  garbage_if_left bucket key (ok a) = pure tt
  garbage_if_left bucket key (err k) = do
    _ ← attempt (db (record_garbage (record { bucket = bucket; key = key } ∷ [])))
    pure tt

  unfoldable pub expire_object : Text → Text → Call (Servers R O) (Unit {0})
  unfolding delete_upload record_garbage
  expire_object bucket key =
      if no_text bucket || no_text key
      then pure tt
      else (do gone ← attempt (delete_upload R O bucket key); garbage_if_left bucket key gone)

  unfoldable pub expire_token : Text → PresignMeta → Call (Servers R O) (Unit {0})
  unfolding expire_object draw_now
  expire_token id m = do
    now ← db draw_now
    if not (is_expired now m) then pure tt else (do
      expire_object m.bucket m.key
      _ ← attempt (ask_tokens R O λ t. R.delete t id)
      pure tt)

  abbrev expire_found : Text → Result PresignMeta → Call (Servers R O) (Unit {0})
  unfolding expire_token
  expire_found id (err k) = do _ ← attempt (ask_tokens R O λ t. R.delete t id); pure tt
  expire_found id (ok m) = expire_token id m

  unfoldable pub expire_one : Text → Call (Servers R O) (Unit {0})
  unfolding expire_token expire_found
  expire_one id = do found ← attempt (ask_tokens R O λ t. R.get t id); expire_found id found

  unfoldable pub expire_ids : List Text → Call (Servers R O) (Unit {0})
  unfolding expire_one
  expire_ids [] = pure tt
  expire_ids (id ∷ ids) = do expire_one id; expire_ids ids

  -- The loop of Scan over its pages, on fuel for the pages; the cursor 0 ends it.
  unfoldable pub scan_pages :
      (Moment → ℕ → R.State → Result (List Text × ℕ) × R.State)
      → ℕ
      → ℕ
      → Call (Servers R O) (Unit {0})
  unfolding expire_ids
  scan_pages page zero cursor = raise Kind.internal
  scan_pages page (suc fuel) cursor = do
    (ids, next) ← ask_tokens R O λ t. page t cursor
    expire_ids ids
    if next == 0 then pure tt else scan_pages page fuel next

  -- Run; a registry that cannot be scanned is left alone.
  abbrev scan_with :
      Option (Moment → ℕ → R.State → Result (List Text × ℕ) × R.State)
      → ℕ
      → Call (Servers R O) (Unit {0})
  unfolding scan_pages
  scan_with none fuel = pure tt
  scan_with (some page) fuel = scan_pages page fuel 0

  unfoldable pub expire_uploads : ℕ → Call (Servers R O) (Unit {0})
  unfolding scan_with scan_pages
  expire_uploads fuel = scan_with R.scan_page fuel
