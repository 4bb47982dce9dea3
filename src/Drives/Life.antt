-- ===== src/Drives/Life.antt =====
-- internal/core/drive/service.go: a drive that is deleted, restored and purged.
use mdrive.Prelude.{
  ℕ, suc, ◌+◌, ◌≡◌, refl, ap, ◌∙◌, true, false, none, some, Text, ◌=s=◌, =s=_iff, arith,
}
use mdrive.Errorx.{Kind}
use mdrive.Result.{Result, ok, err}
use mdrive.World.Tables.{Drive, Storage, Db}
use mdrive.World.Rows.{
  find, update_where, find-update_where, find-delete_where, find-delete_where_other, exists-find,
}
use mdrive.World.Inversion.{view-put_view}
use mdrive.World.Action.{World, Env, ◌>>◌, view, put_view, step, draw_now}
use mdrive.Drives.Rows.{
  has_id, stores, stamped, get_drive, update_one, soft_delete, clear_deleted_at, delete_rows,
  delete_storage,
}
use mdrive.Drives.{delete_drive, restore, purge}

get_drive_ok :
    (id : Text) (d : Drive) (e : Env) (w : World)
    → e.fault w.tick ≡ false
    → find (has_id id) (view w).drives ≡ some d
    → get_drive id e w ≡ (ok d, step w)
unfolding get_drive
get_drive_ok id d e w quiet there = rw (quiet, there) refl

abbrev changed : Text → (Drive → Drive) → World → World
changed id set w =
    put_view (record (view w) { drives = update_where (has_id id) set (view w).drives }) w

update_one_ok :
    (id : Text) (set : Drive → Drive) (d : Drive) (e : Env) (w : World)
    → e.fault (suc w.tick) ≡ false
    → find (has_id id) (view w).drives ≡ some d
    → update_one id set e w
      ≡ (ok (stamped set (e.now w.tick) d), changed id (stamped set (e.now w.tick)) (step (step w)))
unfolding update_one draw_now
update_one_ok id set d e w quiet there = rw (quiet, there) refl

changed_here :
    (id : Text) (set : Drive → Drive) (d : Drive) (w : World)
    → ((y : Drive) → (set y).id ≡ y.id)
    → find (has_id id) (view w).drives ≡ some d
    → find (has_id id) (view (changed id set w)).drives ≡ some (set d)
changed_here id set d w keep there =
    ap (λ (db : Db). find (has_id id) db.drives)
      (view-put_view (record (view w) { drives = update_where (has_id id) set (view w).drives }) w)
    ∙ find-update_where (has_id id) set d (view w).drives
        (λ y h. ap (λ (s : Text). s =s= id) (keep y) ∙ h) there

changed_tick : (id : Text) (set : Drive → Drive) (w : World) → (changed id set w).tick ≡ w.tick
changed_tick id set w = ground arith

abbrev gone : Env → World → Drive → Drive
gone e w row = record row {
  deleted_at = some (e.now (suc w.tick));
  updated_at = e.now (suc (suc w.tick));
}

delete_drive_ok :
    (id : Text) (d : Drive) (e : Env) (w : World)
    → ((t : ℕ) → e.fault t ≡ false)
    → find (has_id id) (view w).drives ≡ some d
    → delete_drive id e w ≡ (ok tt, changed id (gone e w) (step (step (step (step w)))))
unfolding delete_drive soft_delete draw_now
delete_drive_ok id d e w quiet there =
    rw
      (
        get_drive_ok id d e w (quiet w.tick) there,
        update_one_ok id (λ row. record row { deleted_at = some (e.now (suc w.tick)) }) d e
            (step (step w)) (quiet _) there,
      )
      refl

restore_ok :
    (id : Text) (d : Drive) (t : ℕ) (e : Env) (w : World)
    → ((t : ℕ) → e.fault t ≡ false)
    → find (has_id id) (view w).drives ≡ some d
    → d.deleted_at ≡ some t
    → (restore id e w).0 ≡ ok (record d { deleted_at = none; updated_at = e.now (suc w.tick) })
unfolding restore clear_deleted_at
restore_ok id d t e w quiet there deleted =
    let set : Drive → Drive =
      λ row. record row { deleted_at = none; updated_at = e.now (suc w.tick) } in
    let w' : World = changed id set (step (step (step w))) in
    rw
      (
        get_drive_ok id d e w (quiet w.tick) there,
        deleted,
        update_one_ok id (λ row. record row { deleted_at = none }) d e (step w) (quiet _) there,
      )
      (ap (λ (r : Result Drive × World). r.0)
        (get_drive_ok id (set d) e w' (quiet _)
          (changed_here id set d (step (step (step w))) (λ y. refl) there)))

-- Delete of a drive and then Restore, with no failing call: Restore returns the drive with no time of
-- deletion and with the time of Restore's update as that of its last update, else as it was before.
pub restore-delete_drive :
    (id : Text) (d : Drive) (e : Env) (w : World)
    → ((t : ℕ) → e.fault t ≡ false)
    → find (has_id id) (view w).drives ≡ some d
    → ((delete_drive id >> restore id) e w).0
      ≡ ok (record d { deleted_at = none; updated_at = e.now (w.tick + 5) })
restore-delete_drive id d e w quiet there =
    let w₄ : World = step (step (step (step w))) in
    let later : suc (changed id (gone e w) w₄).tick ≡ w.tick + 5 =
      ground (arith, changed_tick id (gone e w) w₄) in
    rw (delete_drive_ok id d e w quiet there) (
      restore_ok id (gone e w d) (e.now (suc w.tick)) e (changed id (gone e w) w₄) quiet
        (changed_here id (gone e w) d w₄ (λ y. refl) there) refl
      ∙ ap (λ (t : ℕ). ok (record d { deleted_at = none; updated_at = e.now t })) later)

-- Purge of a drive outside of a transaction, whose call for the row of the storage succeeds and whose
-- call for the row of the drive fails: it returns the error, the rows of the drives are as they were,
-- and there is no row of the drive's storage.
pub purge-fault :
    (id : Text) (e : Env) (w : World)
    → w.tx ≡ none
    → e.fault w.tick ≡ false
    → e.fault (suc w.tick) ≡ true
    → ((purge id e w).0 ≡ err Kind.unknown)
      × ((purge id e w).1.committed.drives ≡ w.committed.drives)
      × (find (stores id) (purge id e w).1.committed.storages ≡ none)
unfolding purge delete_rows delete_storage
purge-fault id e w closed quiet fails =
    rw (quiet, closed, fails) (refl, refl, find-delete_where (stores id) w.committed.storages)

pub other_drive :
    (id other : Text)
    → (id =s= other) ≡ false
    → (d : Drive) → has_id other d ≡ true
    → has_id id d ≡ false
other_drive id other apart d h =
    ground (arith, =s=_iff d.id id, =s=_iff d.id other, =s=_iff id other)

pub other_storage :
    (id other : Text)
    → (id =s= other) ≡ false
    → (s : Storage) → stores other s ≡ true
    → stores id s ≡ false
other_storage id other apart s h =
    ground (arith, =s=_iff s.drive_id id, =s=_iff s.drive_id other, =s=_iff id other)

-- Purge of a drive outside of a transaction, with no failing call, succeeds: the drive and its storage
-- are gone, every other drive and storage is found as before, and all the nodes are as before, the root
-- directory of the drive among them.
pub purge-ok :
    (id other : Text) (d : Drive) (e : Env) (w : World)
    → ((t : ℕ) → e.fault t ≡ false)
    → w.tx ≡ none
    → find (has_id id) w.committed.drives ≡ some d
    → (id =s= other) ≡ false
    → let (r, w') = purge id e w in
      (r ≡ ok tt)
      × (find (has_id id) w'.committed.drives ≡ none)
      × (find (stores id) w'.committed.storages ≡ none)
      × (find (has_id other) w'.committed.drives ≡ find (has_id other) w.committed.drives)
      × (find (stores other) w'.committed.storages ≡ find (stores other) w.committed.storages)
      × (w'.committed.nodes ≡ w.committed.nodes)
unfolding purge delete_rows delete_storage
purge-ok id other d e w quiet closed there apart =
    rw
      (quiet w.tick, closed, quiet (suc w.tick), exists-find (has_id id) d w.committed.drives there)
      (
        refl,
        find-delete_where (has_id id) w.committed.drives,
        find-delete_where (stores id) w.committed.storages,
        find-delete_where_other (has_id id) (has_id other) w.committed.drives
            (other_drive id other apart),
        find-delete_where_other (stores id) (stores other) w.committed.storages
            (other_storage id other apart),
        refl,
      )
