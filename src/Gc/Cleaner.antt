-- ===== src/Gc/Cleaner.antt =====
-- internal/app/gc/runner.go: TombstoneCleaner on buckets that no storage has.
use mdrive.Prelude.{◌≡◌, refl, ap, none, List, [], ◌∷◌, ◌=s=◌, Bool-cases, inl, inr}
use mdrive.World.Tables.{Storage, Db}
use mdrive.World.Rows.{find}
use mdrive.World.Action.{Env, step}
use mdrive.Drives.Rows.{limit}
use mdrive.Outside.{Site, db}
use mdrive.Upload.Store.{S3Cloud}
use mdrive.Gc.Tombstones.{
  TombstoneGroup, oldest_first, by_bucket, query_tombstones, find_storage_by_bucket,
}
use mdrive.Gc.{default_process_limit, process_group, clean_groups, clean_tombstones}

-- No storage has the bucket of any of the groups.
abbrev pub AreOrphans : List Storage → List TombstoneGroup → Type 0
AreOrphans storages [] = Unit {0}
AreOrphans storages (g ∷ groups) =
    (find (λ (s : Storage). s.bucket =s= g.bucket) storages ≡ none) × AreOrphans storages groups

-- The groups that a run goes through.
abbrev pub batch : (List TombstoneGroup → List TombstoneGroup) → Db → List TombstoneGroup
batch visit db = visit (by_bucket [] (limit default_process_limit (oldest_first db.tombstones)))

module _ (C : S3Cloud) where
  abbrev Unchanged : Site C.State → Site C.State → Type 0
  Unchanged s s' = (s'.world.committed ≡ s.world.committed) × (s'.servers ≡ s.servers)

  clean_groups-Unchanged :
      (groups : List TombstoneGroup) (e : Env) (s : Site C.State)
      → AreOrphans s.world.committed.storages groups
      → Unchanged s (clean_groups C groups e s).1
  unfolding clean_groups process_group find_storage_by_bucket
  clean_groups-Unchanged [] e s a = (refl, refl)
  clean_groups-Unchanged (g ∷ groups) e s (gone, a) = elim (Bool-cases (e.fault s.world.tick)) [
    | inl bad ↦ rw bad (clean_groups-Unchanged groups e (record s { world = step s.world }) a)
    | inr good ↦
        rw (good, gone) (clean_groups-Unchanged groups e (record s { world = step s.world }) a)
  ]

  -- A run of the job that cleans up tombstones, where no storage has the bucket of any of the oldest
  -- thousand of them: it deletes no object and no tombstone, in whatever order it visits the buckets, and
  -- the groups that a next run would go through are the same.
  pub clean_tombstones-Unchanged :
      (visit : List TombstoneGroup → List TombstoneGroup) (e : Env) (s : Site C.State)
      → AreOrphans s.world.committed.storages (batch visit s.world.committed)
      → let s' = (clean_tombstones C visit e s).1 in
        (s'.world.committed ≡ s.world.committed)
        × (s'.servers ≡ s.servers)
        × (batch visit s'.world.committed ≡ batch visit s.world.committed)
  unfolding clean_tombstones query_tombstones
  clean_tombstones-Unchanged visit e s a = elim (Bool-cases (e.fault s.world.tick)) [
    | inl bad ↦ rw bad (refl, refl, refl)
    | inr good ↦
        let (same, servers) =
          clean_groups-Unchanged (batch visit s.world.committed) e
            (record s { world = step s.world }) a in
        rw good (same, servers, ap (batch visit) same)
  ]
