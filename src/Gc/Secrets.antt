-- ===== src/Gc/Secrets.antt =====
-- internal/core/drive/ent.go and internal/app/gc/store.go: the secret key of a storage, as the two
-- readers of the table see it.
use mdrive.Prelude.{
  ℕ, suc, ◌≡◌, refl, sym, ap, ◌∙◌, false, ◌||◌, none, some, [], ◌∷◌, ◌++◌, Text, ◌=s=◌, =s=_refl,
  arith, Bool-cases, inl, inr,
}
use mdrive.Errorx.{Kind}
use mdrive.Result.{Result, ok}
use mdrive.Crypto.{Cipher, IsLawful}
use mdrive.World.Tables.{Drive, Storage, Db}
use mdrive.World.Rows.{find, find-append, exists-none, exists_where}
use mdrive.World.Action.{
  World, Env, step, view, put_view, draw_now, lift, db_call, raise_if, change, query, ◌>>=◌, ◌>>◌,
}
use mdrive.Upload.Store.{S3Config}
use mdrive.Gc.Tombstones.{find_storage_by_bucket}
use mdrive.World.Inversion.{view-put_view, >>=-elim, lift-ok}
use mdrive.Drives.Rows.{stores, insert_drive, insert_storage, create_rows, get_storage}

rows-put_view : (db : Db) (w : World) → (view (put_view db w)).storages ≡ db.storages
rows-put_view db w = ap (λ (db : Db). db.storages) (view-put_view db w)

put_storage-ok :
    (s : Storage) (secret : Text) (e : Env) (w w' : World) (a : Unit {0})
    → (db_call
          >> (query (λ db. exists_where (stores s.drive_id) db.storages) >>= λ clash.
              raise_if clash Kind.unknown
              >> change (λ db. record db {
                storages = db.storages ++ record s { secret_key = secret } ∷ [];
              })))
        e w
      ≡ (ok a, w')
    → (exists_where (stores s.drive_id) (view w).storages ≡ false)
      × ((view w').storages ≡ (view w).storages ++ record s { secret_key = secret } ∷ [])
unfolding db_call
put_storage-ok s secret e w w' a h = elim (Bool-cases (e.fault w.tick)) [
  | inl bad ↦ absurd (ground (arith, bad))
  | inr good ↦ elim (Bool-cases (exists_where (stores s.drive_id) (view w).storages)) [
    | inl clash ↦ absurd (ground (arith, good, clash))
    | inr free ↦
        let rows = (view w).storages ++ record s { secret_key = secret } ∷ [] in
        let done : World = put_view (record (view w) { storages = rows }) (step w) in
        let ran : ◌≡◌ {A = Result (Unit {0}) × World} (ok tt, done) (ok a, w') =
          sym (rw (good, free) refl) ∙ h in
        (
          free,
          ap (λ (r : Result (Unit {0}) × World). (view r.1).storages) (sym ran)
              ∙ rows-put_view (record (view w) { storages = rows }) (step w),
        )
  ]
]

-- The row that an insertion that succeeded wrote.
insert_storage-ok :
    (c : Cipher) (s : Storage) (e : Env) (w w' : World) (a : Unit {0})
    → insert_storage c s e w ≡ (ok a, w')
    → (secret : Text) × (c.encrypt (e.now w.tick) s.secret_key ≡ ok secret)
      × (exists_where (stores s.drive_id) (view w).storages ≡ false)
      × ((view w').storages ≡ (view w).storages ++ record s { secret_key = secret } ∷ [])
unfolding insert_storage draw_now
insert_storage-ok c s e w w' a h =
    >>=-elim (lift (c.encrypt (e.now w.tick) s.secret_key)) _ e (step w) w' a h λ secret v h₁ k₁.
      let (sealed, same) = lift-ok (c.encrypt (e.now w.tick) s.secret_key) e (step w) v secret h₁ in
      let (free, rows) = put_storage-ok s secret e v w' a k₁ in
      (
        secret,
        sealed,
        ap (λ (w : World). exists_where (stores s.drive_id) (view w).storages) (sym same) ∙ free,
        rows ∙ ap (λ (w : World). (view w).storages ++ record s { secret_key = secret } ∷ []) same,
      )

abbrev pub config_of : Storage → Text → S3Config
config_of s secret = record {
  region = s.region;
  endpoint = s.endpoint;
  access_key = s.access_key;
  secret_key = secret;
  use_path_style = s.use_path_style;
}

insert_drive-storages :
    (d : Drive) (a : Unit {0}) (e : Env) (w w' : World)
    → insert_drive d e w ≡ (ok a, w')
    → (view w').storages ≡ (view w).storages
unfolding insert_drive draw_now
insert_drive-storages d a e w w' h = elim (Bool-cases (e.fault (suc w.tick))) [
  | inl bad ↦ absurd (ground (arith, bad))
  | inr good ↦
      elim (Bool-cases (
        exists_where (λ (r : Drive). (r.id =s= d.id) || (r.public_id =s= d.public_id))
          (view w).drives)) [
            | inl clash ↦ absurd (ground (arith, good, clash))
            | inr free ↦
                let row : Drive = record d {
                  deleted_at = none;
                  created_at = e.now w.tick;
                  updated_at = e.now w.tick;
                } in
                let db : Db = record (view w) { drives = (view w).drives ++ row ∷ [] } in
                let ran : ◌≡◌ {A = Result (Unit {0}) × World} (ok tt, put_view db (step (step w)))
                    (ok a, w') =
                  sym (rw (good, free) refl) ∙ h in
                ap (λ (r : Result (Unit {0}) × World). (view r.1).storages) (sym ran)
                ∙ rows-put_view db (step (step w))
          ]
]

-- What the two readers make of the row.
module _ (c : Cipher) (L : IsLawful c) where
  -- The rows of a new drive were created, with a cipher that reads back what it wrote, and then, outside
  -- of a transaction and where the query does not fail, its storage is read, where no other storage has
  -- its bucket: GetStorage returns it with the secret key that it was created with,
  -- FindStorageByBucket with the text that the key was encrypted to.
  pub find_storage_by_bucket-create_rows :
      (d : Drive) (s : Storage) (a : Unit {0}) (e : Env) (w w' v : World)
      → create_rows c d s e w ≡ (ok a, w')
      → exists_where (λ (x : Storage). x.bucket =s= s.bucket) (view w).storages ≡ false
      → v.tx ≡ none
      → v.committed.storages ≡ (view w').storages
      → e.fault v.tick ≡ false
      → (nonce : ℕ) × (secret : Text) × (c.encrypt nonce s.secret_key ≡ ok secret)
        × ((get_storage c s.drive_id e v).0 ≡ ok s)
        × ((find_storage_by_bucket s.bucket e v).0 ≡ ok (config_of s secret))
  unfolding create_rows get_storage find_storage_by_bucket
  find_storage_by_bucket-create_rows d s a e w w' v h alone closed same quiet =
      >>=-elim (insert_drive d) (λ _. insert_storage c s) e w w' a h
        λ _ u h₁ k₁.
          let (secret, sealed, free, rows) = insert_storage-ok c s e u w' a k₁ in
          let row : Storage = record s { secret_key = secret } in
          let here : find (stores s.drive_id) v.committed.storages ≡ some row =
            ap (find (stores s.drive_id)) (same ∙ rows)
            ∙ find-append (stores s.drive_id) row (view u).storages
                (exists-none (stores s.drive_id) (stores s.drive_id) (view u).storages (λ x q. q)
                  free)
                (=s=_refl s.drive_id) in
          let in_bucket : find (λ (x : Storage). x.bucket =s= s.bucket) v.committed.storages
              ≡ some row =
            ap (find (λ (x : Storage). x.bucket =s= s.bucket)) (same ∙ rows)
            ∙ find-append (λ (x : Storage). x.bucket =s= s.bucket) row (view u).storages
                (exists-none (λ (x : Storage). x.bucket =s= s.bucket)
                  (λ (x : Storage). x.bucket =s= s.bucket) (view u).storages (λ x q. q)
                  (ap (exists_where (λ (x : Storage). x.bucket =s= s.bucket))
                      (insert_drive-storages d _ e w u h₁)
                    ∙ alone))
                (=s=_refl s.bucket) in
          (
            e.now u.tick,
            secret,
            sealed,
            rw (quiet, closed, here, L.decrypt-encrypt (e.now u.tick) s.secret_key secret sealed)
                refl,
            rw (quiet, in_bucket) refl,
          )
