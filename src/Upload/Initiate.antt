-- ===== src/Upload/Initiate.antt =====
-- internal/upload/service.go: InitiateUpload, and the token check of a CompleteUpload behind it.
use mdrive.Prelude.{
  ℕ, suc, ◌+◌, ◌≡◌, ◌≤◌, refl, sym, ap, ◌∙◌, subst, Bool, true, false, not, Option, some, Text, ℤ,
  ◌=s=◌, =s=_refl, if◌then◌else◌, arith, Bool-cases, inl, inr, no_text, codes,
}
use mdrive.Errorx.{Kind}
use mdrive.Result.{Result, ok, err}
use mdrive.Crypto.{Cipher}
use mdrive.World.Action.{Env, step, draw_now}
use mdrive.Drives.Rows.{get_storage}
use mdrive.Outside.{Site, at, db, lift, pure, raise_if, attempt, ◌>>=◌, ◌>>◌}
use mdrive.Outside.Silent.{>>=-elim}
use mdrive.Upload.Tokens.{PresignMeta, TokenRegistry, Refines}
use mdrive.Upload.Store.{S3Api, exists_of, object_exists, get_presigned_upload_url}
use mdrive.Upload.Service.{
  PresignInfo, Servers, mismatch, ask_tokens, ask_objects, url_or_undo, object_key, new_token,
  issue_url, initiate_upload, claim_token,
}

module _ (R : TokenRegistry) (O : S3Api) where
  -- What the token check decides of a token, and of the answer of the object store.
  abbrev pub verdict : Text → Text → ℤ → PresignMeta → Result Bool → Result PresignMeta
  verdict user_id drive_id length m answer =
      if m.user_id =s= user_id
      then if m.drive_id =s= drive_id
        then if mismatch m.size length
          then err Kind.invalid_argument
          else elim answer [ ok there ↦ if there then ok m else err Kind.not_found | err k ↦ err k ]
        else err Kind.invalid_argument
      else err Kind.permission_denied

  answered :
      (m : PresignMeta) (r : Result Bool) (e : Env) (v : Site (Servers R O))
      → ((lift r >>= λ there. raise_if (not there) Kind.not_found >> pure m) e v).0
        ≡ elim r [ ok there ↦ if there then ok m else err Kind.not_found | err k ↦ err k ]
  answered m (ok true) e v = refl
  answered m (ok false) e v = refl
  answered m (err k) e v = refl

  claim_token_run :
      (user_id drive_id upload_id : Text) (length : ℤ) (m : PresignMeta) (e : Env)
      (s : Site (Servers R O))
      → (R.get (at e s.world) upload_id s.servers.tokens).0 ≡ ok m
      → (claim_token R O user_id drive_id upload_id length e s).0
        ≡ verdict user_id drive_id length m
            (exists_of (O.head_object (at e (step s.world)) m.bucket m.key s.servers.objects))
  unfolding claim_token object_exists
  claim_token_run user_id drive_id upload_id length m e s found =
      rw found (elim (Bool-cases (m.user_id =s= user_id)) [
        | inl own ↦ rw own (elim (Bool-cases (m.drive_id =s= drive_id)) [
          | inl here ↦ rw here (elim (Bool-cases (mismatch m.size length)) [
            | inl other ↦ rw other refl
            | inr same ↦ rw same (
                answered m
                  (exists_of (O.head_object (at e (step s.world)) m.bucket m.key s.servers.objects))
                  e _)
          ])
          | inr away ↦ rw away refl
        ])
        | inr foreign ↦ rw foreign refl
      ])

  new_token_ok :
      (c : Cipher) (uuid_text : ℕ → Text) (user_id drive_id path : Text)
      (content_type : Option Text) (size : Option ℤ) (expiry : ℕ) (m : PresignMeta) (e : Env)
      (s s' : Site (Servers R O))
      → new_token R O c uuid_text user_id drive_id path content_type size expiry e s ≡ (ok m, s')
      → (m.user_id ≡ user_id)
        × (m.drive_id ≡ drive_id)
        × (m.path ≡ path)
        × (m.size ≡ size)
        × (m.key ≡ object_key drive_id m.upload_id)
        × ((t : ℕ) × (m.expires_at ≡ e.now t + expiry) × (s'.world.tick ≡ suc t))
  unfolding new_token draw_now
  new_token_ok c uuid_text user_id drive_id path content_type size expiry m e s s' h =
      >>=-elim (db (get_storage c drive_id)) _ e s s' m h λ storage s₁ h₁ k₁.
        >>=-elim (raise_if (no_text storage.bucket) Kind.failed_precondition) _ e s₁ s' m k₁
          λ _ s₂ h₂ k₂.
            let x : PresignMeta = record {
              upload_id = uuid_text (e.uuid s₂.world.tick);
              drive_id = drive_id;
              user_id = user_id;
              path = path;
              bucket = storage.bucket;
              key = object_key drive_id (uuid_text (e.uuid s₂.world.tick));
              content_type = content_type;
              size = size;
              expires_at = e.now (suc s₂.world.tick) + expiry;
            } in
            let is : ◌≡◌ {A = Result PresignMeta} (ok m) (ok x) =
              sym (ap (λ (r : Result PresignMeta × Site (Servers R O)). r.0) k₂) in
            let end : s'.world.tick ≡ suc (suc s₂.world.tick) =
              sym (ap (λ (r : Result PresignMeta × Site (Servers R O)). r.1.world.tick) k₂) in
            (cc is, cc is, cc is, cc is, cc is, (suc s₂.world.tick, cc is, end))

  -- A URL was issued: the token was put, and it is still there.
  issue_url_ok :
      {kept : ℕ → ℕ} (L : Refines R kept) (m : PresignMeta) (expiry : ℕ) (info : PresignInfo)
      (e : Env) (s s' : Site (Servers R O))
      → issue_url R O m expiry e s ≡ (ok info, s')
      → (L.entry s'.servers.tokens m.upload_id
          ≡ some (record { meta = m; exp = (at e s.world).now + kept expiry }))
        × (info.upload_id ≡ m.upload_id)
        × (info.key ≡ m.key)
        × (info.expires_at ≡ m.expires_at)
  unfolding issue_url get_presigned_upload_url
  issue_url_ok {kept} L m expiry info e s s' h =
      >>=-elim (ask_tokens R O λ t. R.put t m expiry) _ e s s' info h λ _ s₁ h₁ k₁.
        issued (O.presign_put (at e s₁.world) m.bucket m.key expiry) s₁ k₁
          (L.put-ok (at e s.world) m expiry s.servers.tokens m.upload_id
              (ap (λ (r : Result (Unit {0}) × Site (Servers R O)). r.0) h₁)
            ∙ rw (=s=_refl m.upload_id) refl)
          (ap (λ (r : Result (Unit {0}) × Site (Servers R O)). r.1.servers.tokens) (sym h₁))
    where
      issued :
          (answer : Result Text) (s₁ : Site (Servers R O))
          → ((attempt (ask_objects R O λ t v. (answer, v)) >>= λ a.
                url_or_undo R O m.upload_id a >>= λ url. pure (record {
                  upload_id = m.upload_id;
                  method = codes "PUT";
                  url = url;
                  key = m.key;
                  expires_at = m.expires_at;
                }))
              e s₁)
            ≡ (ok info, s')
          → L.entry (R.put (at e s.world) m expiry s.servers.tokens).1 m.upload_id
            ≡ some (record { meta = m; exp = (at e s.world).now + kept expiry })
          → s₁.servers.tokens ≡ (R.put (at e s.world) m expiry s.servers.tokens).1
          → (L.entry s'.servers.tokens m.upload_id
              ≡ some (record { meta = m; exp = (at e s.world).now + kept expiry }))
            × (info.upload_id ≡ m.upload_id)
            × (info.key ≡ m.key)
            × (info.expires_at ≡ m.expires_at)
      issued (ok url) s₁ h' there left =
          let x : PresignInfo = record {
            upload_id = m.upload_id;
            method = codes "PUT";
            url = url;
            key = m.key;
            expires_at = m.expires_at;
          } in
          let is : ◌≡◌ {A = Result PresignInfo} (ok info) (ok x) =
            sym (ap (λ (r : Result PresignInfo × Site (Servers R O)). r.0) h') in
          let end : s'.servers.tokens ≡ s₁.servers.tokens =
            sym (ap (λ (r : Result PresignInfo × Site (Servers R O)). r.1.servers.tokens) h') in
          (ap (λ (v : R.State). L.entry v m.upload_id) (end ∙ left) ∙ there, cc is, cc is, cc is)
      issued (err k) s₁ h' there left = absurd (ground arith)

  -- After an InitiateUpload that succeeded, over a registry that does what its clients rely on, the time at
  -- which the upload expires is a reading of the clock and the promised duration, and the token was put at
  -- the next reading, for the part of the duration that the registry keeps. A CompleteUpload of the new id
  -- that finds the registry as it was left, in time for the registry and for the token, in a call of the
  -- registry that does not fail, checks the token as follows: another user is
  -- denied; another drive, or a size other than the promised one, is an invalid argument; an error of the
  -- object store is returned; an object that is not there is not found; and else the token is accepted,
  -- with the bucket and the key under which the object was looked up, the key that of drive and id.
  pub claim_token-initiate_upload :
      {kept : ℕ → ℕ} (L : Refines R kept) (c : Cipher) (uuid_text : ℕ → Text)
      (user_id drive_id path : Text) (content_type : Option Text) (size : Option ℤ) (expiry : ℕ)
      (info : PresignInfo) (e : Env) (s s' : Site (Servers R O))
      → initiate_upload R O c uuid_text user_id drive_id path content_type size expiry e s
        ≡ (ok info, s')
      → (m : PresignMeta) × (t : ℕ) × (info.expires_at ≡ e.now t + expiry)
        × (m.user_id ≡ user_id)
        × (m.drive_id ≡ drive_id)
        × (m.path ≡ path)
        × (m.size ≡ size)
        × (m.key ≡ object_key drive_id info.upload_id)
        × ((user' drive' : Text) (length : ℤ) (e' : Env) (v : Site (Servers R O))
            → v.servers.tokens ≡ s'.servers.tokens
            → (at e' v.world).fails ≡ false
            → (at e' v.world).now ≤ e.now (suc t) + kept expiry
            → (at e' v.world).now ≤ info.expires_at
            → (claim_token R O user' drive' info.upload_id length e' v).0
              ≡ verdict user' drive' length m (
                  exists_of
                    (O.head_object (at e' (step v.world)) m.bucket m.key v.servers.objects)))
  unfolding initiate_upload
  claim_token-initiate_upload {kept} L c uuid_text user_id drive_id path content_type size expiry
        info e s s' h =
      >>=-elim (new_token R O c uuid_text user_id drive_id path content_type size expiry) _ e s s'
        info h
        λ m s₁ h₁ k₁.
          let (own, drive, to, promised, key, (t, expires, next)) =
            new_token_ok c uuid_text user_id drive_id path content_type size expiry m e s s₁ h₁ in
          let (there, same_id, _, same_end) = issue_url_ok L m expiry info e s₁ s' k₁ in
          (
            m,
            t,
            same_end ∙ expires,
            own,
            drive,
            to,
            promised,
            key ∙ ap (object_key drive_id) (sym same_id),
            λ user' drive' length e' v left quiet fresh live.
                claim_token_run user' drive' info.upload_id length m e' v (
                  L.get-live (at e' v.world) info.upload_id v.servers.tokens
                    (record { meta = m; exp = (at e s₁.world).now + kept expiry }) quiet
                    (ap (λ (t : R.State). L.entry t info.upload_id) left
                      ∙ (ap (L.entry s'.servers.tokens) same_id ∙ there))
                    (subst (λ (x : ℕ). (at e' v.world).now ≤ e.now x + kept expiry) (sym next)
                      fresh)
                    (subst (λ (t : ℕ). (at e' v.world).now ≤ t) same_end live)),
          )
