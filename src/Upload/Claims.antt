-- ===== src/Upload/Claims.antt =====
-- internal/upload/service.go: what CompleteUpload asks of a token, and what it leaves.
use mdrive.Prelude.{
  ◌≡◌, sym, ap, ◌∙◌, subst, Bool, true, false, not, Text, ℤ, ◌=s=◌, =s=_iff, arith,
}
use mdrive.Errorx.{Kind}
use mdrive.Result.{Result, ok}
use mdrive.World.Action.{Env, step}
use mdrive.Outside.{Site, at, raise_if}
use mdrive.Outside.Silent.{Silent, silent_rules, >>=-elim, raise_if-ok}
use mdrive.Upload.Tokens.{PresignMeta, TokenRegistry}
use mdrive.Upload.Store.{S3Api, exists_of, object_exists}
use mdrive.Upload.Service.{Servers, mismatch, ask_tokens, ask_objects, claim_token}

module _ (R : TokenRegistry) (O : S3Api) where
  -- What claim_token found out.
  pub record IsClaimed (user_id drive_id upload_id : Text) (length : ℤ) (e : Env)
      (s : Site (Servers R O)) (m : PresignMeta) : Type 0 where
    pub kept : (R.get (at e s.world) upload_id s.servers.tokens).0 ≡ ok m
    pub own : m.user_id ≡ user_id
    pub drive : m.drive_id ≡ drive_id
    pub size : mismatch m.size length ≡ false
    pub uploaded :
        exists_of (O.head_object (at e (step s.world)) m.bucket m.key s.servers.objects) ≡ ok true

  result_of :
      (x m : PresignMeta) (s s' : Site (Servers R O))
      → ◌≡◌ {A = Result PresignMeta × Site (Servers R O)} (ok x, s) (ok m, s')
      → x ≡ m
  result_of x m s s' h = cc

  same_text : (a b : Text) → not (a =s= b) ≡ false → a ≡ b
  same_text a b h = ground (arith, =s=_iff a b)

  is_true : (b : Bool) → not b ≡ false → b ≡ true
  is_true b h = ground arith

  pub claim_token_ok :
      (user_id drive_id upload_id : Text) (length : ℤ) (m : PresignMeta) (e : Env)
      (s s' : Site (Servers R O))
      → claim_token R O user_id drive_id upload_id length e s ≡ (ok m, s')
      → IsClaimed user_id drive_id upload_id length e s m
  unfolding claim_token object_exists
  claim_token_ok user_id drive_id upload_id length m e s s' h =
      >>=-elim (ask_tokens R O λ t. R.get t upload_id) _ e s s' m h λ x s₁ h₁ k₁.
        >>=-elim (raise_if (not (x.user_id =s= user_id)) Kind.permission_denied) _ e s₁ s' m k₁
          λ _ s₂ h₂ k₂.
            >>=-elim (raise_if (not (x.drive_id =s= drive_id)) Kind.invalid_argument) _ e s₂ s' m k₂
              λ _ s₃ h₃ k₃.
                >>=-elim (raise_if (mismatch x.size length) Kind.invalid_argument) _ e s₃ s' m k₃
                  λ _ s₄ h₄ k₄.
                    >>=-elim (ask_objects R O λ t. object_exists O t x.bucket x.key) _ e s₄ s' m k₄
                      λ there s₅ h₅ k₅.
                        >>=-elim (raise_if (not there) Kind.not_found) _ e s₅ s' m k₅ λ _ s₆ h₆ k₆.
                          let (own, e₂) =
                            raise_if-ok (not (x.user_id =s= user_id)) Kind.permission_denied e s₁ s₂
                              _ h₂ in
                          let (drive, e₃) =
                            raise_if-ok (not (x.drive_id =s= drive_id)) Kind.invalid_argument e s₂
                              s₃ _ h₃ in
                          let (size, e₄) =
                            raise_if-ok (mismatch x.size length) Kind.invalid_argument e s₃ s₄ _
                              h₄ in
                          let (yes_there, _) =
                            raise_if-ok (not there) Kind.not_found e s₅ s₆ _ h₆ in
                          let is : x ≡ m = result_of x m s₆ s' k₆ in
                          let first : Site (Servers R O) = record {
                            world = step s.world;
                            servers = record s.servers {
                              tokens = (R.get (at e s.world) upload_id s.servers.tokens).1;
                            };
                          } in
                          let back : s₄ ≡ first =
                            sym e₄
                            ∙ (sym e₃
                                ∙ (sym e₂
                                    ∙ sym (
                                        ap (λ (r : Result PresignMeta × Site (Servers R O)). r.1)
                                          h₁))) in
                          let seen : exists_of (
                                O.head_object (at e (step s.world)) x.bucket x.key
                                  s.servers.objects)
                              ≡ ok there =
                            ap (λ (r : Result Bool × Site (Servers R O)). r.0)
                              (subst
                                (λ (v : Site (Servers R O)).
                                  ask_objects R O (λ t. object_exists O t x.bucket x.key) e v
                                  ≡ (ok there, s₅))
                                back h₅) in
                          let token : (R.get (at e s.world) upload_id s.servers.tokens).0 ≡ ok x =
                            ap (λ (r : Result PresignMeta × Site (Servers R O)). r.0) h₁ in
                          subst
                            (λ (y : PresignMeta). IsClaimed user_id drive_id upload_id length e s y)
                            is
                            (record {
                              kept = token;
                              own = same_text x.user_id user_id own;
                              drive = same_text x.drive_id drive_id drive;
                              size = size;
                              uploaded = seen ∙ ap ok (is_true there yes_there);
                            })

  pub Silent-claim_token :
      (user_id drive_id upload_id : Text) (length : ℤ)
      → Silent (claim_token R O user_id drive_id upload_id length)
  unfolding claim_token
  Silent-claim_token user_id drive_id upload_id length = search silent_rules depth 22
