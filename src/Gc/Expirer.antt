-- ===== src/Gc/Expirer.antt =====
-- internal/app/gc/runner.go: what UploadExpirer does over the registry on a key server.
use mdrive.Prelude.{
  ℕ, zero, suc, ◌≡◌, ◌≤◌, refl, ◌∙◌, Bool, true, false, List, [], ◌∷◌, Text, ◌==◌, if◌then◌else◌,
  arith,
}
use mdrive.Errorx.{Kind}
use mdrive.Result.{Result, ok, err}
use mdrive.World.Action.{Env, draw_now}
use mdrive.Outside.{Moment, Site, Call, at, pure, raise, lift, attempt, ◌>>=◌}
use mdrive.Upload.Tokens.{PresignMeta, is_expired, TokenRegistry}
use mdrive.Upload.Valkey.{KeyServer, valkey_registry, get, scan_page}
use mdrive.Upload.Valkey.Refinement.{get-fresh}
use mdrive.Upload.Store.{S3Api}
use mdrive.Upload.Service.{Servers, ask_tokens}
use mdrive.Gc.{expire_one, expire_found, expire_token, expire_ids, scan_pages, expire_uploads}

module _ (R : TokenRegistry) (O : S3Api) (e : Env) where
  -- The call leaves the objects and the tables alone.
  record Spares {A : Type 0} (m : Call (Servers R O) A) : Type 0 where
    at_site :
        (s : Site (Servers R O))
        → ((m e s).1.servers.objects ≡ s.servers.objects)
          × ((m e s).1.world.committed ≡ s.world.committed)

  Spares-pure : {A : Type 0} (a : A) → Spares (pure a)
  Spares-pure a = record { at_site = λ s. (refl, refl) }

  Spares-raise : {A : Type 0} (k : Kind) → Spares (raise {A = A} k)
  Spares-raise k = record { at_site = λ s. (refl, refl) }

  Spares-attempt : {A : Type 0} (m : Call (Servers R O) A) → Spares m → Spares (attempt m)
  Spares-attempt m p = record { at_site = p.at_site }

  Spares-ask_tokens :
      {A : Type 0} (f : Moment → R.State → Result A × R.State) → Spares (ask_tokens R O f)
  Spares-ask_tokens f = record { at_site = λ s. (refl, refl) }

  Spares-bind :
      {A B : Type 0} (m : Call (Servers R O) A) (f : A → Call (Servers R O) B)
      → Spares m
      → ((a : A) → Spares (f a))
      → Spares (m >>= f)
  Spares-bind {A} {B} m f p q = record { at_site = λ s. go s (m e s).0 (m e s).1 (p.at_site s) }
    where
      go :
          (s : Site (Servers R O)) (r : Result A) (v : Site (Servers R O))
          → (v.servers.objects ≡ s.servers.objects) × (v.world.committed ≡ s.world.committed)
          → let n : Result B × Site (Servers R O) = (lift r >>= f) e v in
            (n.1.servers.objects ≡ s.servers.objects) × (n.1.world.committed ≡ s.world.committed)
      go s (ok a) v (o, c) = let (o', c') = (q a).at_site v in (o' ∙ o, c' ∙ c)
      go s (err k) v h = h

  ruleset spares_rules = (Spares-pure, Spares-raise, Spares-attempt, Spares-ask_tokens, Spares-bind)

  Spares-if :
      {A : Type 0} (b : Bool) (m n : Call (Servers R O) A)
      → Spares m
      → Spares n
      → Spares (if b then m else n)
  Spares-if true m n p q = p
  Spares-if false m n p q = q

  Spares-expire_ids :
      ((id : Text) → Spares (expire_one R O id)) → (ids : List Text) → Spares (expire_ids R O ids)
  unfolding expire_ids
  Spares-expire_ids one [] = Spares-pure tt
  Spares-expire_ids one (id ∷ ids) =
      Spares-bind (expire_one R O id) (λ _. expire_ids R O ids) (one id)
        λ _. Spares-expire_ids one ids

  Spares-scan_pages :
      ((id : Text) → Spares (expire_one R O id))
      → (page : Moment → ℕ → R.State → Result (List Text × ℕ) × R.State) (fuel cursor : ℕ)
      → Spares (scan_pages R O page fuel cursor)
  unfolding scan_pages
  Spares-scan_pages one page zero cursor = Spares-raise Kind.internal
  Spares-scan_pages one page (suc fuel) cursor =
      Spares-bind (ask_tokens R O λ t. page t cursor) _ (Spares-ask_tokens λ t. page t cursor)
        λ (ids, next). Spares-bind (expire_ids R O ids) _ (Spares-expire_ids one ids) λ _.
          Spares-if (next == 0) (pure tt) (scan_pages R O page fuel next) (Spares-pure tt)
            (Spares-scan_pages one page fuel next)

  Spares-forget : (id : Text) (k : Kind) → Spares (expire_found R O id (err k))
  unfolding expire_found
  Spares-forget id k = search spares_rules

-- The clock stands still during a step of the job.
abbrev Still : Env → Type 0
Still e = (t : ℕ) → e.now (suc t) ≤ e.now t

module _ (V : KeyServer) (O : S3Api) (e : Env) (still : Still e) where
  fresh_token :
      (id : Text) (m : PresignMeta) (s : Site (Servers (valkey_registry V) O))
      → is_expired (e.now s.world.tick) m ≡ false
      → let s' = (expire_token (valkey_registry V) O id m e s).1 in
        (s'.servers.objects ≡ s.servers.objects) × (s'.world.committed ≡ s.world.committed)
  unfolding expire_token draw_now
  fresh_token id m s early = rw early (refl, refl)

  found_fresh :
      (id : Text) (r : Result PresignMeta) (s : Site (Servers (valkey_registry V) O))
      → ((m : PresignMeta) → r ≡ ok m → is_expired (e.now s.world.tick) m ≡ false)
      → let s' = (expire_found (valkey_registry V) O id r e s).1 in
        (s'.servers.objects ≡ s.servers.objects) × (s'.world.committed ≡ s.world.committed)
  unfolding expire_found
  found_fresh id (err k) s early = (Spares-forget (valkey_registry V) O e id k).at_site s
  found_fresh id (ok m) s early = fresh_token id m s (early m refl)

  still_fresh :
      (t : ℕ) (m : PresignMeta)
      → is_expired (e.now t) m ≡ false
      → is_expired (e.now (suc t)) m ≡ false
  still_fresh t m early = ground (arith, still t)

  Spares-expire_one :
      (id : Text) → Spares (valkey_registry V) O e (expire_one (valkey_registry V) O id)
  unfolding expire_one valkey_registry
  Spares-expire_one id = record {
    at_site = λ s.
        let t = at e s.world in
        let v = (ask_tokens (valkey_registry V) O (λ t. get V t id) e s).1 in
        found_fresh id (get V t id s.servers.tokens).0 v
          λ m got. still_fresh s.world.tick m (get-fresh V t id s.servers.tokens m got);
  }

  -- The job that expires uploads, over the registry on a key server and at a clock that does not go
  -- forward during the run, deletes no object and records no garbage, whatever the registry holds and
  -- the server answers: the objects and the committed tables are what they were.
  pub expire_uploads-spares :
      (fuel : ℕ) (s : Site (Servers (valkey_registry V) O))
      → let s' = (expire_uploads (valkey_registry V) O fuel e s).1 in
        (s'.servers.objects ≡ s.servers.objects) × (s'.world.committed ≡ s.world.committed)
  unfolding expire_uploads valkey_registry
  expire_uploads-spares fuel s =
      (Spares-scan_pages (valkey_registry V) O e Spares-expire_one (scan_page V) fuel 0).at_site s
