-- ===== src/ObjectStore/Opening.antt =====
-- objectstore/minio.go: the object store is opened when its settings are right and the server answers.
use aisphere_kit.Base.{
  Text, Bool, true, false, not, ◌&&◌, Option, Result, ok, err, pure, Succeeds, is_ok, and_then,
  and_then-Succeeds, if_cases, ◌≡◌, refl, arith,
}
use aisphere_kit.Context.{Context}
use aisphere_kit.ObjectStore.{
  MinioConfig, Library, MinioClient, checked_bucket, bucket_exists, made_bucket, make_missing,
  ensure_bucket, created, ensure_wanted, with_bucket, create, settings_ok, new_minio,
}

module _ {W C B O D U : Type 0} (library : Library W C B O D U) where
  -- The object store of these settings can be reached, and makes the bucket where the settings ask for
  -- that.
  pub record StoreAnswers (ctx : Option (Context W)) (cfg : MinioConfig) : Type 0 where
    pub opens :
        (w : W)
        → Succeeds (
            library.new cfg.endpoint cfg.access_key cfg.secret_key cfg.session_token cfg.use_ssl
              cfg.region w)
    pub exists : (c : C) (w : W) → Succeeds (library.bucket_exists c ctx cfg.bucket w)
    pub makes :
        cfg.auto_create_bucket ≡ true
        → (c : C) (w : W) → Succeeds (library.make_bucket c ctx cfg.bucket cfg.region w)

  module _ (ctx : Option (Context W)) (cfg : MinioConfig) (answers : StoreAnswers ctx cfg) where
    abbrev client_of : C → MinioClient C
    client_of c = record { cfg = cfg; client = c }

    checked_bucket-Succeeds :
        (bucket : Text) (r : Result Bool × W)
        → Succeeds r
        → Succeeds (checked_bucket library bucket r)
    checked_bucket-Succeeds bucket (ok b, w) h = refl
    checked_bucket-Succeeds bucket (err e, w) h = absurd (ground arith)

    made_bucket-Succeeds :
        (bucket : Text) (r : Result (Unit {0}) × W)
        → Succeeds r
        → Succeeds (made_bucket library bucket r)
    made_bucket-Succeeds bucket (ok u, w) h = refl
    made_bucket-Succeeds bucket (err e, w) h = absurd (ground arith)

    bucket_exists-Succeeds : (c : C) (w : W) → Succeeds (bucket_exists library (client_of c) ctx w)
    unfolding bucket_exists
    bucket_exists-Succeeds c w = checked_bucket-Succeeds cfg.bucket _ (answers.exists c w)

    ensure_bucket-Succeeds :
        cfg.auto_create_bucket ≡ true
        → (c : C) (w : W) → Succeeds (ensure_bucket library (client_of c) ctx w)
    unfolding ensure_bucket
    ensure_bucket-Succeeds auto c w =
        and_then-Succeeds (bucket_exists library (client_of c) ctx w)
          (make_missing library (client_of c) ctx) (bucket_exists-Succeeds c w) missing
      where
        missing : (there : Bool) (v : W) → Succeeds (make_missing library (client_of c) ctx there v)
        missing true v = refl
        missing false v = made_bucket-Succeeds cfg.bucket _ (answers.makes auto c v)

    wanted : (a b : Bool) → a && b ≡ true → b ≡ true
    wanted a b h = ground arith

    ensure_wanted-Succeeds :
        (c : C) (there : Bool) (w : W) → Succeeds (ensure_wanted library (client_of c) ctx there w)
    ensure_wanted-Succeeds c there w =
        if_cases (λ (r : Result (MinioClient C) × W). Succeeds r)
          (not there && cfg.auto_create_bucket) _ (ok (client_of c), w)
          (λ e.
            and_then-Succeeds (ensure_bucket library (client_of c) ctx w) (λ u. pure (client_of c))
              (ensure_bucket-Succeeds (wanted _ _ e) c w) (λ u v. refl))
          (λ e. refl)

    with_bucket-Succeeds : (c : C) (w : W) → Succeeds (with_bucket library ctx (client_of c) w)
    with_bucket-Succeeds c w =
        and_then-Succeeds (bucket_exists library (client_of c) ctx w)
          (ensure_wanted library (client_of c) ctx) (bucket_exists-Succeeds c w)
          (ensure_wanted-Succeeds c)

    created-Succeeds :
        (r : Result C × W)
        → Succeeds r
        → Succeeds (and_then (with_bucket library ctx) (created library cfg r))
    created-Succeeds (ok c, w) h = with_bucket-Succeeds c w
    created-Succeeds (err e, w) h = absurd (ground arith)

    -- NewMinIO succeeds when its checks of the settings pass and the server answers.
    pub new_minio-Succeeds :
        (w : W) → is_ok (settings_ok cfg) ≡ true → Succeeds (new_minio library ctx cfg w)
    unfolding new_minio
    new_minio-Succeeds w h =
        and_then-Succeeds (settings_ok cfg, w) (λ u. create library ctx cfg) h
          (λ u v. created-Succeeds _ (answers.opens v))
