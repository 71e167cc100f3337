-- ===== src/ObjectStore/Buckets.antt =====
-- objectstore/minio.go: after NewMinIO and EnsureBucket the bucket is there.
use aisphere_kit.Base.{
  Text, Bool, true, false, Option, Result, ok, err, pure, and_then-ok, pure-injective, if_true, ◌≡◌,
  sym, ap, ◌∙◌, arith,
}
use aisphere_kit.Context.{Context}
use aisphere_kit.ObjectStore.{
  MinioConfig, Library, MinioClient, checked_bucket, bucket_exists, made_bucket, make_missing,
  ensure_bucket, created, ensure_wanted, with_bucket, create, settings_ok, new_minio,
}

module _ {W C B O D U : Type 0} (library : Library W C B O D U) where
  -- The buckets that there are, for any client: BucketExists says whether the bucket is there and leaves
  -- it so, and after a MakeBucket that succeeds it is there.
  pub record BucketLaws : Type 0 where
    pub has : W → Text → Bool
    pub exists_says :
        (c : C) (ctx : Option (Context W)) (name : Text) (w w' : W) (b : Bool)
        → library.bucket_exists c ctx name w ≡ (ok b, w')
        → has w' name ≡ b
    pub make_makes :
        (c : C) (ctx : Option (Context W)) (name region : Text) (w w' : W)
        → library.make_bucket c ctx name region w ≡ (ok tt, w')
        → has w' name ≡ true

  module _ (laws : BucketLaws) where
    open laws use {has}

    checked_bucket-ok :
        (name : Text) (r : Result Bool × W) (b : Bool) (w' : W)
        → checked_bucket library name r ≡ (ok b, w')
        → r ≡ (ok b, w')
    checked_bucket-ok name (ok c, w) b w' h = h
    checked_bucket-ok name (err e, w) b w' h = absurd (ground arith)

    made_bucket-ok :
        (name : Text) (r : Result (Unit {0}) × W) (w' : W)
        → made_bucket library name r ≡ (ok tt, w')
        → r ≡ (ok tt, w')
    made_bucket-ok name (ok tt, w) w' h = h
    made_bucket-ok name (err e, w) w' h = absurd (ground arith)

    bucket_exists-has :
        (m : MinioClient C) (ctx : Option (Context W)) (w w' : W) (b : Bool)
        → bucket_exists library m ctx w ≡ (ok b, w')
        → has w' m.cfg.bucket ≡ b
    unfolding bucket_exists
    bucket_exists-has m ctx w w' b h =
        laws.exists_says m.client ctx m.cfg.bucket w w' b (checked_bucket-ok m.cfg.bucket _ b w' h)

    make_missing-has :
        (m : MinioClient C) (ctx : Option (Context W)) (b : Bool) (w w' : W)
        → has w m.cfg.bucket ≡ b
        → make_missing library m ctx b w ≡ (ok tt, w')
        → has w' m.cfg.bucket ≡ true
    make_missing-has m ctx true w w' e h = rw (sym (ap (λ r. r.1) h)) e
    make_missing-has m ctx false w w' e h =
        laws.make_makes m.client ctx m.cfg.bucket m.cfg.region w w'
          (made_bucket-ok m.cfg.bucket _ w' h)

    -- When EnsureBucket succeeds, the bucket exists.
    pub ensure_bucket-has :
        (m : MinioClient C) (ctx : Option (Context W)) (w w' : W)
        → ensure_bucket library m ctx w ≡ (ok tt, w')
        → has w' m.cfg.bucket ≡ true
    unfolding ensure_bucket
    ensure_bucket-has m ctx w w' h =
        let (b, v, e, n) =
          and_then-ok (make_missing library m ctx) (bucket_exists library m ctx w) tt w' h in
        make_missing-has m ctx b v w' (bucket_exists-has m ctx w v b e) n

    ensure_wanted-has :
        (m n : MinioClient C) (ctx : Option (Context W)) (b : Bool) (w w' : W)
        → m.cfg.auto_create_bucket ≡ true
        → has w m.cfg.bucket ≡ b
        → ensure_wanted library m ctx b w ≡ (ok n, w')
        → has w' m.cfg.bucket ≡ true
    ensure_wanted-has m n ctx true w w' a e h = rw (sym (ap (λ r. r.1) h)) e
    ensure_wanted-has m n ctx false w w' a e h =
        let (u, v, made, k) =
          and_then-ok (λ _. pure m) (ensure_bucket library m ctx w) n w'
            (if_true m.cfg.auto_create_bucket _ (ok m, w) _ a h) in
        rw (sym (ap (λ r. r.1) k)) (ensure_bucket-has m ctx w v made)

    with_bucket-has :
        (m n : MinioClient C) (ctx : Option (Context W)) (w w' : W)
        → m.cfg.auto_create_bucket ≡ true
        → with_bucket library ctx m w ≡ (ok n, w')
        → has w' m.cfg.bucket ≡ true
    with_bucket-has m n ctx w w' a h =
        let (b, v, e, k) =
          and_then-ok (ensure_wanted library m ctx) (bucket_exists library m ctx w) n w' h in
        ensure_wanted-has m n ctx b v w' a (bucket_exists-has m ctx w v b e) k

    created-ok :
        (cfg : MinioConfig) (r : Result C × W) (m : MinioClient C) (w' : W)
        → created library cfg r ≡ (ok m, w')
        → cfg ≡ m.cfg
    created-ok cfg (ok c, w) m w' h =
        let n : MinioClient C = record { cfg = cfg; client = c } in
        ap (λ (x : MinioClient C). x.cfg) (pure-injective n m w w' h)
    created-ok cfg (err e, w) m w' h = absurd (ground arith)

    create-has :
        (ctx : Option (Context W)) (cfg : MinioConfig) (m : MinioClient C) (w w' : W)
        → cfg.auto_create_bucket ≡ true
        → create library ctx cfg w ≡ (ok m, w')
        → has w' cfg.bucket ≡ true
    create-has ctx cfg m w w' a h =
        let opened =
          library.new cfg.endpoint cfg.access_key cfg.secret_key cfg.session_token cfg.use_ssl
            cfg.region w in
        let (n, v, made, k) =
          and_then-ok (with_bucket library ctx) (created library cfg opened) m w' h in
        let same = created-ok cfg opened n v made in
        rw same (
          with_bucket-has n m ctx v w'
            (ap (λ (c : MinioConfig). c.auto_create_bucket) (sym same) ∙ a) k)

    -- When NewMinIO succeeds with auto_create_bucket, the bucket of the settings exists, whether it was
    -- there before or not.
    pub new_minio-has :
        (ctx : Option (Context W)) (cfg : MinioConfig) (m : MinioClient C) (w w' : W)
        → cfg.auto_create_bucket ≡ true
        → new_minio library ctx cfg w ≡ (ok m, w')
        → has w' cfg.bucket ≡ true
    unfolding new_minio
    new_minio-has ctx cfg m w w' a h =
        let (u, v, checked, k) =
          and_then-ok (λ _. create library ctx cfg) (settings_ok cfg, w) m w' h in
        create-has ctx cfg m v w' a k
