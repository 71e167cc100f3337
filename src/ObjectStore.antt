-- ===== src/ObjectStore.antt =====
-- objectstore/minio.go and objectstore/objectstore.go: the object store. github.com/minio/minio-go is
-- not part of the repository: a parameter of the model.
use aisphere_kit.Base.{
  Text, codes, Bool, true, false, ◌&&◌, ◌||◌, not, List, [], ◌∷◌, ◌++◌, Option, none, some, Result,
  ok, err, Io, pure, fail, lift, ◌>>=◌, ◌>>◌, and_then, Error, plain, wrapped, is_empty,
  if◌then◌else◌, ◌==◌, length, leb, ltb, ℕ,
}
use aisphere_kit.Base.Search.{quoted}
use aisphere_kit.Base.Clock.{ℤ, pos, negsuc, Time, not_positive}
use aisphere_kit.Base.Int64.{plus, wrap64}
use aisphere_kit.Context.{Context}
mod Tests
pub mod Listing
pub mod Buckets
pub mod Opening

pub record MinioConfig : Type 0 where
  pub provider : Text
  pub endpoint : Text
  pub access_key : Text
  pub secret_key : Text
  pub session_token : Text
  pub bucket : Text
  pub region : Text
  pub use_ssl : Bool
  pub auto_create_bucket : Bool

pub record ObjectInfo : Type 0 where
  pub bucket : Text
  pub key : Text
  pub size : ℤ
  pub etag : Text
  pub content_type : Text
  pub last_modified : Time

-- PutOptions, whose field SSE nothing reads.
pub record PutOptions : Type 0 where
  pub content_type : Text
  pub metadata : List (Text × Text)
  pub cache_control : Text

pub record GetOptions : Type 0 where
  pub offset : ℤ
  pub length : ℤ

pub record ListOptions : Type 0 where
  pub prefix : Text
  pub recursive : Bool
  pub limit : ℤ

-- minio.UploadInfo and minio.ObjectInfo, as far as the package reads them.
pub record UploadInfo : Type 0 where
  pub bucket : Text
  pub key : Text
  pub size : ℤ
  pub etag : Text

pub record Stat : Type 0 where
  pub key : Text
  pub size : ℤ
  pub etag : Text
  pub content_type : Text
  pub last_modified : Time

-- `C` is the type of a *minio.Client, `B` that of a body, `O` that of minio.GetObjectOptions, `D` that
-- of a *minio.Object and `U` that of a *url.URL. `list_objects` answers what comes over the channel.
pub record Library (W C B O D U : Type 0) : Type 0 where
  -- the endpoint, the credentials, Secure and Region
  pub new : Text → Text → Text → Text → Bool → Text → Io W C
  pub bucket_exists : C → Option (Context W) → Text → Io W Bool
  pub make_bucket : C → Option (Context W) → Text → Text → Io W (Unit {0})
  pub put_object : C → Option (Context W) → Text → Text → B → ℤ → PutOptions → Io W UploadInfo
  pub no_options : O
  pub set_range : O → ℤ → ℤ → Result O
  pub get_object : C → Option (Context W) → Text → Text → O → Io W D
  pub stat : D → Io W Stat
  pub close : D → W → Option Error × W
  pub remove_object : C → Option (Context W) → Text → Text → Io W (Unit {0})
  pub stat_object : C → Option (Context W) → Text → Text → Io W Stat
  pub list_objects : C → Option (Context W) → Text → Text → Bool → W → List (Result Stat) × W
  pub copy_object :
      C → Option (Context W) → Text → Text → Text → List (Text × Text) → Io W UploadInfo
  pub presigned_put_object : C → Option (Context W) → Text → Text → ℤ → Io W U
  pub presigned_get_object : C → Option (Context W) → Text → Text → ℤ → Io W U

-- MinIOClient, without its logger and its metrics.
pub record MinioClient (C : Type 0) : Type 0 where
  pub cfg : MinioConfig
  pub client : C

abbrev pub uploaded : Text → UploadInfo → ObjectInfo
uploaded content_type i = record {
  bucket = i.bucket;
  key = i.key;
  size = i.size;
  etag = i.etag;
  content_type = content_type;
  last_modified = 0;
}

abbrev pub info_of : Text → Stat → ObjectInfo
info_of bucket s = record {
  bucket = bucket;
  key = s.key;
  size = s.size;
  etag = s.etag;
  content_type = s.content_type;
  last_modified = s.last_modified;
}

-- The test `limit > 0 && n >= limit`.
abbrev pub is_full : ℤ → ℕ → Bool
is_full (pos m) n = ltb 0 m && leb m n
is_full (negsuc m) n = false

-- The loop of ListObjects over the channel.
unfoldable pub collect : Text → ℤ → List ObjectInfo → List (Result Stat) → Result (List ObjectInfo)
collect bucket limit items [] = ok items
collect bucket limit items (err e ∷ rest) = err e
collect bucket limit items (ok s ∷ rest) =
    let more = items ++ (info_of bucket s ∷ []) in
    let others = collect bucket limit more rest in
    if is_full limit (length more) then ok more else others

-- The checks that NewMinIO makes before it does anything.
unfoldable pub settings_ok : MinioConfig → Result (Unit {0})
settings_ok cfg =
    if not (is_empty cfg.provider) && not (cfg.provider == codes "minio")
    then err (plain (codes "unsupported objectstore provider " ++ quoted cfg.provider))
    else if is_empty cfg.endpoint
        || is_empty cfg.access_key
        || is_empty cfg.secret_key
        || is_empty cfg.bucket
    then err (plain (codes "endpoint/access_key/secret_key/bucket are required"))
    else ok tt

module _ {W C B O D U : Type 0} (library : Library W C B O D U) where
  -- The range of a GetObject: bytes by their first and last, or what follows the offset.
  unfoldable pub get_range : GetOptions → Result O
  get_range opts =
      if not (not_positive opts.length)
      then library.set_range library.no_options opts.offset
          (wrap64 (plus (wrap64 (plus opts.offset opts.length)) (negsuc 0)))
      else if not (not_positive opts.offset)
      then library.set_range library.no_options opts.offset (pos 0)
      else ok library.no_options

  abbrev pub checked_bucket : Text → Result Bool × W → Result Bool × W
  checked_bucket bucket (ok b, w) = (ok b, w)
  checked_bucket bucket (err e, w) =
      (err (wrapped (codes "check bucket " ++ (bucket ++ codes ": ")) e []), w)

  unfoldable pub bucket_exists : MinioClient C → Option (Context W) → Io W Bool
  bucket_exists m ctx w =
      checked_bucket m.cfg.bucket (library.bucket_exists m.client ctx m.cfg.bucket w)

  abbrev pub made_bucket : Text → Result (Unit {0}) × W → Result (Unit {0}) × W
  made_bucket bucket (ok u, w) = (ok tt, w)
  made_bucket bucket (err e, w) =
      (err (wrapped (codes "make bucket " ++ (bucket ++ codes ": ")) e []), w)

  abbrev pub make_missing : MinioClient C → Option (Context W) → Bool → Io W (Unit {0})
  make_missing m ctx true w = (ok tt, w)
  make_missing m ctx false w =
      made_bucket m.cfg.bucket (library.make_bucket m.client ctx m.cfg.bucket m.cfg.region w)

  unfoldable pub ensure_bucket : MinioClient C → Option (Context W) → Io W (Unit {0})
  unfolding bucket_exists
  ensure_bucket m ctx = bucket_exists m ctx >>= make_missing m ctx

  abbrev pub created : MinioConfig → Result C × W → Result (MinioClient C) × W
  created cfg (ok c, w) = (ok (record { cfg = cfg; client = c }), w)
  created cfg (err e, w) = (err (wrapped (codes "new minio: ") e []), w)

  abbrev pub ensure_wanted : MinioClient C → Option (Context W) → Bool → Io W (MinioClient C)
  ensure_wanted m ctx there w =
      if not there && m.cfg.auto_create_bucket then (ensure_bucket m ctx >> pure m) w else (ok m, w)

  abbrev pub with_bucket : Option (Context W) → MinioClient C → Io W (MinioClient C)
  with_bucket ctx m = bucket_exists m ctx >>= ensure_wanted m ctx

  abbrev pub create : Option (Context W) → MinioConfig → Io W (MinioClient C)
  create ctx cfg w = and_then (with_bucket ctx) (
      created cfg (
        library.new cfg.endpoint cfg.access_key cfg.secret_key cfg.session_token cfg.use_ssl
          cfg.region w))

  unfoldable pub new_minio : Option (Context W) → MinioConfig → Io W (MinioClient C)
  unfolding bucket_exists ensure_bucket settings_ok
  new_minio ctx cfg = lift (settings_ok cfg) >> create ctx cfg

  unfoldable pub put_object :
      MinioClient C → Option (Context W) → Text → B → ℤ → PutOptions → Io W ObjectInfo
  put_object m ctx key body size opts =
      library.put_object m.client ctx m.cfg.bucket key body size opts
      >>= (λ i. pure (uploaded opts.content_type i))

  -- `_ = obj.Close()` where Stat fails.
  abbrev pub opened : Text → D → Result Stat × W → Result (D × ObjectInfo) × W
  opened bucket d (ok s, w) = (ok (d, info_of bucket s), w)
  opened bucket d (err e, w) = (err e, (library.close d w).1)

  unfoldable pub get_object :
      MinioClient C → Option (Context W) → Text → GetOptions → Io W (D × ObjectInfo)
  unfolding get_range
  get_object m ctx key opts =
      lift (get_range opts)
      >>= library.get_object m.client ctx m.cfg.bucket key
      >>= (λ d w. opened m.cfg.bucket d (library.stat d w))

  unfoldable pub delete_object : MinioClient C → Option (Context W) → Text → Io W (Unit {0})
  delete_object m ctx key = library.remove_object m.client ctx m.cfg.bucket key

  unfoldable pub stat_object : MinioClient C → Option (Context W) → Text → Io W ObjectInfo
  stat_object m ctx key =
      library.stat_object m.client ctx m.cfg.bucket key >>= (λ s. pure (info_of m.cfg.bucket s))

  abbrev pub collected : Text → ℤ → List (Result Stat) × W → Result (List ObjectInfo) × W
  collected bucket limit (entries, w) = (collect bucket limit [] entries, w)

  unfoldable pub list_objects :
      MinioClient C → Option (Context W) → ListOptions → Io W (List ObjectInfo)
  unfolding collect
  list_objects m ctx opts w =
      collected m.cfg.bucket opts.limit
        (library.list_objects m.client ctx m.cfg.bucket opts.prefix opts.recursive w)

  -- The size and the tag are those of the answer, the bucket is the client's.
  unfoldable pub copy_object :
      MinioClient C → Option (Context W) → Text → Text → PutOptions → Io W ObjectInfo
  copy_object m ctx source target opts =
      library.copy_object m.client ctx m.cfg.bucket source target opts.metadata
      >>= (λ i. pure (uploaded [] (record i { bucket = m.cfg.bucket })))

  unfoldable pub presign_put : MinioClient C → Option (Context W) → Text → ℤ → Io W U
  presign_put m ctx key ttl = library.presigned_put_object m.client ctx m.cfg.bucket key ttl

  unfoldable pub presign_get : MinioClient C → Option (Context W) → Text → ℤ → Io W U
  presign_get m ctx key ttl = library.presigned_get_object m.client ctx m.cfg.bucket key ttl
