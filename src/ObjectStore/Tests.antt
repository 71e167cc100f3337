-- ===== src/ObjectStore/Tests.antt =====
-- objectstore/minio.go: the theorems at concrete inputs.
use aisphere_kit.Base.{
  Bool, true, false, [], ◌∷◌, List, none, Result, ok, err, plain, ◌≡◌, refl, ap, sym, ◌∙◌,
  pure-injective,
}
use aisphere_kit.Base.Clock.{pos}
use aisphere_kit.ObjectStore.{
  MinioConfig, Library, Stat, collect, new_minio, settings_ok, bucket_exists, ensure_bucket,
}
use aisphere_kit.ObjectStore.Listing.{infos, let_through, collect_lem}
use aisphere_kit.ObjectStore.Buckets.{BucketLaws, new_minio-has}
use aisphere_kit.Samples.{al, doc, user}

abbrev stat : Stat
stat = record { key = doc; size = pos 3; etag = al; content_type = []; last_modified = 7 }

abbrev entries : List (Result Stat)
entries = ok stat ∷ ok stat ∷ err (plain al) ∷ []

collect_lem_example : collect user (pos 2) [] entries ≡ infos user (let_through (pos 2) entries)
collect_lem_example = collect_lem user (pos 2) entries

abbrev T : Type 0
T = Unit {0}

-- The world says whether there is a bucket, and all names are names of it.
abbrev library : Library Bool T T T T T
library = record {
  new = λ endpoint access secret token ssl region w. (ok tt, w);
  bucket_exists = λ c ctx bucket w. (ok w, w);
  make_bucket = λ c ctx bucket region w. (ok tt, true);
  put_object = λ c ctx bucket key body size o w. (err (plain []), w);
  no_options = tt;
  set_range = λ o a b. ok tt;
  get_object = λ c ctx bucket key o w. (ok tt, w);
  stat = λ d w. (err (plain []), w);
  close = λ d w. (none, w);
  remove_object = λ c ctx bucket key w. (ok tt, w);
  stat_object = λ c ctx bucket key w. (err (plain []), w);
  list_objects = λ c ctx bucket prefix recursive w. ([], w);
  copy_object = λ c ctx bucket a b m w. (err (plain []), w);
  presigned_put_object = λ c ctx bucket key ttl w. (ok tt, w);
  presigned_get_object = λ c ctx bucket key ttl w. (ok tt, w);
}

abbrev laws : BucketLaws library
laws = record {
  has = λ w name. w;
  exists_says = λ c ctx name w w' b h. sym (ap (λ r. r.1) h) ∙ pure-injective w b w w' h;
  make_makes = λ c ctx name region w w' h. sym (ap (λ r. r.1) h);
}

abbrev cfg : MinioConfig
cfg = record {
  provider = [];
  endpoint = al;
  access_key = al;
  secret_key = al;
  session_token = [];
  bucket = doc;
  region = [];
  use_ssl = false;
  auto_create_bucket = true;
}

made : new_minio library none cfg false ≡ (ok (record { cfg = cfg; client = tt }), true)
unfolding new_minio settings_ok bucket_exists ensure_bucket
made = refl

new_minio-has_example : laws.has true doc ≡ true
new_minio-has_example =
    new_minio-has library laws none cfg (record { cfg = cfg; client = tt }) false true refl made
