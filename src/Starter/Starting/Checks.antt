-- ===== src/Starter/Starting/Checks.antt =====
-- config/config.go: what Validate checks is what the constructors of the parts check.
use aisphere_kit.Base.{
  Text, codes, Bool, true, false, not, ◌&&◌, ◌||◌, ◌==◌, [], ◌∷◌, ◌++◌, List, Option, Result, ok,
  err, wrapped, trim_space, plain, pure, Succeeds, is_ok, and_then, is_empty, if◌then◌else◌, IsNil,
  ◌≡◌, refl, sym, ◌∙◌, ap, arith,
}
use aisphere_kit.Base.Search.{quoted}
use aisphere_kit.Context.{Context}
use aisphere_kit.Cache.Connect.{
  RedisConfig, Dialer, after_ping, pinged, new_redis, client_options, cluster_options,
}
use aisphere_kit.ObjectStore
use aisphere_kit.Casdoor.Settings
use aisphere_kit.Casdoor.Certificate
use aisphere_kit.Config.Validate.{
  redis_problems, store_problems, problem_if, problem_in, certificate_problems,
}

-- What a check found nothing about.
pub passed : (b : Bool) (m : Text) → IsNil (problem_if b m) → b ≡ false
passed true m h = absurd (ground arith)
passed false m h = refl

pub both-IsNil : {A : Type 0} (xs ys : List A) → IsNil (xs ++ ys) → IsNil xs × IsNil ys
both-IsNil [] ys h = (refl, h)
both-IsNil (x ∷ xs) ys h = absurd (ground arith)

module _ {W C : Type 0} (dialer : Dialer W C) (ctx : Option (Context W)) where
  -- The server of these settings answers the first ping of the client that is made for it.
  abbrev pub Answers : C × W → Type 0
  Answers (c, w) = Succeeds (dialer.ping c ctx w)

  pub record RedisAnswers (cfg : RedisConfig) : Type 0 where
    pub single :
        is_empty cfg.mode || cfg.mode == codes "single" ≡ true
        → (w : W) → Answers (dialer.new_client (client_options dialer cfg) w)
    pub cluster :
        (cfg.mode == codes "cluster") ≡ true
        → (w : W) → Answers (dialer.new_cluster_client (cluster_options dialer cfg) w)

  after_ping-Succeeds :
      (cfg : RedisConfig) (c : C) (r : Result (Unit {0}) × W)
      → Succeeds r
      → Succeeds (after_ping dialer cfg c r)
  after_ping-Succeeds cfg c (ok u, w) h = refl
  after_ping-Succeeds cfg c (err e, w) h = absurd (ground arith)

  pinged-Succeeds : (cfg : RedisConfig) (r : C × W) → Answers r → Succeeds (pinged dialer ctx cfg r)
  pinged-Succeeds cfg (c, w) h = after_ping-Succeeds cfg c _ h

  -- The settings, by what the mode of them is.
  opened :
      (cfg : RedisConfig) (answers : RedisAnswers cfg) (w : W) (e s c : Bool)
      → is_empty cfg.mode ≡ e
      → (cfg.mode == codes "single") ≡ s
      → (cfg.mode == codes "cluster") ≡ c
      → IsNil (redis_problems cfg)
      → Succeeds (new_redis dialer ctx cfg w)
  unfolding new_redis ◌==◌ codes
  opened cfg answers w true s c he hs hc h =
      let given = passed (is_empty cfg.addr) _ (rw he at h) in
      let up = answers.single (rw he refl) w in
      rw (he, given) (pinged-Succeeds cfg (dialer.new_client (client_options dialer cfg) w) up)
  opened cfg answers w false true c he hs hc h =
      let given = passed (is_empty cfg.addr) _ (rw (he, hs) at h) in
      let up = answers.single (rw (he, hs) refl) w in
      rw (he, hs, given) (pinged-Succeeds cfg (dialer.new_client (client_options dialer cfg) w) up)
  opened cfg answers w false false true he hs hc h =
      let given = passed (is_empty cfg.addrs) _ (rw (he, hs, hc) at h) in
      rw (he, hs, hc, given)
        (pinged-Succeeds cfg (dialer.new_cluster_client (cluster_options dialer cfg) w)
          (answers.cluster hc w))
  opened cfg answers w false false false he hs hc h =
      let k : IsNil (plain (codes "redis.mode only supports single or cluster") ∷ []) =
        rw (he, hs, hc) at h in
      absurd (ground arith)

  -- NewRedis succeeds with settings that Validate finds nothing wrong with, when the server answers.
  pub new_redis-Succeeds :
      (cfg : RedisConfig) (answers : RedisAnswers cfg) (w : W)
      → IsNil (redis_problems cfg)
      → Succeeds (new_redis dialer ctx cfg w)
  new_redis-Succeeds cfg answers w h = opened cfg answers w _ _ _ refl refl refl h

all_given : (a b c d : Bool) → a || d ≡ false → b || c ≡ false → a || b || c || d ≡ false
all_given a b c d h k = ground arith

-- NewMinIO checks what Validate checks, and the two keys.
pub settings_ok-valid :
    (cfg : ObjectStore.MinioConfig)
    → IsNil (store_problems cfg)
    → is_empty cfg.access_key || is_empty cfg.secret_key ≡ false
    → is_ok (ObjectStore.settings_ok cfg) ≡ true
unfolding ObjectStore.settings_ok
settings_ok-valid cfg h keys =
    let (provider, rest) = both-IsNil _ _ h in
    let known =
      passed (not (is_empty cfg.provider) && not (cfg.provider == codes "minio")) _ provider in
    let given = passed (is_empty cfg.endpoint || is_empty cfg.bucket) _ rest in
    rw
      (
        known,
        all_given (is_empty cfg.endpoint) (is_empty cfg.access_key) (is_empty cfg.secret_key)
            (is_empty cfg.bucket) given keys,
      )
      refl

first_of_if :
    {A B : Type 0} (b : Bool) (x y : A × B) (p q : A)
    → x.0 ≡ p
    → y.0 ≡ q
    → (if b then x else y).0 ≡ (if b then p else q)
first_of_if true x y p q hx hy = hx
first_of_if false x y p q hx hy = hy

module _ {W X : Type 0} (crypto : Certificate.Crypto W X) where
  -- What the certificate file says does not depend on when it is read.
  abbrev pub SameFile : Settings.Config → Type 0
  SameFile c =
      (w v : W)
      → (crypto.read_file (trim_space c.certificate_file) w).0
        ≡ (crypto.read_file (trim_space c.certificate_file) v).0

  abbrev read_text : Text → Result Text → Result Text
  read_text file (ok b) = ok (trim_space b)
  read_text file (err e) =
      err (wrapped (codes "read casdoor.certificate_file " ++ (quoted file ++ codes ": ")) e [])

  file_text-read :
      (file : Text) (r : Result Text × W)
      → (Certificate.file_text crypto file r).0 ≡ read_text file r.0
  file_text-read file (ok b, w) = refl
  file_text-read file (err e, w) = refl

  abbrev then_usable : Result Text → Result Text
  then_usable (ok text) = Certificate.usable crypto (Certificate.normalize_pem_text text)
  then_usable (err e) = err e

  and_then-usable :
      (r : Result Text × W)
      → (and_then
          (λ text w. (Certificate.usable crypto (Certificate.normalize_pem_text text), w))
          r).0
        ≡ then_usable r.0
  and_then-usable (ok text, w) = refl
  and_then-usable (err e, w) = refl

  -- What the settings say of the certificate, if the file of it says `read`.
  abbrev text_by : Settings.Config → Result Text → Result Text
  text_by c read =
      if is_empty (trim_space c.certificate) && not (is_empty (trim_space c.certificate_file))
      then read_text c.certificate_file read
      else ok (trim_space c.certificate)

  certificate_text-by :
      (c : Settings.Config) (w : W)
      → (Certificate.certificate_text crypto c w).0
        ≡ text_by c (crypto.read_file (trim_space c.certificate_file) w).0
  certificate_text-by c w =
      first_of_if
        (is_empty (trim_space c.certificate) && not (is_empty (trim_space c.certificate_file))) _ _
        _ _ (file_text-read c.certificate_file (crypto.read_file (trim_space c.certificate_file) w))
        refl

  normalized_certificate-same :
      (c : Settings.Config) (same : SameFile c) (w v : W)
      → (Certificate.normalized_certificate crypto c w).0
        ≡ (Certificate.normalized_certificate crypto c v).0
  unfolding Certificate.normalized_certificate
  normalized_certificate-same c same w v =
      and_then-usable (Certificate.certificate_text crypto c w)
      ∙ ap then_usable
          (certificate_text-by c w ∙ ap (text_by c) (same w v) ∙ sym (certificate_text-by c v))
      ∙ sym (and_then-usable (Certificate.certificate_text crypto c v))

  problem-ok :
      {A : Type 0} (before : Text) (r : Result A × W) → IsNil (problem_in before r.0) → Succeeds r
  problem-ok before (ok a, w) h = refl
  problem-ok before (err e, w) h = absurd (ground arith)

  certified-Succeeds :
      (c : Settings.Config) (r : Result Text × W)
      → Succeeds r
      → Succeeds (and_then (λ cert. pure (Certificate.made crypto c cert)) r)
  certified-Succeeds c (ok cert, w) h = refl
  certified-Succeeds c (err e, w) h = absurd (ground arith)

  -- NewChecked succeeds with a certificate that Validate finds nothing wrong with, as long as its file does
  -- not change.
  pub new_checked-Succeeds :
      (c : Settings.Config) (same : SameFile c) (w v : W)
      → IsNil (
          problem_in
            (codes "casdoor jwt certificate: ")
            (Certificate.normalized_certificate crypto c w).0)
      → Succeeds (Certificate.new_checked crypto c v)
  unfolding Certificate.new_checked Certificate.new_adapter
  new_checked-Succeeds c same w v h =
      certified-Succeeds c (Certificate.normalized_certificate crypto c v) (
        ap is_ok (normalized_certificate-same c same v w)
        ∙ problem-ok (codes "casdoor jwt certificate: ")
            (Certificate.normalized_certificate crypto c w) h)

  pub certificate_problems-first :
      (r : Result Text × W)
      → (certificate_problems crypto r).0 ≡ problem_in (codes "casdoor jwt certificate: ") r.0
  certificate_problems-first (r, w) = refl
