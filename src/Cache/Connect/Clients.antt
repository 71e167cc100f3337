-- ===== src/Cache/Connect/Clients.antt =====
-- cache/redis.go: a client that does not answer is closed again.
use aisphere_kit.Base.{
  codes, Option, Result, ok, err, OneMore, fail, plain, is_empty, if_either, ◌==◌, ◌≡◌, refl, ◌∙◌,
  ℕ, suc,
}
use aisphere_kit.Context.{Context}
use aisphere_kit.Cache.Connect.{
  RedisConfig, ClientOptions, ClusterOptions, Dialer, RedisRuntime, mode_of, client_options,
  cluster_options, after_ping, pinged, new_redis,
}

module _ {W C : Type 0} (dialer : Dialer W C) (live : W → ℕ) where
  -- `live` counts the clients that are not closed, perhaps among other things. A constructor makes
  -- one more, Close closes one, whatever it answers, and a ping does neither.
  pub record ClientCount : Type 0 where
    pub client_opens : (o : ClientOptions) (w : W) → live (dialer.new_client o w).1 ≡ suc (live w)
    pub cluster_opens :
        (o : ClusterOptions) (w : W) → live (dialer.new_cluster_client o w).1 ≡ suc (live w)
    pub ping_keeps :
        (c : C) (ctx : Option (Context W)) (w : W) → live (dialer.ping c ctx w).1 ≡ live w
    pub close_closes : (c : C) (w : W) (n : ℕ) → live w ≡ suc n → live (dialer.close c w).1 ≡ n

  module _ (count : ClientCount) where
    after_ping-OneMore :
        (cfg : RedisConfig) (c : C) (r : Result (Unit {0}) × W) (n : ℕ)
        → live r.1 ≡ suc n
        → OneMore live n (after_ping dialer cfg c r)
    after_ping-OneMore cfg c (ok u, w) n h = h
    after_ping-OneMore cfg c (err e, w) n h = count.close_closes c w n h

    pinged-OneMore :
        (ctx : Option (Context W)) (cfg : RedisConfig) (r : C × W) (n : ℕ)
        → live r.1 ≡ suc n
        → OneMore live n (pinged dialer ctx cfg r)
    pinged-OneMore ctx cfg (c, w) n h = after_ping-OneMore cfg c _ n (count.ping_keeps c ctx w ∙ h)

    -- NewRedis leaves exactly one client more open than before when it succeeds, and no more than before
    -- when it fails: a client that does not answer its first ping is closed again.
    pub new_redis-OneMore :
        (ctx : Option (Context W)) (cfg : RedisConfig) (w : W)
        → OneMore live (live w) (new_redis dialer ctx cfg w)
    unfolding new_redis
    new_redis-OneMore ctx cfg w =
        let P : (W → Result (RedisRuntime C) × W) → Type 0 = λ m. OneMore live (live w) (m w) in
        if_either P (mode_of cfg == codes "single") _ _
          (if_either P (is_empty cfg.addr) (fail (plain (codes "redis.addr is required"))) _ refl (
            pinged-OneMore ctx cfg (dialer.new_client (client_options dialer cfg) w) (live w)
              (count.client_opens _ w)))
          (if_either P (mode_of cfg == codes "cluster") _
            (fail (plain (codes "redis.mode only supports single or cluster")))
            (if_either P (is_empty cfg.addrs)
              (fail (plain (codes "redis.addrs is required for cluster"))) _ refl
              (pinged-OneMore ctx cfg (dialer.new_cluster_client (cluster_options dialer cfg) w)
                (live w) (count.cluster_opens _ w)))
            refl)
