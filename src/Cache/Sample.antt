-- ===== src/Cache/Sample.antt =====
-- A Redis with one key that the tests can set: the world is the value of that key.
use aisphere_kit.Base.{
  Text, Bool, true, false, ◌==◌, eq_sound, ◌∙◌, pure-injective, [], ◌∷◌, Option, none, some, Result,
  ok, err, plain, ◌≡◌, ◌≢◌, refl, sym, ap, arith, if◌then◌else◌, is_none, ℕ,
}
use aisphere_kit.Cache.Redis.{Redis, Server, Store}

module _ (k : Text) where
  abbrev pub one_key : Server (Option Text)
  one_key = record {
    get = λ j w. (if j == k then w else none, w);
    del = λ j w. if j == k then (if is_none w then 0 else 1, none) else (0, w);
    pexpire = λ j n w. (1, w);
  }

  abbrev set_if : Bool → Text → Option Text → Result (Unit {0}) × Option Text
  set_if true v w = (ok tt, some v)
  set_if false v w = (err (plain []), w)

  abbrev set_nx_if : Bool → Text → Option Text → Result Bool × Option Text
  set_nx_if true v none = (ok true, some v)
  set_nx_if true v (some u) = (ok false, some u)
  set_nx_if false v w = (err (plain []), w)

  abbrev get_del_if : Bool → Option Text → Result (Option Text) × Option Text
  get_del_if true w = (ok w, none)
  get_del_if false w = (ok none, w)

  abbrev exists_if : Bool → Option Text → Result ℕ × Option Text
  exists_if true none = (ok 0, none)
  exists_if true (some v) = (ok 1, some v)
  exists_if false w = (ok 0, w)

  -- The source of randomness draws the one byte 7.
  abbrev pub sample_redis : Redis (Option Text)
  sample_redis = record {
    server = one_key;
    set = λ j v ttl w. set_if (j == k) v w;
    set_nx = λ j v ttl w. set_nx_if (j == k) v w;
    get = λ j w. (ok (if j == k then w else none), w);
    get_del = λ j w. get_del_if (j == k) w;
    exists = λ j w. exists_if (j == k) w;
    eval = λ script w. (ok (script w).0, (script w).1);
    random = λ n w. (ok (7 ∷ []), w);
  }

  abbrev pub sample_value : Option Text → Text → Option Text
  sample_value w j = if j == k then w else none

  del_frame_lem :
      (j i : Text) (w : Option Text) (b c : Bool)
      → (j == k) ≡ b
      → (i == k) ≡ c
      → i ≢ j
      → sample_value (one_key.del j w).1 i ≡ sample_value w i
  del_frame_lem j i w true true p q h = absurd (h (eq_sound i k q ∙ sym (eq_sound j k p)))
  del_frame_lem j i w true false p q h = rw (p, q) refl
  del_frame_lem j i w false c p q h = rw p refl

  set_frame_lem :
      (j v i : Text) (w : Option Text) (b c : Bool)
      → (j == k) ≡ b
      → (i == k) ≡ c
      → i ≢ j
      → sample_value (set_if (j == k) v w).1 i ≡ sample_value w i
  set_frame_lem j v i w true true p q h = absurd (h (eq_sound i k q ∙ sym (eq_sound j k p)))
  set_frame_lem j v i w true false p q h = rw (p, q) refl
  set_frame_lem j v i w false c p q h = rw p refl

  del_value_lem :
      (j : Text) (w : Option Text) (b : Bool)
      → (j == k) ≡ b
      → sample_value (one_key.del j w).1 j ≡ none
  del_value_lem j w true p = rw p refl
  del_value_lem j w false p = rw p refl

  del_count_lem :
      (j v : Text) (w : Option Text) (b : Bool)
      → (j == k) ≡ b
      → sample_value w j ≡ some v
      → (one_key.del j w).0 ≡ 1
  del_count_lem j v none true p h = absurd (ground arith)
  del_count_lem j v (some u) true p h = rw p refl
  del_count_lem j v w false p h = absurd (ground arith)

  set_value_lem :
      (j v : Text) (w w' : Option Text) (b : Bool)
      → (j == k) ≡ b
      → set_if (j == k) v w ≡ (ok tt, w')
      → sample_value w' j ≡ some v
  set_value_lem j v w w' true p h = rw p (
      let set : set_if true v w ≡ (ok tt, w') = rw p at h in
      sym (ap (λ (x : Result (Unit {0}) × Option Text). x.1) set))
  set_value_lem j v w w' false p h = absurd (ground arith)

  set_nx_lem :
      (j v : Text) (w w' : Option Text) (b : Bool)
      → (j == k) ≡ b
      → set_nx_if (j == k) v w ≡ (ok true, w')
      → (sample_value w j ≡ none) × (sample_value w' j ≡ some v)
  set_nx_lem j v none w' true p h =
      let e : set_nx_if true v none ≡ (ok true, w') = rw p at h in
      rw p (refl, sym (ap (λ (x : Result Bool × Option Text). x.1) e))
  set_nx_lem j v (some u) w' true p h = absurd (ground arith)
  set_nx_lem j v w w' false p h = absurd (ground arith)

  refuses_lem :
      (j v : Text) (w w' : Option Text) (b : Bool)
      → (j == k) ≡ b
      → set_nx_if (j == k) v w ≡ (ok false, w')
      → (sample_value w j ≢ none) × (sample_value w' j ≡ sample_value w j)
  refuses_lem j v none w' true p h = absurd (ground arith)
  refuses_lem j v (some u) w' true p h =
      let e : set_nx_if true v (some u) ≡ (ok false, w') = rw p at h in
      rw p (ground arith, sym (ap (λ (x : Result Bool × Option Text). x.1) e))
  refuses_lem j v w w' false p h = absurd (ground arith)

  get_del_lem :
      (j : Text) (w w' : Option Text) (o : Option Text) (b : Bool)
      → (j == k) ≡ b
      → get_del_if (j == k) w ≡ (ok o, w')
      → (o ≡ sample_value w j) × (sample_value w' j ≡ none)
  get_del_lem j w w' o true p h =
      let e : get_del_if true w ≡ (ok o, w') = rw p at h in
      rw p (
        pure-injective o w w' none (sym e),
        sym (ap (λ (x : Result (Option Text) × Option Text). x.1) e),
      )
  get_del_lem j w w' o false p h =
      let e : get_del_if false w ≡ (ok o, w') = rw p at h in
      rw p (pure-injective o none w' w (sym e), refl)

  exists_lem :
      (j : Text) (w w' : Option Text) (n : ℕ) (b : Bool)
      → (j == k) ≡ b
      → exists_if (j == k) w ≡ (ok n, w')
      → n ≡ 0
      → sample_value w j ≡ none
  exists_lem j none w' n true p h z = rw p refl
  exists_lem j (some v) w' n true p h z = absurd (ground arith)
  exists_lem j w w' n false p h z = rw p refl

  pub sample_store : Store sample_redis
  sample_store = record {
    value = sample_value;
    get_value = λ j w. refl;
    del_value = λ j w. del_value_lem j w _ refl;
    del_count = λ j v w. del_count_lem j v w _ refl;
    del_frame = λ j i w. del_frame_lem j i w _ _ refl refl;
    pexpire_value = λ j n w i. refl;
    eval_runs = λ script w w' n h i. (pure-injective (script w).0 n (script w).1 w' h i, (h i).1);
    random_value = λ n w j. refl;
    set_frame = λ j v ttl w i. set_frame_lem j v i w _ _ refl refl;
    set_value = λ j v ttl w w'. set_value_lem j v w w' _ refl;
    set_nx_sets = λ j v ttl w w'. set_nx_lem j v w w' _ refl;
    set_nx_refuses = λ j v ttl w w'. refuses_lem j v w w' _ refl;
    get_says = λ j w w' o h.
        (sym (pure-injective (sample_value w j) o w w' h), ap (λ r. sample_value r.1 j) (sym h));
    get_del_value = λ j w w' o. get_del_lem j w w' o _ refl;
    exists_value = λ j w w' n. exists_lem j w w' n _ refl;
  }
