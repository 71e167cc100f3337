-- ===== src/Starter/Leaks.antt =====
-- starter/cleanup.go and starter/runtime.go: cleanups run in reverse order, and nothing stays open.
use aisphere_kit.Base.{
  Bool, true, false, List, [], ◌∷◌, ◌++◌, append_assoc, append-nil, Result, ok, err, Error, ◌≡◌,
  refl, ◌∙◌, arith, ℕ, suc, ◌+◌, length, length-append, All, All-append, if◌then◌else◌,
}
use aisphere_kit.Config.Types.{FeatureConfig}
use aisphere_kit.Starter.{
  Cleanup, add, run, close, Parts, Progress, Runtime, metrics_stage, db_stage, cache_stage,
  s3_stage, casdoor_stage, new_casdoor, with_part, abandon, then_stage, new_runtime,
}

module _ {W : Type 0} where
  -- Two runs, one after the other.
  abbrev pub run_both : List (Cleanup W) → List (Cleanup W) → W → List Error × W
  run_both fs gs w = let (es, v) = run fs w in let (ds, u) = run gs v in (es ++ ds, u)

  -- Close runs what was added later first, and collects its errors first: a stack on top of another
  -- is closed completely before the stack below it.
  pub run-append :
      (below above : List (Cleanup W)) (w : W) → run (below ++ above) w ≡ run_both above below w
  unfolding run
  run-append [] above w = rw append-nil refl
  run-append (f ∷ below) above w = rw (run-append below above w, append_assoc) refl

module _ {W H : Type 0} (parts : Parts W H) where
  -- The cleanup closes one of the parts that are open.
  abbrev pub IsCloser : (W → ℕ) → Cleanup W → Type 0
  IsCloser live shut = (w : W) (n : ℕ) → live w ≡ suc n → live (shut w).1 ≡ n

  -- What the constructor of a part that has a Close does to the number of open parts.
  abbrev pub Opens : (W → ℕ) → (w : W) → Result (H × Cleanup W) × W → Type 0
  Opens live w (ok (h, shut), v) = (live v ≡ suc (live w)) × IsCloser live shut
  Opens live w (err e, v) = live v ≡ live w

  -- A count of the databases and Redis runtimes that are open.
  pub record Count : Type 0 where
    pub live : W → ℕ
    pub of_metrics : (w : W) → live (parts.new_metrics w).1 ≡ live w
    pub of_database : (w : W) → Opens live w (parts.new_database w)
    pub of_redis : (w : W) → Opens live w (parts.new_redis w)
    pub of_minio : (w : W) → live (parts.new_minio w).1 ≡ live w
    pub of_checked : (w : W) → live (parts.new_checked w).1 ≡ live w
    pub of_adapter : (w : W) → live (parts.new_adapter w).1 ≡ live w

  module _ (count : Count) (features : FeatureConfig) where
    open count use {live}

    -- Everything is accounted for: after a failure as many parts are open as at the start, and after a
    -- success those, and one for each cleanup.
    abbrev Accounted : ℕ → Result (Progress W H) × W → Type 0
    Accounted n (ok (rt, fs), w) = All (IsCloser live) fs × (live w ≡ length fs + n)
    Accounted n (err e, w) = live w ≡ n

    close-live :
        (fs : List (Cleanup W)) (w : W) (n : ℕ)
        → All (IsCloser live) fs
        → live w ≡ length fs + n
        → live (run fs w).1 ≡ n
    unfolding run
    close-live [] w n h e = omega (arith, e)
    close-live (f ∷ fs) w n (shuts, h) e =
        shuts (run fs w).1 n (close-live fs w (suc n) h (omega (arith, e)))

    abandon-live :
        (fs : List (Cleanup W)) (e : Error) (w : W) (n : ℕ)
        → All (IsCloser live) fs
        → live w ≡ length fs + n
        → Accounted n (abandon parts features fs e w)
    unfolding close
    abandon-live fs e w n h c = close-live fs w n h c

    -- A part that needs no cleanup.
    plain_part :
        (fs : List (Cleanup W)) (report : Error → Error) (f : H → Runtime H) (r : Result H × W)
        (n : ℕ)
        → All (IsCloser live) fs
        → live r.1 ≡ length fs + n
        → Accounted n (with_part parts features fs report r (λ x v. (ok (f x, fs), v)))
    plain_part fs report f (ok x, v) n h c = (h, c)
    plain_part fs report f (err e, v) n h c = abandon-live fs (report e) v n h c

    -- A part whose cleanup goes on the stack.
    closed_part :
        (fs : List (Cleanup W)) (report : Error → Error) (f : H → Runtime H) (w : W)
        (r : Result (H × Cleanup W) × W) (n : ℕ)
        → All (IsCloser live) fs
        → live w ≡ length fs + n
        → Opens live w r
        → Accounted n
            (with_part parts features fs report r (λ (x, shut) v. (ok (f x, add fs shut), v)))
    unfolding add
    closed_part fs report f w (ok (x, shut), v) n h c (opened, shuts) = (
      All-append (IsCloser live) fs (shut ∷ []) h (shuts, tt),
      omega (arith, opened, c, length-append fs (shut ∷ [])),
    )
    closed_part fs report f w (err e, v) n h c same = abandon-live fs (report e) v n h (same ∙ c)

    then_stage-Accounted :
        (stage : Progress W H → W → Result (Progress W H) × W) (n : ℕ)
        (r : Result (Progress W H) × W)
        → Accounted n r
        → ((rt : Runtime H) (fs : List (Cleanup W)) (w : W)
            → All (IsCloser live) fs
            → live w ≡ length fs + n
            → Accounted n (stage (rt, fs) w))
        → Accounted n (then_stage parts features r stage)
    then_stage-Accounted stage n (ok (rt, fs), w) (h, c) step = step rt fs w h c
    then_stage-Accounted stage n (err e, w) c step = c

    -- A stage whose feature is off passes on what there is.
    when_on :
        (b : Bool) (n : ℕ) (x : Result (Progress W H) × W) (rt : Runtime H) (fs : List (Cleanup W))
        (w : W)
        → All (IsCloser live) fs
        → live w ≡ length fs + n
        → Accounted n x
        → Accounted n (if b then x else (ok (rt, fs), w))
    when_on true n x rt fs w h c p = p
    when_on false n x rt fs w h c p = (h, c)

    metrics-Accounted :
        (rt : Runtime H) (fs : List (Cleanup W)) (w : W) (n : ℕ)
        → All (IsCloser live) fs
        → live w ≡ length fs + n
        → Accounted n (metrics_stage parts features (rt, fs) w)
    unfolding metrics_stage
    metrics-Accounted rt fs w n h c =
        when_on _ n _ rt fs w h c
          (plain_part fs _ _ (parts.new_metrics w) n h (count.of_metrics w ∙ c))

    db-Accounted :
        (rt : Runtime H) (fs : List (Cleanup W)) (w : W) (n : ℕ)
        → All (IsCloser live) fs
        → live w ≡ length fs + n
        → Accounted n (db_stage parts features (rt, fs) w)
    unfolding db_stage
    db-Accounted rt fs w n h c =
        when_on _ n _ rt fs w h c
          (closed_part fs _ _ w (parts.new_database w) n h c (count.of_database w))

    cache-Accounted :
        (rt : Runtime H) (fs : List (Cleanup W)) (w : W) (n : ℕ)
        → All (IsCloser live) fs
        → live w ≡ length fs + n
        → Accounted n (cache_stage parts features (rt, fs) w)
    unfolding cache_stage
    cache-Accounted rt fs w n h c =
        when_on _ n _ rt fs w h c
          (closed_part fs _ _ w (parts.new_redis w) n h c (count.of_redis w))

    s3-Accounted :
        (rt : Runtime H) (fs : List (Cleanup W)) (w : W) (n : ℕ)
        → All (IsCloser live) fs
        → live w ≡ length fs + n
        → Accounted n (s3_stage parts features (rt, fs) w)
    unfolding s3_stage
    s3-Accounted rt fs w n h c =
        when_on _ n _ rt fs w h c (plain_part fs _ _ (parts.new_minio w) n h (count.of_minio w ∙ c))

    new_casdoor-live :
        (b : Bool) (w : W)
        → live
            (if b
              then parts.new_checked w
              else (ok (parts.new_adapter w).0, (parts.new_adapter w).1)).1
          ≡ live w
    new_casdoor-live true w = count.of_checked w
    new_casdoor-live false w = count.of_adapter w

    casdoor-Accounted :
        (rt : Runtime H) (fs : List (Cleanup W)) (w : W) (n : ℕ)
        → All (IsCloser live) fs
        → live w ≡ length fs + n
        → Accounted n (casdoor_stage parts features (rt, fs) w)
    unfolding casdoor_stage
    casdoor-Accounted rt fs w n h c = when_on _ n _ rt fs w h c (
        plain_part fs _ _ (new_casdoor parts features w) n h
          (new_casdoor-live features.authn w ∙ c))

    runtime-Accounted :
        (rt : Runtime H) (w : W) → Accounted (live w) (new_runtime parts features rt w)
    unfolding new_runtime
    runtime-Accounted rt w =
        let n = live w in
        then_stage-Accounted _ n _
          (then_stage-Accounted _ n _
            (then_stage-Accounted _ n _
              (then_stage-Accounted _ n _
                (then_stage-Accounted _ n _ (metrics-Accounted rt [] w n tt (omega arith))
                  (λ r fs v. db-Accounted r fs v n))
                (λ r fs v. cache-Accounted r fs v n))
              (λ r fs v. s3-Accounted r fs v n))
            (λ r fs v. casdoor-Accounted r fs v n))
          (λ r fs v h c. (h, c))

    -- Nothing is left open: where NewRuntime fails, and where it succeeds and the cleanup that it
    -- returns is run.
    abbrev pub NothingLeft : ℕ → Result (Progress W H) × W → Type 0
    NothingLeft n (ok (rt, fs), w) = live (close fs w).1 ≡ n
    NothingLeft n (err e, w) = live w ≡ n

    Accounted-NothingLeft :
        (n : ℕ) (r : Result (Progress W H) × W) → Accounted n r → NothingLeft n r
    unfolding close
    Accounted-NothingLeft n (ok (rt, fs), w) (h, c) = close-live fs w n h c
    Accounted-NothingLeft n (err e, w) c = c

    -- NewRuntime opens no database and no Redis runtime that is not closed again: whatever features are
    -- on, when it fails as many are open as before it, and when it succeeds as many are open as before
    -- it once the cleanup that it returns has run.
    pub new_runtime-NothingLeft :
        (rt : Runtime H) (w : W) → NothingLeft (live w) (new_runtime parts features rt w)
    new_runtime-NothingLeft rt w = Accounted-NothingLeft _ _ (runtime-Accounted rt w)
