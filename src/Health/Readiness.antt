-- ===== src/Health/Readiness.antt =====
-- health/health.go: a runtime is ready when every part that it has answers.
use aisphere_kit.Base.{
  Text, codes, true, List, [], ◌∷◌, ◌++◌, append-nil, append_assoc, map, Option, none, some, Result,
  ok, err, Io, All, ◌≡◌, refl, sym, ap, ◌∙◌, arith, Bool-cases, inl, inr,
}
use aisphere_kit.Base.Clock.{ℤ, Clock}
use aisphere_kit.Context.{Context}
use aisphere_kit.Health.{
  Health, Checked, outcome, is_healthy, database_name, result, collected, ask_sql, ask, check,
}

abbrev pub IsOk : Health → Type 0
IsOk r = r.ok ≡ true

pub is_healthy_sound : (rs : List Health) → is_healthy rs ≡ none → All IsOk rs
unfolding is_healthy
is_healthy_sound [] h = tt
is_healthy_sound (r ∷ rs) h = elim (Bool-cases r.ok) [
  | inl e ↦ (e, is_healthy_sound rs (rw e at h))
  | inr e ↦ let k = rw e at h in absurd (ground arith)
]

abbrev pub names_of : List Health → List Text
names_of rs = map (λ (r : Health). r.name) rs

-- The names of the parts that there are, in the order in which they are asked.
abbrev pub part_name : {A : Type 0} → Text → Option A → List Text
part_name name none = []
part_name name (some a) = name ∷ []

abbrev pub sql_name : {A : Type 0} → Option Text → Option (Text × A) → List Text
sql_name d none = []
sql_name d (some (driver, a)) = database_name d driver ∷ []

abbrev pub part_names : {W : Type 0} → Checked W → List Text
part_names rt =
    sql_name rt.database_driver rt.sql
    ++ (part_name (codes "redis") rt.redis
        ++ (part_name (codes "objectstore") rt.s3 ++ part_name (codes "casdoor") rt.casdoor))

names_of-append : (rs qs : List Health) → names_of (rs ++ qs) ≡ names_of rs ++ names_of qs
names_of-append [] qs = refl
names_of-append (r ∷ rs) qs = ap (λ ns. r.name ∷ ns) (names_of-append rs qs)

outcome-name : {A : Type 0} (name d : Text) (r : Result A) → (outcome name d r).name ≡ name
outcome-name name d (ok a) = refl
outcome-name name d (err e) = refl

module _ {W : Type 0} (clock : Clock W) (show : ℤ → Text) where
  collected-names :
      (out : List Health) (name : Text) (r : Health × W)
      → r.0.name ≡ name
      → names_of (collected clock show out r).0 ≡ names_of out ++ (name ∷ [])
  collected-names out name (r, w) h =
      names_of-append out (r ∷ []) ∙ ap (λ n. names_of out ++ (n ∷ [])) h

  ask-names :
      {A : Type 0} (name : Text) (ctx : Context W) (o : Option (Context W → Io W A))
      (r : List Health × W)
      → names_of (ask clock show name ctx o r).0 ≡ names_of r.0 ++ part_name name o
  ask-names name ctx none (out, w) = sym (append-nil (names_of out))
  ask-names name ctx (some ping) (out, w) =
      collected-names out name (result clock show name (ping ctx) w) (outcome-name name _ _)

  ask_sql-names :
      (ctx : Context W) (d : Option Text) (o : Option (Text × (Context W → Io W (Unit {0}))))
      (r : List Health × W)
      → names_of (ask_sql clock show ctx d o r).0 ≡ names_of r.0 ++ sql_name d o
  ask_sql-names ctx d none (out, w) = sym (append-nil (names_of out))
  ask_sql-names ctx d (some (driver, ping)) (out, w) =
      collected-names out (database_name d driver)
        (result clock show (database_name d driver) (ping ctx) w)
        (outcome-name (database_name d driver) _ _)

  -- Check answers one result for each part that the runtime has, in the order in which it asks them,
  -- whether the parts before it answer or not.
  pub check-names :
      (with_timeout : Context W → ℤ → Context W) (ctx : Context W) (rt : Checked W) (w : W)
      → names_of (check clock show with_timeout ctx (some rt) w).0 ≡ part_names rt
  unfolding check
  check-names with_timeout ctx rt w =
      let c = with_timeout ctx rt.timeout in
      let db = ask_sql clock show c rt.database_driver rt.sql ([], w) in
      let redis = ask clock show (codes "redis") c rt.redis db in
      let s3 = ask clock show (codes "objectstore") c rt.s3 redis in
      let a = sql_name rt.database_driver rt.sql in
      let b = part_name (codes "redis") rt.redis in
      let d = part_name (codes "objectstore") rt.s3 in
      let e = part_name (codes "casdoor") rt.casdoor in
      ask-names (codes "casdoor") c rt.casdoor s3
      ∙ ap (λ ns. ns ++ e)
          (ask-names (codes "objectstore") c rt.s3 redis
            ∙ ap (λ ns. ns ++ d)
                (ask-names (codes "redis") c rt.redis db
                  ∙ ap (λ ns. ns ++ b) (ask_sql-names c rt.database_driver rt.sql ([], w))))
      ∙ append_assoc (a ++ b) d e
      ∙ append_assoc a b (d ++ e)
