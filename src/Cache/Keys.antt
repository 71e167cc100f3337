-- ===== src/Cache/Keys.antt =====
-- cache/key.go and resource/resource.go: names that are made of parts with a colon in between. Both
-- files have the same loop.
use aisphere_kit.Base.{
  Text, codes, Bool, List, [], ◌∷◌, ◌++◌, map, join, trim, is_empty, eqb, ℕ, if◌then◌else◌,
}
pub mod Parts

abbrev pub is_colon : ℕ → Bool
is_colon c = eqb c b':'

-- The loop that fills `clean`.
unfoldable pub cleaned : List Text → List Text
cleaned [] = []
cleaned (p ∷ parts) = if is_empty p then cleaned parts else trim is_colon p ∷ cleaned parts

unfoldable pub key : List Text → Text
unfolding cleaned
key parts = join (cleaned parts) b':'

-- resource.Build, and the names of the resources of the services
unfoldable pub build : List Text → Text
unfolding cleaned
build parts = join (cleaned parts) b':'

unfoldable pub wildcard : Text → Text → Text
unfolding build
wildcard domain kind = build (domain ∷ kind ∷ codes "*" ∷ [])

unfoldable pub aihub_skill : Text → Text
unfolding build
aihub_skill id = build (codes "aihub" ∷ codes "skill" ∷ id ∷ [])

unfoldable pub aihub_skill_version : Text → Text → Text
unfolding build
aihub_skill_version skill version =
    build (codes "aihub" ∷ codes "skill-version" ∷ skill ∷ version ∷ [])

unfoldable pub runtime_session : Text → Text
unfolding build
runtime_session id = build (codes "runtime" ∷ codes "session" ∷ id ∷ [])

unfoldable pub sandbox_instance : Text → Text
unfolding build
sandbox_instance id = build (codes "sandbox" ∷ codes "instance" ∷ id ∷ [])

unfoldable pub model_deployment : Text → Text
unfolding build
model_deployment id = build (codes "model" ∷ codes "deployment" ∷ id ∷ [])
