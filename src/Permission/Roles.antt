-- ===== src/Permission/Roles.antt =====
-- permission/permission.go: what cleanActions keeps, and the actions of the roles.
use aisphere_kit.Base.{
  Text, false, ◌&&◌, ◌||◌, not, List, [], ◌∷◌, Result, ok, err, Sentinel, is_empty, trim_space,
  ◌==◌, ◌≡◌, refl, arith, Bool-cases, inl, inr, eq_iff, unequal, map, ◌⊎◌, is, ◌≢◌, sym, ap,
}
use aisphere_kit.Permission.{
  contains, clean_loop, clean_actions, role_table, viewer_actions, editor_actions, owner_actions,
  role_viewer, role_editor, role_owner,
}

-- No text occurs twice.
abbrev pub IsDistinct : List Text → Type 0
IsDistinct [] = Unit
IsDistinct (a ∷ rest) = (contains a rest ≡ false) × IsDistinct rest

contains-clean_loop :
    (a : Text) (seen xs : List Text)
    → contains a (clean_loop seen xs)
      ≡ (contains a (map trim_space xs) && not (is_empty a) && not (contains a seen))
unfolding clean_loop contains
contains-clean_loop a seen [] = refl
contains-clean_loop a seen (x ∷ xs) =
    elim (Bool-cases (is_empty (trim_space x) || contains (trim_space x) seen)) [
      | inl h ↦ rw h (ground (arith, eq_iff a (trim_space x), contains-clean_loop a seen xs))
      | inr h ↦
          rw h (
            ground (arith, eq_iff a (trim_space x), contains-clean_loop a (trim_space x ∷ seen) xs))
    ]

clean_loop-IsDistinct : (seen xs : List Text) → IsDistinct (clean_loop seen xs)
unfolding clean_loop
clean_loop-IsDistinct seen [] = tt
clean_loop-IsDistinct seen (x ∷ xs) =
    elim (Bool-cases (is_empty (trim_space x) || contains (trim_space x) seen)) [
      | inl h ↦ rw h (clean_loop-IsDistinct seen xs)
      | inr h ↦ rw h (kept-new, clean_loop-IsDistinct (trim_space x ∷ seen) xs)
    ]
  where
    kept-new : contains (trim_space x) (clean_loop (trim_space x ∷ seen) xs) ≡ false
    kept-new =
        unfold contains in
        ground (
          arith,
          eq_iff (trim_space x) (trim_space x),
          contains-clean_loop (trim_space x) (trim_space x ∷ seen) xs,
        )

-- cleanActions keeps exactly the actions that are not blank, trimmed, and each of them once.
pub clean_actions_lem :
    (actions : List Text)
    → ((a : Text)
        → contains a (clean_actions actions)
          ≡ (contains a (map trim_space actions) && not (is_empty a)))
      × IsDistinct (clean_actions actions)
unfolding clean_actions
clean_actions_lem actions = (
  λ a. unfold contains in ground (arith, contains-clean_loop a [] actions),
  clean_loop-IsDistinct [] actions,
)

-- The roles grow: a viewer's actions add nothing to an editor's, and an editor's add nothing to an
-- owner's.
pub role_hierarchy :
    (a : Text)
    → ((contains a viewer_actions || contains a editor_actions) ≡ contains a editor_actions)
      × ((contains a editor_actions || contains a owner_actions) ≡ contains a owner_actions)
unfolding contains
role_hierarchy a = (ground arith, ground arith)

-- How the default mapper expands a role, with no actions of the caller's.
abbrev pub Expansion : Text → Result (List Text) → Type 0
Expansion role (ok actions) =
    ((role ≡ role_viewer) × (actions ≡ viewer_actions))
    ⊎ ((role ≡ role_editor) × (actions ≡ editor_actions))
    ⊎ ((role ≡ role_owner) × (actions ≡ owner_actions))
Expansion role (err e) =
    (role ≢ role_viewer)
    × (role ≢ role_editor)
    × (role ≢ role_owner)
    × (is e Sentinel.empty_role ≡ is_empty role)
    × (is e Sentinel.unsupported_role ≡ not (is_empty role))

-- The default mapper knows the three roles and no other: it fails with ErrEmptyRole on the empty
-- role, and with an error that wraps ErrUnsupportedRole on any other.
pub Expansion-role_table : (role : Text) → Expansion role (role_table role)
unfolding role_table
Expansion-role_table role = elim (Bool-cases (role == role_viewer)) [
  | inl v ↦ rw v (inl ((eq_iff _ _).0 v, refl))
  | inr v ↦ rw v (elim (Bool-cases (role == role_editor)) [
    | inl e ↦ rw e (inr (inl ((eq_iff _ _).0 e, refl)))
    | inr e ↦ rw e (elim (Bool-cases (role == role_owner)) [
      | inl o ↦ rw o (inr (inr ((eq_iff _ _).0 o, refl)))
      | inr o ↦ rw o (elim (Bool-cases (is_empty role)) [
        | inl n ↦ rw n (
          unequal _ _ v,
          unequal _ _ e,
          unequal _ _ o,
          unfold is in sym n,
          unfold is in ap not (sym n),
        )
        | inr n ↦ rw n (
          unequal _ _ v,
          unequal _ _ e,
          unequal _ _ o,
          unfold is in sym n,
          unfold is in ap not (sym n),
        )
      ])
    ])
  ])
]
