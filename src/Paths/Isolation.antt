-- ===== src/Paths/Isolation.antt =====
-- The path policy of mcp_server/config.py keeps the tenants apart.
use openstudio_mcp.Base.{
  String, Bool, true, false, Option, none, some, List, [], ◌∷◌, ◌++◌, ◌≡◌, ◌≢◌, refl, sym, subst,
  ◌∙◌, inl, inr, string_eq, arith, Bool-cases,
}
use openstudio_mcp.Paths.{
  Roots, is_bad_key, is_under, tenant_dir, run_root_for, outside_own_for, allowed_for,
  is_path_allowed_for, in_runs, is_path_allowed,
}
use text.Mathlib.TextEquality.{eq_iff}

-- A path in a directory of the base is in the base, and in one directory of it only.
is_under-base :
    (p base : List String) (k : String)
    → is_under p (base ++ (k ∷ [])) ≡ true
    → is_under p base ≡ true
unfolding is_under
is_under-base p [] k h = refl
is_under-base [] (b ∷ base) k h = absurd (cc)
is_under-base (a ∷ p) (b ∷ base) k h = ground (arith, is_under-base p base k, h)

is_under-one :
    (p base : List String) (j k : String)
    → is_under p (base ++ (j ∷ [])) ≡ true
    → is_under p (base ++ (k ∷ [])) ≡ true
    → j ≡ k
unfolding is_under
is_under-one [] [] j k g h = absurd (cc)
is_under-one (a ∷ p) [] j k g h =
    sym ((eq_iff a j).0 (ground arith)) ∙ (eq_iff a k).0 (ground arith)
is_under-one [] (b ∷ base) j k g h = absurd (cc)
is_under-one (a ∷ p) (b ∷ base) j k g h = is_under-one p base j k (ground arith) (ground arith)

tenant_dir-some :
    (roots : Roots) (base own : List String) (key : String)
    → tenant_dir roots base key ≡ some own
    → own ≡ base ++ (key ∷ [])
unfolding tenant_dir
tenant_dir-some roots base own key e = elim (Bool-cases (is_bad_key key)) [
  | inl bad ↦ absurd (ground arith)
  | inr good ↦ elim (Bool-cases (roots.is_itself (base ++ (key ∷ [])))) [
    | inl real ↦ ground arith
    | inr link ↦ absurd (ground arith)
  ]
]

module _ (roots : Roots) (key other : String) (p : List String) (write : Bool) where
  tenant_dir-else :
      (base own : List String)
      → key ≢ other
      → tenant_dir roots base key ≡ some own
      → is_under p (base ++ (other ∷ [])) ≡ true
      → is_under p own ≡ false
  tenant_dir-else base own ne e there = elim (Bool-cases (is_under p own)) [
    | inr out ↦ out
    | inl inside ↦ absurd (
        ne (
          is_under-one p base key other
            (subst (λ d. is_under p d ≡ true) (tenant_dir-some roots base own key e) inside) there))
  ]

  allowed_for-else :
      (o : Option (List String))
      → ((own : List String) → o ≡ some own → is_under p own ≡ false)
      → is_under p roots.run_root ≡ true
      → allowed_for roots write p o ≢ some true
  unfolding allowed_for outside_own_for
  allowed_for-else none out inside h = absurd (cc)
  allowed_for-else (some own) out inside h = absurd (ground (arith, out own refl))

  in_runs-else :
      (o : Option (List String))
      → ((own : List String) → o ≡ some own → is_under p own ≡ false)
      → is_under p roots.run_root ≡ true
      → in_runs roots key write p o ≢ some true
  unfolding in_runs
  in_runs-else none out inside h = absurd (cc)
  in_runs-else (some own) out inside h = absurd (ground (arith, out own refl))

  run_root_for-else :
      (own : List String)
      → key ≢ "local"
      → key ≢ other
      → is_under p (roots.run_root ++ (other ∷ [])) ≡ true
      → run_root_for roots key ≡ some own
      → is_under p own ≡ false
  unfolding run_root_for
  run_root_for-else own remote ne there e =
      tenant_dir-else roots.run_root own ne (ground (arith, e, eq_iff key "local", remote)) there

  -- No remote caller reaches another tenant's run area: a path in it is allowed neither for a tool
  -- nor on a signed route, to read or to write.
  pub is_path_allowed-else :
      key ≢ "local"
      → key ≢ other
      → is_under p (roots.run_root ++ (other ∷ [])) ≡ true
      → (is_path_allowed roots key p write ≢ some true)
        × (is_path_allowed_for roots key p write ≢ some true)
  unfolding is_path_allowed is_path_allowed_for
  is_path_allowed-else remote ne there =
      let inside = is_under-base p roots.run_root other there in
      let out = λ (own : List String). run_root_for-else own remote ne there in
      (
        in_runs-else (run_root_for roots key) out inside,
        allowed_for-else (run_root_for roots key) out inside,
      )
