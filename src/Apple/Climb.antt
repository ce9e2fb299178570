-- ===== src/Apple/Climb.antt =====
-- The loop of src/apple/resources.c that looks for an application around an extension, and the list of
-- directories that it goes through.
use bare_kit.Prelude.{
  ℕ, zero, suc, ◌+◌, ◌≤◌, ◌<◌, ◌≡◌, refl, ap, ◌∙◌, List, [], ◌∷◌, Bool, true, false, Option, none,
  some, ◌⊎◌, arith, if◌then◌else◌, Bool-cases, inl, inr,
}
use Prim.Native.String.{String}
use bare_kit.Apple.{Foundation, equals_extension, has_extension, climb, keep_application}

module _ {U B : Type 0} (f : Foundation U B) where
  abbrev pub is_application : U → Bool
  is_application u = equals_extension f (f.copy_path_extension u) "app"

  abbrev pub is_app_extension : U → Bool
  is_app_extension u = equals_extension f (f.copy_path_extension u) "appex"

  -- A URL and the directories around it, the nearest first, `n` of them at most.
  unfoldable pub ancestors : ℕ → U → List U
  ancestors zero u = u ∷ []
  ancestors (suc n) u =
      let rest = ancestors n (f.copy_deleting_last u) in
      u ∷ (if f.equal (f.copy_deleting_last u) u then [] else rest)

  unfoldable pub first_application : List U → Option U
  first_application [] = none
  first_application (u ∷ us) =
      let rest = first_application us in if is_application u then some u else rest

  -- What the directories around a URL lead to: equal URLs are the same, and a URL without its last
  -- component is less deep, unless it is the root.
  pub record IsFoundation (depth : U → ℕ) : Type 0 where
    pub equal_lem : (u w : U) → f.equal u w ≡ true → u ≡ w
    pub depth_lem :
        (u : U)
        → f.equal (f.copy_deleting_last u) u ≡ false
        → depth (f.copy_deleting_last u) < depth u

  -- The application of a main bundle: the nearest around an extension, or the bundle itself.
  abbrev pub nearest : (U → ℕ) → Option U → Option U
  nearest depth none = none
  nearest depth (some u) =
      if is_app_extension u
      then first_application (ancestors (depth u) u)
      else if is_application u
      then some u
      else none

  abbrev pub one_kept : Option U → ℕ
  one_kept none = 0
  one_kept (some u) = 1

  abbrev pub kept_result : ℕ → Option U → Option (Option U × ℕ)
  kept_result owned r = some (r, owned + one_kept r)

  pub has_extension_lem :
      (u : U) (e : String) (owned : ℕ)
      → has_extension f u e owned ≡ (equals_extension f (f.copy_path_extension u) e, owned)
  unfolding has_extension
  has_extension_lem u e owned = ground arith

  climb-here :
      (n owned : ℕ) (u : U) → is_application u ≡ true → climb f (suc n) u owned ≡ some (u, owned)
  unfolding climb
  climb-here n owned u e = rw (has_extension_lem u "app" owned, e) refl

  climb-root :
      (n owned : ℕ) (u : U)
      → is_application u ≡ false
      → f.equal (f.copy_deleting_last u) u ≡ true
      → climb f (suc n) u owned ≡ some (f.copy_deleting_last u, owned)
  unfolding climb
  climb-root n owned u e r =
      rw (has_extension_lem u "app" owned, e, r)
        (ap (λ k. some (f.copy_deleting_last u, k)) (omega arith))

  climb-up :
      (n owned : ℕ) (u : U)
      → is_application u ≡ false
      → f.equal (f.copy_deleting_last u) u ≡ false
      → climb f (suc n) u owned ≡ climb f n (f.copy_deleting_last u) owned
  unfolding climb
  climb-up n owned u e r =
      rw (has_extension_lem u "app" owned, e, r)
        (ap (climb f n (f.copy_deleting_last u)) (omega arith))

  pub keep-application :
      (owned : ℕ) (u : U)
      → is_application u ≡ true
      → keep_application f (some (u, owned + 1)) ≡ kept_result owned (some u)
  keep-application owned u e = rw (has_extension_lem u "app" (owned + 1), e) refl

  pub keep-other :
      (owned : ℕ) (u : U)
      → is_application u ≡ false
      → keep_application f (some (u, owned + 1)) ≡ kept_result owned none
  keep-other owned u e =
      rw (has_extension_lem u "app" (owned + 1), e) (ap (λ k. some (none, k)) (omega arith))

  first-here :
      (n : ℕ) (u : U) → is_application u ≡ true → first_application (ancestors n u) ≡ some u
  unfolding first_application ancestors
  first-here zero u e = rw e refl
  first-here (suc n) u e = rw e refl

  first-root :
      (n : ℕ) (u : U)
      → is_application u ≡ false
      → f.equal (f.copy_deleting_last u) u ≡ true
      → first_application (ancestors n u) ≡ none
  unfolding first_application ancestors
  first-root zero u e r = rw e refl
  first-root (suc n) u e r = rw (r, e) refl

  first-up :
      (n : ℕ) (u : U)
      → is_application u ≡ false
      → f.equal (f.copy_deleting_last u) u ≡ false
      → first_application (ancestors (suc n) u)
        ≡ first_application (ancestors n (f.copy_deleting_last u))
  unfolding first_application ancestors
  first-up n u e r = rw (r, e) refl

  -- The loop stops at an application or at the root, and goes on elsewhere.
  abbrev Stops : U → Type 0
  Stops u =
      (is_application u ≡ true)
      ⊎ ((is_application u ≡ false) × (f.equal (f.copy_deleting_last u) u ≡ true))

  Stops-or_not :
      (u : U)
      → Stops u ⊎ ((is_application u ≡ false) × (f.equal (f.copy_deleting_last u) u ≡ false))
  Stops-or_not u = elim (Bool-cases (is_application u)) [
    | inl e ↦ inl (inl e)
    | inr e ↦ elim (Bool-cases (f.equal (f.copy_deleting_last u) u)) [
      | inl r ↦ inl (inr (e, r))
      | inr r ↦ inr (e, r)
    ]
  ]

  stop-keeps :
      {depth : U → ℕ}
      → IsFoundation depth
      → (n owned : ℕ) (u : U) → Stops u
      → keep_application f (climb f (suc n) u (owned + 1))
        ≡ kept_result owned (first_application (ancestors n u))
  stop-keeps laws n owned u (inl e) =
      rw (climb-here n (owned + 1) u e, first-here n u e) (keep-application owned u e)
  stop-keeps laws n owned u (inr (e, r)) =
      rw (climb-root n (owned + 1) u e r, first-root n u e r)
        (keep-other owned (f.copy_deleting_last u)
          (ap is_application (laws.equal_lem (f.copy_deleting_last u) u r) ∙ e))

  -- With more fuel than the URL is deep, the loop finds the nearest application.
  pub climb-keeps :
      {depth : U → ℕ}
      → IsFoundation depth
      → (n owned : ℕ) (u : U) → depth u ≤ n
      → keep_application f (climb f (suc n) u (owned + 1))
        ≡ kept_result owned (first_application (ancestors n u))
  climb-keeps laws zero owned u h = elim (Stops-or_not u) [
    | inl s ↦ stop-keeps laws zero owned u s
    | inr (e, r) ↦ absurd (omega (arith, laws.depth_lem u r))
  ]
  climb-keeps laws (suc n) owned u h = elim (Stops-or_not u) [
    | inl s ↦ stop-keeps laws (suc n) owned u s
    | inr (e, r) ↦
        rw (climb-up (suc n) (owned + 1) u e r, first-up n u e r)
          (climb-keeps laws n owned (f.copy_deleting_last u) (omega (arith, laws.depth_lem u r)))
  ]
