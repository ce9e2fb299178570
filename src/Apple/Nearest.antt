-- ===== src/Apple/Nearest.antt =====
-- The application that src/apple/resources.c finds is the nearest one around the main bundle, and no
-- object of Core Foundation is left over.
use bare_kit.Prelude.{
  ℕ, suc, ◌+◌, ◌≡◌, ap, ◌∙◌, Option, none, some, arith, if◌then◌else◌, Bool-cases, inl, inr,
}
use Prim.Native.String.{String}
use bare_kit.Apple.{
  Foundation, keep_application, application_at, main_url, copy_application_url, create_resources,
  resources_found,
}
use bare_kit.Apple.Climb.{
  is_application, is_app_extension, nearest, one_kept, kept_result, IsFoundation, climb-keeps,
  has_extension_lem, keep-application, keep-other,
}

module _ {U B : Type 0} (f : Foundation U B) where
  -- One more than the main bundle's URL is deep.
  abbrev pub enough : (U → ℕ) → Option U → ℕ
  enough depth none = 0
  enough depth (some u) = suc (depth u)

  bundle-keeps :
      (owned : ℕ) (u : U)
      → keep_application f (some (u, owned + 1))
        ≡ kept_result f owned (if is_application f u then some u else none)
  bundle-keeps owned u = elim (Bool-cases (is_application f u)) [
    | inl e ↦ rw e (keep-application f owned u e)
    | inr e ↦ rw e (keep-other f owned u e)
  ]

  application-nearest :
      {depth : U → ℕ}
      → IsFoundation f depth
      → (owned : ℕ) (main : Option U)
      → application_at f (enough depth main) main owned ≡ kept_result f owned (nearest f depth main)
  application-nearest laws owned none = ground arith
  application-nearest {depth} laws owned (some u) =
      rw (has_extension_lem f u "appex" (owned + 1)) (elim (Bool-cases (is_app_extension f u)) [
        | inl e ↦ rw e (climb-keeps f laws (depth u) owned u (omega arith))
        | inr e ↦ rw e (bundle-keeps owned u)
      ])

  -- Where Core Foundation keeps to its documentation, the search for the application, on fuel one
  -- more than the main bundle's URL is deep, ends with the nearest application around the main
  -- bundle if that is an extension, and with the main bundle if that is an application itself, else
  -- with none; the URL it gives is the only object left owned.
  pub copy_application_url-nearest :
      (depth : U → ℕ) (owned : ℕ)
      → IsFoundation f depth
      → let main = main_url f f.main_bundle in
        let found = nearest f depth main in
        copy_application_url f (enough depth main) owned ≡ some (found, owned + one_kept f found)
  unfolding copy_application_url
  copy_application_url-nearest depth owned laws =
      application-nearest laws owned (main_url f f.main_bundle)

  -- The resources directory of an application's bundle, as a path.
  abbrev pub directory : Option U → Option String
  directory none = none
  directory (some u) = elim (f.create_bundle u) [
    | none ↦ none
    | some bundle ↦ elim (f.copy_resources_url bundle) [
      | none ↦ none
      | some resources ↦ f.representation (f.copy_absolute_url resources)
    ]
  ]

  -- Where Core Foundation keeps to its documentation, the directory of the resources is that of the
  -- bundle of the application found, and null if there is no application, bundle or directory or no
  -- path to it; whichever step fails, no object is left owned that was not.
  pub create_resources-directory :
      (depth : U → ℕ) (owned : ℕ)
      → IsFoundation f depth
      → let main = main_url f f.main_bundle in
        create_resources f (enough depth main) owned
        ≡ some (directory (nearest f depth main), owned)
  unfolding create_resources
  create_resources-directory depth owned laws =
      ap (resources_found f) (copy_application_url-nearest depth owned laws)
      ∙ released (nearest f depth (main_url f f.main_bundle))
    where
      released :
          (found : Option U)
          → resources_found f (some (found, owned + one_kept f found))
            ≡ some (directory found, owned)
      released none = ground arith
      released (some u) = ground arith
