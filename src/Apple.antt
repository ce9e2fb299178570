-- ===== src/Apple.antt =====
-- src/apple/resources.c: where the resources of an application are, also for an extension embedded
-- in its bundle. Core Foundation is a parameter, and the objects owned are counted.
pub mod Climb
pub mod Nearest
pub mod Signal
mod Tests
use bare_kit.Prelude.{
  ℕ, zero, suc, ◌+◌, ◌-◌, ◌≤◌, ◌<◌, ◌≡◌, refl, sym, ap, ◌∙◌, List, [], ◌∷◌, Bool, true, false,
  Option, none, some, arith, if◌then◌else◌, Bool-cases, inl, inr,
}
use Prim.Native.String.{String}

-- The functions called, on URLs and bundles; `none` is `NULL`, or a failure.
pub record Foundation (U B : Type 0) : Type 0 where
  pub main_bundle : Option B
  pub copy_bundle_url : B → Option U
  pub copy_path_extension : U → Option String
  pub compare_equal : String → String → Bool
  pub copy_deleting_last : U → U
  pub equal : U → U → Bool
  pub create_bundle : U → Option B
  pub copy_resources_url : B → Option U
  pub copy_absolute_url : U → U
  pub representation : U → Option String

module _ {U B : Type 0} (f : Foundation U B) where
  abbrev pub equals_extension : Option String → String → Bool
  equals_extension none extension = false
  equals_extension (some actual) extension = f.compare_equal actual extension

  -- The copy of the extension is owned, if there is one, and released.
  abbrev pub extension_balance : Option String → ℕ → ℕ
  extension_balance none owned = owned
  extension_balance (some actual) owned = owned + 1 - 1

  unfoldable pub has_extension : U → String → ℕ → Bool × ℕ
  has_extension url extension owned =
      let actual = f.copy_path_extension url in
      (equals_extension actual extension, extension_balance actual owned)

  -- The `while` loop, where `none` says that the fuel ran out.
  unfoldable pub climb : ℕ → U → ℕ → Option (U × ℕ)
  climb zero url owned = none
  climb (suc n) url owned =
      let (is_app, owned) = has_extension url "app" owned in
      let parent = f.copy_deleting_last url in
      let root = f.equal parent url in
      let rest = climb n parent (owned + 1 - 1) in
      if is_app then some (url, owned) else if root then some (parent, owned + 1 - 1) else rest

  abbrev pub keep_application : Option (U × ℕ) → Option (Option U × ℕ)
  keep_application none = none
  keep_application (some (url, owned)) =
      let (is_app, owned) = has_extension url "app" owned in
      some (if is_app then (some url, owned) else (none, owned - 1))

  abbrev pub application_at : ℕ → Option U → ℕ → Option (Option U × ℕ)
  application_at fuel none owned = some (none, owned)
  application_at fuel (some url) owned =
      let (is_extension, owned) = has_extension url "appex" (owned + 1) in
      keep_application (if is_extension then climb fuel url owned else some (url, owned))

  abbrev pub main_url : Option B → Option U
  main_url none = none
  main_url (some bundle) = f.copy_bundle_url bundle

  -- The URL is owned by the caller. A bundle that is the main one is not.
  unfoldable pub copy_application_url : ℕ → ℕ → Option (Option U × ℕ)
  copy_application_url fuel owned = application_at fuel (main_url f.main_bundle) owned

  abbrev pub directory_of : Option U → ℕ → Option String × ℕ
  directory_of none owned = (none, owned)
  directory_of (some resources) owned =
      (f.representation (f.copy_absolute_url resources), owned + 1 + 1 - 1 - 1)

  abbrev pub resources_of : Option B → ℕ → Option String × ℕ
  resources_of none owned = (none, owned)
  resources_of (some bundle) owned =
      let url = f.copy_resources_url bundle in directory_of url (owned + 1 - 1)

  abbrev pub resources_at : Option U × ℕ → Option String × ℕ
  resources_at (none, owned) = (none, owned)
  resources_at (some url, owned) = resources_of (f.create_bundle url) (owned - 1)

  abbrev pub resources_found : Option (Option U × ℕ) → Option (Option String × ℕ)
  resources_found none = none
  resources_found (some found) = some (resources_at found)

  -- The directory of the resources, or `null`; the other result, a function to read them with, is
  -- always `null` here.
  unfoldable pub create_resources : ℕ → ℕ → Option (Option String × ℕ)
  create_resources fuel owned = resources_found (copy_application_url fuel owned)
