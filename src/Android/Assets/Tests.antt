-- ===== src/Android/Assets/Tests.antt =====
-- A resource read from an asset that gives one byte at a time.
use bare_kit.Prelude.{
  ℕ, ◌+◌, ◌-◌, ◌<◌, ◌≡◌, refl, List, [], ◌∷◌, Option, some, arith, length, ◌≤◌, ◌++◌, ap, sym,
  subst, none,
}
use Prim.Native.String.{String}
use bare_kit.Android.Assets.{Assets, IsAssets, on_read_resource, on_read_resource-contents}

-- An asset is its size and the bytes that are still to be read.
abbrev Opened : Type 0
Opened = ℕ × List ℕ

abbrev read_byte : ℕ → Opened → Option (List ℕ × Opened)
read_byte k (n, []) = some ([], (n, []))
read_byte k (n, x ∷ l) = some (x ∷ [], (n, l))

abbrev app_icon : List ℕ
app_icon = 137 ∷ 80 ∷ 78 ∷ []

-- The state is the number of open assets.
abbrev manager : Assets ℕ Opened
manager = record {
  open_asset = λ name s. (some (3, app_icon), s + 1);
  get_length = λ a. a.0;
  read_some = read_byte;
  close_asset = λ a s. s - 1;
}

abbrev Sized : Option Opened → Type 0
Sized none = Unit
Sized (some a) = a.0 ≡ length a.1

manager-IsAssets : IsAssets manager (λ a. a.1) (λ s. s)
manager-IsAssets = record {
  read_lem = gives;
  open_lem = opens;
  missing_lem = λ name s s' e. ground (arith, e);
  close_lem = λ a s h. omega arith;
}
  where
    gives :
        (k : ℕ) (a : Opened)
        → 0 < k
        → 0 < length a.1
        → (chunk : List ℕ) × (a' : Opened) × (read_byte k a ≡ some (chunk, a'))
          × (0 < length chunk)
          × (length chunk ≤ k)
          × (a.1 ≡ chunk ++ a'.1)
          × (a'.0 ≡ a.0)
    gives k (n, []) h e = absurd (omega (arith, e))
    gives k (n, x ∷ l) h e = (x ∷ [], (n, l), refl, omega arith, omega arith, refl, refl)

    opens :
        (name : String) (a : Opened) (s s' : ℕ)
        → manager.open_asset name s ≡ (some a, s')
        → (a.0 ≡ length a.1) × (s' ≡ s + 1)
    opens name a s s' e =
        (subst (λ (o : Option Opened × ℕ). Sized o.0) e refl, sym (ap (λ o. o.1) e))

on_read_resource-contents_example :
    (s' : ℕ) × (on_read_resource manager "icon.png" 0 ≡ some (some app_icon, s')) × (s' ≡ 0)
on_read_resource-contents_example =
    on_read_resource-contents manager (λ a. a.1) (λ s. s) manager-IsAssets "icon.png" 0
