-- ===== src/Android/Resources.antt =====
-- src/android/resources.c: the directory of extracted resources and the function that reads one, as
-- they are made for a worklet's JavaScript, and the finalizer of that function.
pub mod Steps
pub mod Balance
use bare_kit.Prelude.{ℕ, ◌≡◌, Option, none, some, ◌==◌}
use Prim.Native.String.{String}
use bare_kit.Android.Act.{Act, pure, ◌>>=◌, ◌>>◌, assert}
use bare_kit.Android.Jni.{Jni, View, Keeps, SameLocals}
use bare_kit.Android.Platform.{Process, ask, on_java, peek, found, called, get_env}

-- The functions called beside those of `Jni`, with the error codes of the JavaScript engine's.
pub record Script (S : Type 0) : Type 0 where
  pub get_null : S → ℕ × S
  pub create_string : String → S → ℕ × S
  pub create_function : Option ℕ → ℕ → S → ℕ × S
  pub add_finalizer : Option ℕ → ℕ → S → ℕ × S
  pub get_string_chars : ℕ → ℕ → S → String × S
  pub release_string_chars : ℕ → ℕ → String → S → S
  pub manager_from_java : ℕ → Option ℕ → S → ℕ

-- A call that succeeds and changes nothing that is to be seen of the VM.
abbrev pub Succeeds : {S : Type 0} → View S → (S → ℕ × S) → S → Type 0
Succeeds {S} v f s = (s' : S) × (f s ≡ (0, s')) × Keeps v s s' × SameLocals v s s'

pub record IsScript {S : Type 0} (v : View S) (k : Script S) : Type 0 where
  pub get_null_lem : (s : S) → Succeeds v k.get_null s
  pub create_string_lem : (c : String) (s : S) → Succeeds v (k.create_string c) s
  pub create_function_lem : (r : Option ℕ) (m : ℕ) (s : S) → Succeeds v (k.create_function r m) s
  pub add_finalizer_lem : (r : Option ℕ) (m : ℕ) (s : S) → Succeeds v (k.add_finalizer r m) s
  pub get_string_chars_lem :
      (t o : ℕ) (s : S)
      → Keeps v s (k.get_string_chars t o s).1 × SameLocals v s (k.get_string_chars t o s).1
  pub release_string_chars_lem :
      (t o : ℕ) (c : String) (s : S)
      → Keeps v s (k.release_string_chars t o c s) × SameLocals v s (k.release_string_chars t o c s)

-- `bare_kit__resources_t`
pub record Reader : Type 0 where
  pub assets : Option ℕ
  pub manager : ℕ

-- The directory, and the data of the function that reads, which are `null` if there is none.
pub record Created : Type 0 where
  pub directory : Option String
  pub read : Option Reader

module _ {S : Type 0} (j : Jni S) (k : Script S) where
  -- A call of the JavaScript engine, and `assert(err == 0)`.
  unfoldable pub checked : (S → ℕ × S) → Act (Process S) (Unit {0})
  checked f = do err ← ask f; assert (err == 0)

  -- A class that is `NULL`, which the code does not test for, is a crash in `found`.
  abbrev pub create_for : ℕ → Option ℕ → Act (Process S) Created
  create_for t none = pure (record { directory = none; read = none })
  create_for t (some context) = do
    env ← get_env j t
    context_class ← found j (j.get_object_class env context)
    get_code_cache_dir ←
        found j (j.get_method env context_class "getCodeCacheDir" "()Ljava/io/File;")
    get_assets ←
        found j (j.get_method env context_class "getAssets" "()Landroid/content/res/AssetManager;")
    dir ← called j env (j.call_object env context get_code_cache_dir)
    file_class ← found j (j.get_object_class env dir)
    get_path ← found j (j.get_method env file_class "getPath" "()Ljava/lang/String;")
    path ← called j env (j.call_object env dir get_path)
    chars ← ask (k.get_string_chars env path)
    checked (k.create_string chars)
    on_java (k.release_string_chars env path chars)
    assets ← called j env (j.call_object env context get_assets)
    kept ← ask (j.new_global_ref env assets)
    manager ← peek (k.manager_from_java env kept)
    checked (k.create_function kept manager)
    checked (k.add_finalizer kept manager)
    on_java (j.delete_local_ref env assets)
    on_java (j.delete_local_ref env path)
    on_java (j.delete_local_ref env file_class)
    on_java (j.delete_local_ref env dir)
    on_java (j.delete_local_ref env context_class)
    pure (record {
      directory = some chars;
      read = some (record { assets = kept; manager = manager });
    })

  unfoldable pub create_resources : ℕ → Option ℕ → Act (Process S) Created
  create_resources t context = do checked k.get_null; checked k.get_null; create_for t context

  abbrev delete_kept : ℕ → Option ℕ → S → S
  delete_kept t none s = s
  delete_kept t (some r) s = j.delete_global_ref t r s

  unfoldable pub on_resources_finalize : ℕ → Reader → Act (Process S) (Unit {0})
  on_resources_finalize t reader = do env ← get_env j t; on_java (delete_kept env reader.assets)

  -- The finalizer runs if there is a function.
  abbrev pub finalize_read : ℕ → Option Reader → Act (Process S) (Unit {0})
  finalize_read t none = pure tt
  finalize_read t (some reader) = on_resources_finalize t reader

  -- What a worklet's environment does with the resources over its life.
  unfoldable pub create_and_finalize : ℕ → Option ℕ → Act (Process S) (Unit {0})
  create_and_finalize t context = do
    created ← create_resources t context
    finalize_read t created.read
