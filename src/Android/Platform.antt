-- ===== src/Android/Platform.antt =====
-- src/android/platform.c: the Java VM of the process, the threads attached to it, and the
-- application context that a worklet retains, publishes and releases.
use bare_kit.Prelude.{ℕ, Bool, true, false, not, Option, none, some, ◌==◌}
use Prim.Native.String.{String}
use bare_kit.Android.Act.{Act, pure, ◌>>=◌, ◌>>◌, assert, non_null}
use bare_kit.Android.Jni.{Jni, Status, is_ok, is_edetached}

-- `bare_kit__jvm`, and the state of the VM.
pub record Process (S : Type 0) : Type 0 where
  pub jvm : Option ℕ
  pub java : S

-- `platform.android` of `bare_worklet_options_t`
pub record AndroidOptions : Type 0 where
  pub jvm : Option ℕ
  pub context : Option ℕ

-- `JNI_VERSION_1_6`
abbrev pub jni_version_1_6 : ℕ
jni_version_1_6 = 65542

module _ {S : Type 0} where
  unfoldable pub on_load : ℕ → Act (Process S) ℕ
  on_load vm p = some (jni_version_1_6, record p { jvm = some vm })

  unfoldable pub ask : {A : Type 0} → (S → A × S) → Act (Process S) A
  ask f p = let (a, s) = f p.java in some (a, record p { java = s })

  unfoldable pub on_java : (S → S) → Act (Process S) (Unit {0})
  on_java f p = some (tt, record p { java = f p.java })

  unfoldable pub peek : {A : Type 0} → (S → A) → Act (Process S) A
  peek f p = some (f p.java, p)

  -- `JavaVM *vm = bare_kit__jvm; assert(vm != NULL)`
  unfoldable pub the_vm : Act (Process S) ℕ
  the_vm p = non_null p.jvm p

module _ {S : Type 0} (j : Jni S) where
  -- `assert(!ExceptionCheck(env))`
  unfoldable pub unthrown : ℕ → Act (Process S) (Unit {0})
  unthrown t = do thrown ← peek (j.exception_check t); assert (not thrown)

  -- A lookup, and `assert(... != NULL)`.
  unfoldable pub found : (S → Option ℕ × S) → Act (Process S) ℕ
  found f = do r ← ask f; non_null r

  -- A method call, and the asserts that it returned an object and no exception.
  unfoldable pub called : ℕ → (S → Option ℕ × S) → Act (Process S) ℕ
  called t f = do o ← ask f; r ← non_null o; unthrown t; pure r

  -- `GetEnv`, and the assert that the thread is attached.
  unfoldable pub attached_env : ℕ → ℕ → Act (Process S) (Unit {0})
  attached_env vm t = do err ← peek (j.get_env vm t); assert (is_ok err)

  -- `bare_context_set`, and the assert that it succeeds.
  unfoldable pub set_context : String → Option ℕ → Bool → Act (Process S) (Unit {0})
  set_context key value d = do err ← ask (j.context_set key value d); assert (err == 0)

  unfoldable pub set_context_class_loader : ℕ → Act (Process S) (Unit {0})
  set_context_class_loader t = do
    thread_class ← found (j.find_class t "java/lang/Thread")
    current_thread ←
        found (j.get_static_method t thread_class "currentThread" "()Ljava/lang/Thread;")
    thread ← called t (j.call_static_object t thread_class current_thread)
    activity_thread_class ← found (j.find_class t "android/app/ActivityThread")
    current_application ← found (
        j.get_static_method t activity_thread_class "currentApplication"
          "()Landroid/app/Application;")
    application ← called t (j.call_static_object t activity_thread_class current_application)
    application_class ← found (j.get_object_class t application)
    get_class_loader ←
        found (j.get_method t application_class "getClassLoader" "()Ljava/lang/ClassLoader;")
    class_loader ← called t (j.call_object t application get_class_loader)
    set_loader ←
        found (j.get_method t thread_class "setContextClassLoader" "(Ljava/lang/ClassLoader;)V")
    on_java (j.call_void t thread set_loader class_loader)
    unthrown t
    on_java (j.delete_local_ref t class_loader)
    on_java (j.delete_local_ref t application_class)
    on_java (j.delete_local_ref t application)
    on_java (j.delete_local_ref t activity_thread_class)
    on_java (j.delete_local_ref t thread)
    on_java (j.delete_local_ref t thread_class)

  unfoldable pub on_thread_enter : ℕ → Act (Process S) (Unit {0})
  on_thread_enter t = do
    vm ← the_vm
    env ← peek (j.get_env vm t)
    assert (is_edetached env)
    err ← ask (j.attach vm t (some "bare-worklet"))
    assert (is_ok err)
    set_context_class_loader t

  unfoldable pub on_thread_exit : ℕ → Act (Process S) (Unit {0})
  on_thread_exit t = do
    vm ← the_vm
    attached_env vm t
    err ← ask (j.detach vm t)
    assert (is_ok err)

  -- The environment of an attached thread, which stands for it.
  unfoldable pub get_env : ℕ → Act (Process S) ℕ
  get_env t = do vm ← the_vm; attached_env vm t; pure t

  abbrev pub adopt : Option ℕ → Act (Process S) (Unit {0})
  adopt none p = some (tt, p)
  adopt (some vm) p = some (tt, record p { jvm = some vm })

  abbrev pub retain : ℕ → Option ℕ → AndroidOptions → Act (Process S) AndroidOptions
  retain t none result = pure result
  retain t (some context) result = do
    vm ← the_vm
    attached_env vm t
    r ← ask (j.new_global_ref t context)
    pure (record result { context = r })

  -- The result is the worklet's own options, with the context it keeps.
  unfoldable pub retain_context :
      ℕ → AndroidOptions → AndroidOptions → Act (Process S) AndroidOptions
  retain_context t result options = do adopt options.jvm; retain t options.context result

  abbrev attach_if : Bool → ℕ → ℕ → Status → Act (Process S) Status
  attach_if true vm t err = ask (j.attach vm t none)
  attach_if false vm t err = pure err

  abbrev detach_if : Bool → ℕ → ℕ → Act (Process S) (Unit {0})
  detach_if true vm t = do err ← ask (j.detach vm t); assert (is_ok err)
  detach_if false vm t = pure tt

  abbrev pub release : ℕ → Option ℕ → Act (Process S) (Unit {0})
  release t none = pure tt
  release t (some context) = do
    vm ← the_vm
    env ← peek (j.get_env vm t)
    err ← attach_if (is_edetached env) vm t env
    assert (is_ok err)
    on_java (j.delete_global_ref t context)
    detach_if (is_edetached env) vm t

  unfoldable pub release_context : ℕ → AndroidOptions → Act (Process S) (Unit {0})
  release_context t options = release t options.context

  -- A destructor of contexts, called with the value published. No virtual machine is a crash here.
  unfoldable pub on_context_destroy : ℕ → ℕ → Act (Process S) (Unit {0})
  on_context_destroy t value = do
    vm ← the_vm
    attached_env vm t
    on_java (j.delete_global_ref t value)

  abbrev pub publish : ℕ → Option ℕ → ℕ → Act (Process S) (Unit {0})
  publish t none vm = pure tt
  publish t (some context) vm = do
    attached_env vm t
    r ← ask (j.new_global_ref t context)
    set_context "bare.android.context.v1" r true

  unfoldable pub publish_context : ℕ → AndroidOptions → Act (Process S) (Unit {0})
  publish_context t options = do
    vm ← the_vm
    set_context "bare.android.jvm.v1" (some vm) false
    publish t options.context vm
