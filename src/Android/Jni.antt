-- ===== src/Android/Jni.antt =====
-- The Java VM, its Native Interface and the contexts of Bare, which src/android/platform.c and
-- src/android/resources.c call, as parameters with what their documentation says.
use bare_kit.Prelude.{
  ℕ, ◌+◌, ◌<◌, ◌≡◌, List, ◌∷◌, Bool, true, false, not, ◌&&◌, ◌||◌, Option, some, ◌==◌,
  if◌then◌else◌,
}
use Prim.Native.String.{String}

-- `JNI_OK`, `JNI_EDETACHED` and the other codes.
pub data Status : Type 0 where
  jni_ok jni_edetached jni_error : Status

abbrev pub is_ok : Status → Bool
is_ok jni_ok = true
is_ok _ = false

abbrev pub is_edetached : Status → Bool
is_edetached jni_edetached = true
is_edetached _ = false

-- A value published to addons under a key, and whether the destructor of contexts goes with it.
pub record Entry : Type 0 where
  pub key : String
  pub value : Option ℕ
  pub has_destructor : Bool

-- The functions called, on a state of the VM. A thread stands for its `JNIEnv`; references and
-- method ids are numbers, and `none` is `NULL`.
pub record Jni (S : Type 0) : Type 0 where
  pub get_env : ℕ → ℕ → S → Status
  pub attach : ℕ → ℕ → Option String → S → Status × S
  pub detach : ℕ → ℕ → S → Status × S
  pub find_class : ℕ → String → S → Option ℕ × S
  pub get_object_class : ℕ → ℕ → S → Option ℕ × S
  pub get_static_method : ℕ → ℕ → String → String → S → Option ℕ × S
  pub get_method : ℕ → ℕ → String → String → S → Option ℕ × S
  pub call_static_object : ℕ → ℕ → ℕ → S → Option ℕ × S
  pub call_object : ℕ → ℕ → ℕ → S → Option ℕ × S
  pub call_void : ℕ → ℕ → ℕ → ℕ → S → S
  pub exception_check : ℕ → S → Bool
  pub delete_local_ref : ℕ → ℕ → S → S
  pub new_global_ref : ℕ → ℕ → S → Option ℕ × S
  pub delete_global_ref : ℕ → ℕ → S → S
  pub context_set : String → Option ℕ → Bool → S → ℕ × S

-- What there is to see of a state: the threads attached, how often each thread and the process
-- refer to an object, and what is published.
pub record View (S : Type 0) : Type 0 where
  pub attached : S → ℕ → Bool
  pub locals : S → ℕ → ℕ → ℕ
  pub globals : S → ℕ → ℕ
  pub published : S → List Entry

-- One for the given reference of the given thread, and zero for the others.
abbrev pub one_at : ℕ → ℕ → ℕ → ℕ → ℕ
one_at t r u x = if u == t && x == r then 1 else 0

abbrev pub one_of : ℕ → ℕ → ℕ
one_of r x = if x == r then 1 else 0

module _ {S : Type 0} (v : View S) where
  -- The states differ in local references at most.
  pub record Keeps (s s' : S) : Type 0 where
    pub threads : (u : ℕ) → v.attached s' u ≡ v.attached s u
    pub global_refs : (x : ℕ) → v.globals s' x ≡ v.globals s x
    pub entries : v.published s' ≡ v.published s

  abbrev pub SameLocals : S → S → Type 0
  SameLocals s s' = (u x : ℕ) → v.locals s' u x ≡ v.locals s u x

  -- The call gives a local reference of the thread to an object.
  abbrev pub Creates : ℕ → (S → Option ℕ × S) → S → Type 0
  Creates t f s =
      (r : ℕ) × (s' : S) × (f s ≡ (some r, s'))
      × Keeps s s'
      × ((u x : ℕ) → v.locals s' u x ≡ v.locals s u x + one_at t r u x)

  -- The call of a Java method that returns an object and raises no exception.
  abbrev pub Calls : Jni S → ℕ → (S → Option ℕ × S) → S → Type 0
  Calls j t f s =
      (r : ℕ) × (s' : S) × (f s ≡ (some r, s'))
      × Keeps s s'
      × ((u x : ℕ) → v.locals s' u x ≡ v.locals s u x + one_at t r u x)
      × (j.exception_check t s' ≡ false)

  -- The call gives a method id, which is no reference.
  abbrev pub LooksUp : (S → Option ℕ × S) → S → Type 0
  LooksUp f s = (m : ℕ) × (s' : S) × (f s ≡ (some m, s')) × Keeps s s' × SameLocals s s'

  -- Where the classes and methods exist and the methods return objects, and no exception is raised.
  pub record IsJni (j : Jni S) : Type 0 where
    pub get_env_lem :
        (vm t : ℕ) (s : S) → j.get_env vm t s ≡ (if v.attached s t then jni_ok else jni_edetached)
    pub attach_lem :
        (vm t : ℕ) (name : Option String) (s : S)
        → v.attached s t ≡ false
        → (s' : S) × (j.attach vm t name s ≡ (jni_ok, s'))
          × ((u : ℕ) → v.attached s' u ≡ (u == t || v.attached s u))
          × ((x : ℕ) → v.globals s' x ≡ v.globals s x)
          × (v.published s' ≡ v.published s)
          × SameLocals s s'
    pub detach_lem :
        (vm t : ℕ) (s : S)
        → v.attached s t ≡ true
        → (s' : S) × (j.detach vm t s ≡ (jni_ok, s'))
          × ((u : ℕ) → v.attached s' u ≡ (not (u == t) && v.attached s u))
          × ((x : ℕ) → v.globals s' x ≡ v.globals s x)
          × (v.published s' ≡ v.published s)
    pub find_class_lem : (t : ℕ) (n : String) (s : S) → Creates t (j.find_class t n) s
    pub get_object_class_lem : (t o : ℕ) (s : S) → Creates t (j.get_object_class t o) s
    pub call_static_object_lem : (t c m : ℕ) (s : S) → Calls j t (j.call_static_object t c m) s
    pub call_object_lem : (t o m : ℕ) (s : S) → Calls j t (j.call_object t o m) s
    pub get_static_method_lem :
        (t c : ℕ) (n sig : String) (s : S) → LooksUp (j.get_static_method t c n sig) s
    pub get_method_lem : (t c : ℕ) (n sig : String) (s : S) → LooksUp (j.get_method t c n sig) s
    pub call_void_lem :
        (t o m a : ℕ) (s : S)
        → Keeps s (j.call_void t o m a s)
          × SameLocals s (j.call_void t o m a s)
          × (j.exception_check t (j.call_void t o m a s) ≡ false)
    pub delete_local_ref_lem :
        (t r : ℕ) (s : S)
        → 0 < v.locals s t r
        → Keeps s (j.delete_local_ref t r s)
          × ((u x : ℕ) → v.locals (j.delete_local_ref t r s) u x + one_at t r u x ≡ v.locals s u x)
    pub new_global_ref_lem :
        (t o : ℕ) (s : S)
        → (r : ℕ) × (s' : S) × (j.new_global_ref t o s ≡ (some r, s'))
          × ((u : ℕ) → v.attached s' u ≡ v.attached s u)
          × ((x : ℕ) → v.globals s' x ≡ v.globals s x + one_of r x)
          × (v.published s' ≡ v.published s)
          × SameLocals s s'
    pub delete_global_ref_lem :
        (t r : ℕ) (s : S)
        → 0 < v.globals s r
        → ((u : ℕ) → v.attached (j.delete_global_ref t r s) u ≡ v.attached s u)
          × ((x : ℕ) → v.globals (j.delete_global_ref t r s) x + one_of r x ≡ v.globals s x)
          × (v.published (j.delete_global_ref t r s) ≡ v.published s)
          × SameLocals s (j.delete_global_ref t r s)
    pub context_set_lem :
        (k : String) (a : Option ℕ) (d : Bool) (s : S)
        → (s' : S) × (j.context_set k a d s ≡ (0, s'))
          × ((u : ℕ) → v.attached s' u ≡ v.attached s u)
          × ((x : ℕ) → v.globals s' x ≡ v.globals s x)
          × (v.published s' ≡ record { key = k; value = a; has_destructor = d } ∷ v.published s)
