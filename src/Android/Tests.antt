-- ===== src/Android/Tests.antt =====
-- A Java VM whose methods all exist, and the code of src/android run on it.
use bare_kit.Prelude.{
  ℕ, ◌+◌, ◌-◌, ◌<◌, ◌≡◌, refl, ap, List, [], ◌∷◌, Bool, false, not, ◌&&◌, ◌||◌, Option, none, some,
  arith, ◌==◌, if◌then◌else◌,
}
use native.Mathlib.Decide.{ℕ_discrete}
use bare_kit.Android.Jni.{Jni, jni_ok, jni_edetached, View, IsJni, Keeps, Entry, one_at, one_of}
use bare_kit.Android.Platform.{Process}
use bare_kit.Android.Resources.{Script, IsScript, create_and_finalize}
use bare_kit.Android.Resources.Balance.{IsBalanced, create_and_finalize-IsBalanced}
use bare_kit.Android.Act.{Returns}
use bare_kit.Android.Platform.{on_thread_enter}
use bare_kit.Android.Context.{At}
use bare_kit.Android.Effects.{enter-At}
use bare_kit.Android.Life.{life, life_balanced, before_teardown}

record Vm : Type 0 where
  threads : ℕ → Bool
  held : ℕ → ℕ → ℕ
  refs : ℕ → ℕ
  shared : List Entry
  next : ℕ

abbrev vm_view : View Vm
vm_view = record {
  attached = λ s. s.threads;
  locals = λ s. s.held;
  globals = λ s. s.refs;
  published = λ s. s.shared;
}

abbrev new_local : ℕ → Vm → Option ℕ × Vm
new_local t s =
    (some s.next, record s { held = λ u x. s.held u x + one_at t s.next u x; next = s.next + 1 })

abbrev new_global : Vm → Option ℕ × Vm
new_global s = (some s.next, record s { refs = λ x. s.refs x + one_of s.next x; next = s.next + 1 })

abbrev vm_jni : Jni Vm
vm_jni = record {
  get_env = λ vm t s. if s.threads t then jni_ok else jni_edetached;
  attach = λ vm t name s. (jni_ok, record s { threads = λ u. u == t || s.threads u });
  detach = λ vm t s. (jni_ok, record s { threads = λ u. not (u == t) && s.threads u });
  find_class = λ t n s. new_local t s;
  get_object_class = λ t o s. new_local t s;
  get_static_method = λ t c n sig s. (some 1, s);
  get_method = λ t c n sig s. (some 1, s);
  call_static_object = λ t c m s. new_local t s;
  call_object = λ t o m s. new_local t s;
  call_void = λ t o m a s. s;
  exception_check = λ t s. false;
  delete_local_ref = λ t r s. record s { held = λ u x. s.held u x - one_at t r u x };
  new_global_ref = λ t o s. new_global s;
  delete_global_ref = λ t r s. record s { refs = λ x. s.refs x - one_of r x };
  context_set = λ k a d s.
      (0, record s { shared = record { key = k; value = a; has_destructor = d } ∷ s.shared });
}

dropped_local :
    (t r u x : ℕ) (s : Vm)
    → 0 < s.held t r
    → s.held u x - one_at t r u x + one_at t r u x ≡ s.held u x
dropped_local t r u x s h = elim (ℕ_discrete u t) [
  | yes p ↦ elim (ℕ_discrete x r) [ yes q ↦ rw (p, q) (ground arith) | no q ↦ ground arith ]
  | no p ↦ ground arith
]

dropped_global : (r x : ℕ) (s : Vm) → 0 < s.refs r → s.refs x - one_of r x + one_of r x ≡ s.refs x
dropped_global r x s h = elim (ℕ_discrete x r) [ yes q ↦ rw q (ground arith) | no q ↦ ground arith ]

same :
    (s s' : Vm)
    → s'.threads ≡ s.threads
    → s'.refs ≡ s.refs
    → s'.shared ≡ s.shared
    → Keeps vm_view s s'
same s s' e g p = record {
  threads = λ u. ap (λ f. f u) e;
  global_refs = λ x. ap (λ f. f x) g;
  entries = p;
}

vm_jni-IsJni : IsJni vm_view vm_jni
vm_jni-IsJni = record {
  get_env_lem = λ vm t s. refl;
  attach_lem = λ vm t name s h. (
    record s { threads = λ u. u == t || s.threads u },
    refl,
    λ u. refl,
    λ x. refl,
    refl,
    λ u x. refl,
  );
  detach_lem = λ vm t s h.
      (record s { threads = λ u. not (u == t) && s.threads u }, refl, λ u. refl, λ x. refl, refl);
  find_class_lem = λ t n s. (s.next, (new_local t s).1, refl, same s _ refl refl refl, λ u x. refl);
  get_object_class_lem =
      λ t o s. (s.next, (new_local t s).1, refl, same s _ refl refl refl, λ u x. refl);
  call_static_object_lem =
      λ t c m s. (s.next, (new_local t s).1, refl, same s _ refl refl refl, λ u x. refl, refl);
  call_object_lem =
      λ t o m s. (s.next, (new_local t s).1, refl, same s _ refl refl refl, λ u x. refl, refl);
  get_static_method_lem = λ t c n sig s. (1, s, refl, same s s refl refl refl, λ u x. refl);
  get_method_lem = λ t c n sig s. (1, s, refl, same s s refl refl refl, λ u x. refl);
  call_void_lem = λ t o m a s. (same s s refl refl refl, λ u x. refl, refl);
  delete_local_ref_lem = λ t r s h. (same s _ refl refl refl, λ u x. dropped_local t r u x s h);
  new_global_ref_lem =
      λ t o s. (s.next, (new_global s).1, refl, λ u. refl, λ x. refl, refl, λ u x. refl);
  delete_global_ref_lem = λ t r s h. (λ u. refl, λ x. dropped_global r x s h, refl, λ u x. refl);
  context_set_lem = λ k a d s. (
    record s { shared = record { key = k; value = a; has_destructor = d } ∷ s.shared },
    refl,
    λ u. refl,
    λ x. refl,
    refl,
  );
}

-- Thread 1 is attached, and nothing is referred to.
abbrev vm : Vm
vm = record { threads = λ u. u == 1; held = λ t x. 0; refs = λ x. 0; shared = []; next = 100 }

abbrev process : Process Vm
process = record { jvm = some 5; java = vm }

life_balanced_example :
    Returns
      (life vm_view vm_jni before_teardown 1 2 3 (record { jvm = none; context = some 9 }))
      process
      (λ _ q.
        (q.jvm ≡ some 5)
        × ((u : ℕ) → vm_view.attached q.java u ≡ vm_view.attached process.java u)
        × ((x : ℕ) → vm_view.globals q.java x ≡ vm_view.globals process.java x))
life_balanced_example =
    life_balanced vm_view vm_jni vm_jni-IsJni before_teardown none 9 1 2 3 process refl refl refl
      refl

enter-At_example : Returns (on_thread_enter vm_jni 2) process (λ _ q.
    At vm_view 5 (λ u. u == 2 || vm.threads u) vm.refs [] q
    × ((u x : ℕ) → vm_view.locals q.java u x ≡ vm_view.locals vm u x))
enter-At_example = enter-At vm_view vm_jni vm_jni-IsJni 2 process-At refl
  where
    process-At : At vm_view 5 vm.threads vm.refs [] process
    process-At = record {
      has_vm = refl;
      has_threads = λ u. refl;
      has_refs = λ x. refl;
      has_entries = refl;
    }

abbrev vm_script : Script Vm
vm_script = record {
  get_null = λ s. (0, s);
  create_string = λ c s. (0, s);
  create_function = λ r m s. (0, s);
  add_finalizer = λ r m s. (0, s);
  get_string_chars = λ t o s. ("/data/code_cache", s);
  release_string_chars = λ t o c s. s;
  manager_from_java = λ t r s. 6;
}

vm_script-IsScript : IsScript vm_view vm_script
vm_script-IsScript = record {
  get_null_lem = λ s. (s, refl, same s s refl refl refl, λ u x. refl);
  create_string_lem = λ c s. (s, refl, same s s refl refl refl, λ u x. refl);
  create_function_lem = λ r m s. (s, refl, same s s refl refl refl, λ u x. refl);
  add_finalizer_lem = λ r m s. (s, refl, same s s refl refl refl, λ u x. refl);
  get_string_chars_lem = λ t o s. (same s s refl refl refl, λ u x. refl);
  release_string_chars_lem = λ t o c s. (same s s refl refl refl, λ u x. refl);
}

create_and_finalize-IsBalanced_example :
    Returns
      (create_and_finalize vm_jni vm_script 1 (some 9))
      process
      (λ _ q. IsBalanced vm_view vm_jni vm_script 1 process q)
create_and_finalize-IsBalanced_example =
    create_and_finalize-IsBalanced vm_view vm_jni vm_script 1 (some 9) process vm_jni-IsJni
      vm_script-IsScript refl refl
