-- ===== src/Android/Resources/Balance.antt =====
-- The function that reads resources, as src/android/resources.c makes it, keeps one reference to the
-- asset manager, and its finalizer gives that back.
use bare_kit.Prelude.{
  ℕ, ◌≡◌, refl, ap, ◌∙◌, ◌⊎◌, inl, inr, [], ◌∷◌, true, Option, none, some, arith,
}
use bare_kit.Android.Act.{Returns, returns, and_then, weaken}
use bare_kit.Android.Jni.{Jni, View, IsJni}
use bare_kit.Android.Platform.{Process, on_java}
use bare_kit.Android.Held.{Holds, found-Holds, method-Holds, called-Holds, drop-Holds, none_held}
use bare_kit.Android.Resources.{
  Script, IsScript, Created, create_for, create_resources, on_resources_finalize, finalize_read,
  create_and_finalize,
}
use bare_kit.Android.Resources.Steps.{
  checked-Holds, chars-Holds, release-Holds, env-Holds, keep-Holds, peek-Holds,
}

module _ {S : Type 0} (v : View S) (j : Jni S) (k : Script S) (t : ℕ) where
  -- What is created holds one global reference, if there is a function that reads.
  abbrev HoldsRead : Process S → Created → Process S → Type 0
  HoldsRead p c q =
      (g : ℕ) × (m : ℕ) × (c.read ≡ some (record { assets = some g; manager = m }))
      × Holds v t [] (g ∷ []) p q

  create_for-Holds :
      {p p' : Process S} {vm : ℕ} (context : ℕ)
      → IsJni v j
      → IsScript v k
      → p.jvm ≡ some vm
      → v.attached p.java t ≡ true
      → Holds v t [] [] p p'
      → Returns (create_for j k t (some context)) p' (λ c q. HoldsRead p c q)
  create_for-Holds context laws script c on h =
      and_then _ _ (env-Holds v j k t laws c on h) λ env _ (eq, h). rw eq (
        and_then _ _ (found-Holds v j t _ (laws.get_object_class_lem t _ _) h) λ context_class _ h.
          and_then _ _ (method-Holds v j t _ (laws.get_method_lem t _ _ _ _) h)
            λ get_code_cache_dir _ h.
              and_then _ _ (method-Holds v j t _ (laws.get_method_lem t _ _ _ _) h)
                λ get_assets _ h.
                  and_then _ _ (called-Holds v j t _ (laws.call_object_lem t _ _ _) h) λ dir _ h.
                    and_then _ _ (found-Holds v j t _ (laws.get_object_class_lem t _ _) h)
                      λ file_class _ h.
                        and_then _ _ (method-Holds v j t _ (laws.get_method_lem t _ _ _ _) h)
                          λ get_path _ h.
                            and_then _ _ (called-Holds v j t _ (laws.call_object_lem t _ _ _) h)
                              λ path _ h. and_then _ _ (chars-Holds v j k t _ script h) λ chars _ h.
                                and_then _ _
                                  (checked-Holds v j k t _ (script.create_string_lem _ _) h)
                                  λ _ _ h.
                                    and_then _ _ (release-Holds v j k t _ _ script h) λ _ _ h.
                                      and_then _ _
                                        (called-Holds v j t _ (laws.call_object_lem t _ _ _) h)
                                        λ assets _ h.
                                          and_then _ _ (keep-Holds v j k t _ laws h)
                                            λ kept _ (g, kept_eq, h).
                                              and_then _ _ (peek-Holds v j k t _ h) λ manager _ h.
                                                and_then _ _
                                                  (checked-Holds v j k t _
                                                    (script.create_function_lem _ _ _) h)
                                                  λ _ _ h.
                                                    and_then _ _
                                                      (checked-Holds v j k t _
                                                        (script.add_finalizer_lem _ _ _) h)
                                                      λ _ _ h.
                                                        and_then _ _ (drop-Holds v j t laws h)
                                                          λ _ _ h.
                                                            and_then _ _ (drop-Holds v j t laws h)
                                                            λ _ _ h.
                                                            and_then _ _ (drop-Holds v j t laws h)
                                                            λ _ _ h.
                                                            and_then _ _ (drop-Holds v j t laws h)
                                                            λ _ _ h.
                                                            and_then _ _ (drop-Holds v j t laws h)
                                                            λ _ q h. returns _ q refl (
                                                            g,
                                                            manager,
                                                            ap
                                                            (λ r. some (record {
                                                            assets = r;
                                                            manager = manager;
                                                            }))
                                                            kept_eq,
                                                            h,
                                                            ))

  finalize-Holds :
      {p p' : Process S} {vm : ℕ} (g m : ℕ)
      → IsJni v j
      → p.jvm ≡ some vm
      → v.attached p.java t ≡ true
      → Holds v t [] (g ∷ []) p p'
      → Returns
          (on_resources_finalize j k t (record { assets = some g; manager = m }))
          p'
          (λ _ q. Holds v t [] [] p q)
  unfolding on_resources_finalize on_java
  finalize-Holds g m laws c on h = and_then _ _ (env-Holds v j k t laws c on h) λ env q (eq, h).
      rw eq (
        let (threads, refs, entries, locals) =
          laws.delete_global_ref_lem t g q.java (ground (arith, h.kept.global_refs g)) in
        returns tt (record q { java = j.delete_global_ref t g q.java }) refl
          (record {
            same_vm = h.same_vm;
            kept = record {
              threads = λ u. threads u ∙ h.kept.threads u;
              global_refs = λ x. omega (arith, refs x, h.kept.global_refs x);
              entries = entries ∙ h.kept.entries;
            };
            counts = λ u x. locals u x ∙ h.counts u x;
          }))

  -- Nothing is left over by the thread.
  pub record IsBalanced (p q : Process S) : Type 0 where
    pub same_vm : q.jvm ≡ p.jvm
    pub same_threads : (u : ℕ) → v.attached q.java u ≡ v.attached p.java u
    pub same_locals : (u x : ℕ) → v.locals q.java u x ≡ v.locals p.java u x
    pub same_globals : (x : ℕ) → v.globals q.java x ≡ v.globals p.java x

  none_left : {p q : Process S} → Holds v t [] [] p q → IsBalanced p q
  none_left h = record {
    same_vm = h.same_vm;
    same_threads = h.kept.threads;
    same_locals = λ u x. omega (arith, h.counts u x);
    same_globals = λ x. omega (arith, h.kept.global_refs x);
  }

  abbrev IsCreated : Process S → Created → Process S → Type 0
  IsCreated p c q = ((c.read ≡ none) × Holds v t [] [] p q) ⊎ HoldsRead p c q

  create_for-IsCreated :
      {p p' : Process S} {vm : ℕ} (context : Option ℕ)
      → IsJni v j
      → IsScript v k
      → p.jvm ≡ some vm
      → v.attached p.java t ≡ true
      → Holds v t [] [] p p'
      → Returns (create_for j k t context) p' (λ r q. IsCreated p r q)
  create_for-IsCreated {p} {p'} none laws script c on h = returns _ p' refl (inl (refl, h))
  create_for-IsCreated (some context) laws script c on h =
      weaken (create_for-Holds context laws script c on h) λ _ _ h. inr h

  create_resources-IsCreated :
      {p : Process S} {vm : ℕ} (context : Option ℕ)
      → IsJni v j
      → IsScript v k
      → p.jvm ≡ some vm
      → v.attached p.java t ≡ true
      → Returns (create_resources j k t context) p (λ r q. IsCreated p r q)
  unfolding create_resources
  create_resources-IsCreated {p} context laws script c on =
      and_then _ _ (checked-Holds v j k t _ (script.get_null_lem _) (none_held v t p)) λ _ _ h.
        and_then _ _ (checked-Holds v j k t _ (script.get_null_lem _) h)
          λ _ _ h. create_for-IsCreated context laws script c on h

  finalize_read-IsBalanced :
      {p p' : Process S} {vm : ℕ} (r : Created)
      → IsJni v j
      → p.jvm ≡ some vm
      → v.attached p.java t ≡ true
      → IsCreated p r p'
      → Returns (finalize_read j k t r.read) p' (λ _ q. IsBalanced p q)
  finalize_read-IsBalanced {p} {p'} r laws c on (inl (e, h)) =
      rw e (returns tt p' refl (none_left h))
  finalize_read-IsBalanced r laws c on (inr (g, m, e, h)) =
      rw e (weaken (finalize-Holds g m laws c on h) λ _ _ h. none_left h)

  -- Where the Java VM and the JavaScript engine keep to their documentation, and the VM has the
  -- classes and methods looked up, the resources of a worklet with or without a context are created
  -- and later finalized, on a thread attached to the VM, without a failed assert, and leave every
  -- local and every global reference and every thread as it was.
  pub create_and_finalize-IsBalanced :
      (context : Option ℕ) (p : Process S) {vm : ℕ}
      → IsJni v j
      → IsScript v k
      → p.jvm ≡ some vm
      → v.attached p.java t ≡ true
      → Returns (create_and_finalize j k t context) p (λ _ q. IsBalanced p q)
  unfolding create_and_finalize
  create_and_finalize-IsBalanced context p laws script c on =
      and_then _ _ (create_resources-IsCreated context laws script c on)
        λ r _ h. finalize_read-IsBalanced r laws c on h
