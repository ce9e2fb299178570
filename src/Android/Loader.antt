-- ===== src/Android/Loader.antt =====
-- The class loader that src/android/platform.c gives a worklet's thread.
use bare_kit.Prelude.{ℕ, ◌≡◌, refl, false, List, [], ◌∙◌}
use bare_kit.Android.Act.{Returns, returns, and_then, ◌>>=◌}
use bare_kit.Android.Jni.{Jni, View, IsJni}
use bare_kit.Android.Platform.{Process, on_java, peek, unthrown, set_context_class_loader}
use bare_kit.Android.Held.{
  Holds, KeepsBut-Keeps, found-Holds, method-Holds, called-Holds, drop-Holds, none_held,
}

module _ {S : Type 0} (v : View S) (j : Jni S) (t : ℕ) where
  void-Holds :
      {rs gs : List ℕ} {p p' : Process S} (o m a : ℕ)
      → IsJni v j
      → Holds v t rs gs p p'
      → Returns
          (on_java (j.call_void t o m a))
          p'
          (λ _ q. Holds v t rs gs p q × (j.exception_check t q.java ≡ false))
  unfolding on_java
  void-Holds {rs} {gs} {p} {p'} o m a laws h =
      let (k, l, x) = laws.call_void_lem t o m a p'.java in
      returns tt (record p' { java = j.call_void t o m a p'.java }) refl
        (
          record {
            same_vm = h.same_vm;
            kept = KeepsBut-Keeps v h.kept k;
            counts = λ u x. l u x ∙ h.counts u x;
          },
          x,
        )

  unthrown-Holds :
      {rs gs : List ℕ} {p p' : Process S}
      → Holds v t rs gs p p' × (j.exception_check t p'.java ≡ false)
      → Returns (unthrown j t) p' (λ _ q. Holds v t rs gs p q)
  unfolding unthrown peek ◌>>=◌
  unthrown-Holds {rs} {gs} {p} {p'} (h, x) = returns tt p' (rw x refl) h

  pub set_context_class_loader-Returns :
      (p : Process S)
      → IsJni v j
      → Returns (set_context_class_loader j t) p (λ _ q. Holds v t [] [] p q)
  unfolding set_context_class_loader
  set_context_class_loader-Returns p laws =
      and_then _ _ (found-Holds v j t _ (laws.find_class_lem t _ _) (none_held v t p))
        λ thread_class _ h.
          and_then _ _ (method-Holds v j t _ (laws.get_static_method_lem t _ _ _ _) h)
            λ current_thread _ h.
              and_then _ _ (called-Holds v j t _ (laws.call_static_object_lem t _ _ _) h)
                λ thread _ h.
                  and_then _ _ (found-Holds v j t _ (laws.find_class_lem t _ _) h)
                    λ activity_thread_class _ h.
                      and_then _ _ (method-Holds v j t _ (laws.get_static_method_lem t _ _ _ _) h)
                        λ current_application _ h.
                          and_then _ _
                            (called-Holds v j t _ (laws.call_static_object_lem t _ _ _) h)
                            λ application _ h.
                              and_then _ _ (found-Holds v j t _ (laws.get_object_class_lem t _ _) h)
                                λ application_class _ h.
                                  and_then _ _
                                    (method-Holds v j t _ (laws.get_method_lem t _ _ _ _) h)
                                    λ get_class_loader _ h.
                                      and_then _ _
                                        (called-Holds v j t _ (laws.call_object_lem t _ _ _) h)
                                        λ class_loader _ h.
                                          and_then _ _
                                            (method-Holds v j t _ (laws.get_method_lem t _ _ _ _) h)
                                            λ set_loader _ h.
                                              and_then _ _ (void-Holds _ _ _ laws h) λ _ _ h.
                                                and_then _ _ (unthrown-Holds h) λ _ _ h.
                                                  and_then _ _ (drop-Holds v j t laws h) λ _ _ h.
                                                    and_then _ _ (drop-Holds v j t laws h) λ _ _ h.
                                                      and_then _ _ (drop-Holds v j t laws h)
                                                        λ _ _ h.
                                                          and_then _ _ (drop-Holds v j t laws h)
                                                            λ _ _ h.
                                                            and_then _ _ (drop-Holds v j t laws h)
                                                            λ _ _ h. drop-Holds v j t laws h
