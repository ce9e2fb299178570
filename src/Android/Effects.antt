-- ===== src/Android/Effects.antt =====
-- What each function of src/android/platform.c does to the threads attached to the Java VM, to the
-- global references and to what is published.
use bare_kit.Prelude.{
  Bool-cases, inl, inr, ℕ, ◌+◌, ◌≡◌, refl, ap, ◌∙◌, List, ◌∷◌, Bool, true, false, not, ◌&&◌, ◌||◌,
  Option, none, some, arith, ◌==◌,
}
use bare_kit.Android.Act.{Returns, returns, and_then, weaken, ◌>>=◌}
use bare_kit.Android.Jni.{Jni, View, IsJni, Entry, one_of}
use bare_kit.Android.Platform.{
  Process, AndroidOptions, ask, peek, the_vm, retain, on_thread_enter, on_thread_exit, release,
  on_context_destroy, publish_context,
}
use bare_kit.Android.Loader.{set_context_class_loader-Returns}
use bare_kit.Android.Context.{
  At, published_vm, published_context, ref-At, unref-At, vm-At, env-At, entry-At, status-At,
  attach-At, detach-At, ok-At, pure_ok-At, At-back, attached-env,
}

module _ {S : Type 0} (v : View S) (j : Jni S) (laws : IsJni v j) {vm : ℕ} (t : ℕ) where
  -- A thread that was detached is attached by its entry, and has no local reference left over.
  pub enter-At :
      {a : ℕ → Bool} {g : ℕ → ℕ} {es : List Entry} {p : Process S}
      → At v vm a g es p
      → a t ≡ false
      → Returns (on_thread_enter j t) p (λ _ q.
        At v vm (λ u. u == t || a u) g es q
        × ((u x : ℕ) → v.locals q.java u x ≡ v.locals p.java u x))
  unfolding on_thread_enter the_vm peek ask ◌>>=◌
  enter-At {a} {g} {es} {p} h e =
      let (s, eq, threads, refs, entries, locals) =
        laws.attach_lem vm t (some "bare-worklet") p.java (h.has_threads t ∙ e) in
      let r = set_context_class_loader-Returns v j t (record { jvm = some vm; java = s }) laws in
      returns r.value r.after
        (rw (h.has_vm, attached-env v j laws t p.java (h.has_threads t ∙ e), eq) r.returned)
        (
          record {
            has_vm = r.holds.same_vm;
            has_threads =
                λ u. r.holds.kept.threads u ∙ threads u ∙ ap (λ b. u == t || b) (h.has_threads u);
            has_refs = λ x. omega (arith, r.holds.kept.global_refs x, refs x, h.has_refs x);
            has_entries = r.holds.kept.entries ∙ entries ∙ h.has_entries;
          },
          λ u x. omega (arith, r.holds.counts u x, locals u x),
        )

  pub exit-At :
      {a : ℕ → Bool} {g : ℕ → ℕ} {es : List Entry} {p : Process S}
      → At v vm a g es p
      → a t ≡ true
      → Returns (on_thread_exit j t) p (λ _ q. At v vm (λ u. not (u == t) && a u) g es q)
  unfolding on_thread_exit
  exit-At h e = vm-At v j laws t _ h (
      and_then _ _ (env-At v j laws t h e)
        λ _ _ h. and_then _ _ (detach-At v j laws t h e) λ _ _ h. ok-At v j laws t h)

  -- The copy of the options has a global reference of its own to the context.
  pub retain-At :
      {a : ℕ → Bool} {g : ℕ → ℕ} {es : List Entry} {p : Process S} (context : ℕ)
      (result : AndroidOptions)
      → At v vm a g es p
      → a t ≡ true
      → Returns (retain j t (some context) result) p (λ r q.
        (k : ℕ) × (r ≡ record result { context = some k }) × At v vm a (λ x. g x + one_of k x) es q)
  retain-At {a} {g} {es} {p} context result h e = vm-At v j laws t _ h (
      and_then _ _ (env-At v j laws t h e) λ _ _ h.
        and_then _ _ (ref-At v j laws t context h)
          λ r q (k, eq, h'). returns _ q refl (k, ap (λ r. record result { context = r }) eq, h'))

  pub destroy-At :
      {a : ℕ → Bool} {g : ℕ → ℕ} {es : List Entry} {p : Process S} (r : ℕ)
      → At v vm a (λ x. g x + one_of r x) es p
      → a t ≡ true
      → Returns (on_context_destroy j t r) p (λ _ q. At v vm a g es q)
  unfolding on_context_destroy
  destroy-At r h e =
      vm-At v j laws t _ h (and_then _ _ (env-At v j laws t h e) λ _ _ h. unref-At v j laws t r h)

  pub publish_context-At :
      {a : ℕ → Bool} {g : ℕ → ℕ} {es : List Entry} {p : Process S} (o : Option ℕ) (context : ℕ)
      → At v vm a g es p
      → a t ≡ true
      → Returns (publish_context j t (record { jvm = o; context = some context })) p (λ _ q.
        (k : ℕ) × At v vm a
          (λ x. g x + one_of k x)
          (published_context (some k) ∷ published_vm vm ∷ es)
          q)
  unfolding publish_context
  publish_context-At o context h e = vm-At v j laws t _ h (
      and_then _ _ (entry-At v j laws t _ _ _ h) λ _ _ h.
        and_then _ _ (env-At v j laws t h e) λ _ _ h.
          and_then _ _ (ref-At v j laws t context h)
            λ r q (k, eq, h). weaken (entry-At v j laws t _ r _ h) λ _ _ h. (k, rw eq at h))

  attached_release-At :
      {a : ℕ → Bool} {g : ℕ → ℕ} {es : List Entry} {p : Process S} (r : ℕ)
      → At v vm a (λ x. g x + one_of r x) es p
      → a t ≡ true
      → Returns (release j t (some r)) p (λ _ q. At v vm a g es q)
  attached_release-At r h e = vm-At v j laws t _ h (
      and_then _ _ (status-At v j laws t h e) λ err q (eq, h). rw eq (
        and_then _ _ (pure_ok-At v j laws t h) λ _ _ h.
          and_then _ _ (ok-At v j laws t h)
            λ _ _ h. and_then _ _ (unref-At v j laws t r h) λ _ q h. returns tt q refl h))

  detached_release-At :
      {a : ℕ → Bool} {g : ℕ → ℕ} {es : List Entry} {p : Process S} (r : ℕ)
      → At v vm a (λ x. g x + one_of r x) es p
      → a t ≡ false
      → Returns (release j t (some r)) p (λ _ q. At v vm a g es q)
  detached_release-At r h e = vm-At v j laws t _ h (
      and_then _ _ (status-At v j laws t h e) λ err q (eq, h). rw eq (
        and_then _ _ (attach-At v j laws t none h e) λ _ _ h.
          and_then _ _ (ok-At v j laws t h) λ _ _ h. and_then _ _ (unref-At v j laws t r h) λ _ _ h.
            and_then _ _ (detach-At v j laws t h (ground (arith, e)))
              λ _ _ h. weaken (ok-At v j laws t h) λ _ _ h. At-back v j laws t e h))

  -- A thread is left as it was found, attached or not, and the worklet's reference is gone.
  pub release-At :
      {a : ℕ → Bool} {g : ℕ → ℕ} {es : List Entry} {p : Process S} (r : ℕ)
      → At v vm a (λ x. g x + one_of r x) es p
      → Returns (release j t (some r)) p (λ _ q. At v vm a g es q)
  release-At {a} r h = elim (Bool-cases (a t)) [
    | inl e ↦ attached_release-At r h e
    | inr e ↦ detached_release-At r h e
  ]
