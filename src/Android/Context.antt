-- ===== src/Android/Context.antt =====
-- The calls of src/android/platform.c on the Java VM, and what they do to the threads attached to it,
-- to the global references and to what is published.
use bare_kit.Prelude.{
  ℕ, ◌+◌, ◌≡◌, refl, ap, ◌∙◌, List, ◌∷◌, Bool, true, false, not, ◌&&◌, ◌||◌, Option, some, arith,
  ◌==◌, if◌then◌else◌,
}
use Prim.Native.String.{String}
use native.Mathlib.Decide.{ℕ_discrete}
use bare_kit.Android.Act.{Act, Returns, returns, ◌>>=◌, assert, pure, follow, non_null}
use bare_kit.Android.Jni.{Jni, Status, View, IsJni, Entry, one_of, jni_ok, jni_edetached, is_ok}
use bare_kit.Android.Platform.{Process, ask, on_java, peek, the_vm, attached_env, set_context}

abbrev pub published_vm : ℕ → Entry
published_vm vm = record { key = "bare.android.jvm.v1"; value = some vm; has_destructor = false }

abbrev pub published_context : Option ℕ → Entry
published_context r = record { key = "bare.android.context.v1"; value = r; has_destructor = true }

module _ {S : Type 0} (v : View S) where
  -- The VM of the process, the threads attached to it, how often each object is referred to, and
  -- what is published.
  pub record At (vm : ℕ) (threads : ℕ → Bool) (refs : ℕ → ℕ) (entries : List Entry) (p : Process S)
      : Type 0 where
    pub has_vm : p.jvm ≡ some vm
    pub has_threads : (u : ℕ) → v.attached p.java u ≡ threads u
    pub has_refs : (x : ℕ) → v.globals p.java x ≡ refs x
    pub has_entries : v.published p.java ≡ entries

  module _ (j : Jni S) (laws : IsJni v j) {vm : ℕ} (t : ℕ) where
    pub attached-env :
        {a : Bool} (s : S)
        → v.attached s t ≡ a
        → j.get_env vm t s ≡ (if a then jni_ok else jni_edetached)
    attached-env s e = laws.get_env_lem vm t s ∙ ap (λ a. if a then jni_ok else jni_edetached) e

    -- An object newly referred to is counted once more.
    pub ref-At :
        {a : ℕ → Bool} {g : ℕ → ℕ} {es : List Entry} {p : Process S} (o : ℕ)
        → At vm a g es p
        → Returns
            (ask (j.new_global_ref t o))
            p
            (λ r q. (k : ℕ) × (r ≡ some k) × At vm a (λ x. g x + one_of k x) es q)
    unfolding ask
    ref-At {a} {g} {es} {p} o h =
        let (r, s, eq, threads, refs, entries, _) = laws.new_global_ref_lem t o p.java in
        returns (some r) (record p { java = s }) (rw eq refl)
          (
            r,
            refl,
            record {
              has_vm = h.has_vm;
              has_threads = λ u. threads u ∙ h.has_threads u;
              has_refs = λ x. refs x ∙ ap (λ n. n + one_of r x) (h.has_refs x);
              has_entries = entries ∙ h.has_entries;
            },
          )

    pub unref-At :
        {a : ℕ → Bool} {g : ℕ → ℕ} {es : List Entry} {p : Process S} (r : ℕ)
        → At vm a (λ x. g x + one_of r x) es p
        → Returns (on_java (j.delete_global_ref t r)) p (λ _ q. At vm a g es q)
    unfolding on_java
    unref-At {a} {g} {es} {p} r h =
        let (threads, refs, entries, _) =
          laws.delete_global_ref_lem t r p.java (ground (arith, h.has_refs r)) in
        returns tt (record p { java = j.delete_global_ref t r p.java }) refl
          (record {
            has_vm = h.has_vm;
            has_threads = λ u. threads u ∙ h.has_threads u;
            has_refs = λ x. omega (arith, refs x, h.has_refs x);
            has_entries = entries ∙ h.has_entries;
          })

    pub vm-At :
        {B : Type 0} {Q : B → Process S → Type 0} {a : ℕ → Bool} {g : ℕ → ℕ} {es : List Entry}
        {p : Process S} (k : ℕ → Act (Process S) B)
        → At vm a g es p
        → Returns (k vm) p Q
        → Returns (the_vm >>= k) p Q
    unfolding the_vm ◌>>=◌
    vm-At {B} {Q} {a} {g} {es} {p} k h r =
        returns r.value r.after (ap (λ x. follow (non_null x p) k) h.has_vm ∙ r.returned) r.holds

    pub env-At :
        {a : ℕ → Bool} {g : ℕ → ℕ} {es : List Entry} {p : Process S}
        → At vm a g es p
        → a t ≡ true
        → Returns (attached_env j vm t) p (λ _ q. At vm a g es q)
    unfolding attached_env peek ◌>>=◌
    env-At {a} {g} {es} {p} h e =
        returns tt p (rw (attached-env p.java (h.has_threads t ∙ e)) refl) h

    pub entry-At :
        {a : ℕ → Bool} {g : ℕ → ℕ} {es : List Entry} {p : Process S} (key : String)
        (value : Option ℕ) (d : Bool)
        → At vm a g es p
        → Returns
            (set_context j key value d)
            p
            (λ _ q. At vm a g (record { key = key; value = value; has_destructor = d } ∷ es) q)
    unfolding set_context ask ◌>>=◌
    entry-At {a} {g} {es} {p} key value d h =
        let (s, eq, threads, refs, entries) = laws.context_set_lem key value d p.java in
        returns tt (record p { java = s }) (rw eq refl)
          (record {
            has_vm = h.has_vm;
            has_threads = λ u. threads u ∙ h.has_threads u;
            has_refs = λ x. refs x ∙ h.has_refs x;
            has_entries =
                entries
                ∙ ap (λ l. record { key = key; value = value; has_destructor = d } ∷ l)
                    h.has_entries;
          })

    pub status-At :
        {a : ℕ → Bool} {g : ℕ → ℕ} {es : List Entry} {p : Process S} {b : Bool}
        → At vm a g es p
        → a t ≡ b
        → Returns
            (peek (j.get_env vm t))
            p
            (λ err q. (err ≡ (if b then jni_ok else jni_edetached)) × At vm a g es q)
    unfolding peek
    status-At {a} {g} {es} {p} h e =
        returns (j.get_env vm t p.java) p refl (attached-env p.java (h.has_threads t ∙ e), h)

    pub attach-At :
        {a : ℕ → Bool} {g : ℕ → ℕ} {es : List Entry} {p : Process S} (name : Option String)
        → At vm a g es p
        → a t ≡ false
        → Returns
            (ask (j.attach vm t name))
            p
            (λ err q. (err ≡ jni_ok) × At vm (λ u. u == t || a u) g es q)
    unfolding ask
    attach-At {a} {g} {es} {p} name h e =
        let (s, eq, threads, refs, entries, _) =
          laws.attach_lem vm t name p.java (h.has_threads t ∙ e) in
        returns jni_ok (record p { java = s }) (rw eq refl)
          (
            refl,
            record {
              has_vm = h.has_vm;
              has_threads = λ u. threads u ∙ ap (λ b. u == t || b) (h.has_threads u);
              has_refs = λ x. refs x ∙ h.has_refs x;
              has_entries = entries ∙ h.has_entries;
            },
          )

    pub detach-At :
        {a : ℕ → Bool} {g : ℕ → ℕ} {es : List Entry} {p : Process S}
        → At vm a g es p
        → a t ≡ true
        → Returns
            (ask (j.detach vm t))
            p
            (λ err q. (err ≡ jni_ok) × At vm (λ u. not (u == t) && a u) g es q)
    unfolding ask
    detach-At {a} {g} {es} {p} h e =
        let (s, eq, threads, refs, entries) = laws.detach_lem vm t p.java (h.has_threads t ∙ e) in
        returns jni_ok (record p { java = s }) (rw eq refl)
          (
            refl,
            record {
              has_vm = h.has_vm;
              has_threads = λ u. threads u ∙ ap (λ b. not (u == t) && b) (h.has_threads u);
              has_refs = λ x. refs x ∙ h.has_refs x;
              has_entries = entries ∙ h.has_entries;
            },
          )

    pub ok-At :
        {a : ℕ → Bool} {g : ℕ → ℕ} {es : List Entry} {p : Process S} {err : Status}
        → (err ≡ jni_ok) × At vm a g es p
        → Returns (assert (is_ok err)) p (λ _ q. At vm a g es q)
    ok-At {a} {g} {es} {p} (e, h) = returns tt p (rw e refl) h

    pub pure_ok-At :
        {a : ℕ → Bool} {g : ℕ → ℕ} {es : List Entry} {p : Process S}
        → At vm a g es p
        → Returns (pure jni_ok) p (λ err q. (err ≡ jni_ok) × At vm a g es q)
    pure_ok-At {a} {g} {es} {p} h = returns jni_ok p refl (refl, h)

    -- A thread that was attached for a while and is detached again is as it was.
    pub At-back :
        {a : ℕ → Bool} {g : ℕ → ℕ} {es : List Entry} {p : Process S}
        → a t ≡ false
        → At vm (λ u. not (u == t) && (u == t || a u)) g es p
        → At vm a g es p
    At-back {a} e h = record {
      has_vm = h.has_vm;
      has_threads = λ u. h.has_threads u ∙ back u;
      has_refs = h.has_refs;
      has_entries = h.has_entries;
    }
      where
        back : (u : ℕ) → (not (u == t) && (u == t || a u)) ≡ a u
        back u = elim (ℕ_discrete u t) [ yes q ↦ rw q (ground (arith, e)) | no ne ↦ ground arith ]
