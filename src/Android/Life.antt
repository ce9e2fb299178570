-- ===== src/Android/Life.antt =====
-- The application context over the life of a worklet: src/worklet.c calls the functions of
-- src/android/platform.c from the thread that creates it, its own thread and the one that destroys it.
use bare_kit.Prelude.{
  ℕ, ◌+◌, ◌≡◌, refl, ap, ◌∙◌, List, [], ◌∷◌, Bool, true, false, ◌||◌, Option, none, some, arith,
  ◌==◌,
}
use bare_kit.Android.Act.{Act, Returns, returns, and_then, weaken, ◌>>=◌, ◌>>◌, pure}
use bare_kit.Android.Jni.{Jni, View, IsJni, Entry, one_of}
use bare_kit.Android.Platform.{
  Process, AndroidOptions, on_thread_enter, on_thread_exit, retain_context, release_context,
  on_context_destroy, publish_context, adopt,
}
use bare_kit.Android.Context.{At, published_vm, published_context, At-back}
use bare_kit.Android.Effects.{
  enter-At, exit-At, retain-At, destroy-At, publish_context-At, release-At,
}

-- The VM of the process once options are taken up: theirs, if they name one.
abbrev pub chosen : Option ℕ → Option ℕ → Option ℕ
chosen none vm = vm
chosen (some w) vm = some w

pub data When : Type 0 where
  before_teardown before_exit after_exit : When

module _ {S : Type 0} (v : View S) (j : Jni S) where
  abbrev destroy_entry : ℕ → Bool → Option ℕ → Act (Process S) (Unit {0})
  destroy_entry t true (some value) = on_context_destroy j t value
  destroy_entry t true none = pure tt
  destroy_entry t false value = pure tt

  -- The teardown of Bare calls the destructor of each value published, which is passed over if it
  -- is `NULL`, as the deletion of it has no effect.
  unfoldable pub destroy_entries : ℕ → List Entry → Act (Process S) (Unit {0})
  destroy_entries t [] = pure tt
  destroy_entries t (e ∷ es) = do destroy_entry t e.has_destructor e.value; destroy_entries t es

  unfoldable pub tear_down : ℕ → Act (Process S) (Unit {0})
  tear_down t p = destroy_entries t (v.published p.java) p

  abbrev release_at : When → When → ℕ → AndroidOptions → Act (Process S) (Unit {0})
  release_at before_teardown before_teardown t options = release_context j t options
  release_at before_exit before_exit t options = release_context j t options
  release_at after_exit after_exit t options = release_context j t options
  release_at _ _ t options = pure tt

  -- A worklet created on one thread, run on its own and destroyed on a third. The destroy does not
  -- wait for the worklet's thread, so its release of the context comes at some point from there.
  unfoldable pub life : When → ℕ → ℕ → ℕ → AndroidOptions → Act (Process S) (Unit {0})
  life when creator own destroyer options = do
    kept ← retain_context j creator (record { jvm = none; context = none }) options
    on_thread_enter j own
    publish_context j own kept
    release_at when before_teardown destroyer kept
    tear_down own
    release_at when before_exit destroyer kept
    on_thread_exit j own
    release_at when after_exit destroyer kept

  module _ (laws : IsJni v j) {vm : ℕ} where
    At-refs :
        {a : ℕ → Bool} {g g' : ℕ → ℕ} {es : List Entry} {p : Process S}
        → ((x : ℕ) → g x ≡ g' x)
        → At v vm a g es p
        → At v vm a g' es p
    At-refs e h = record {
      has_vm = h.has_vm;
      has_threads = h.has_threads;
      has_refs = λ x. h.has_refs x ∙ e x;
      has_entries = h.has_entries;
    }

    nothing :
        {a : ℕ → Bool} {g : ℕ → ℕ} {es : List Entry} {p : Process S}
        → At v vm a g es p
        → Returns (pure tt) p (λ _ q. At v vm a g es q)
    nothing {a} {g} {es} {p} h = returns tt p refl h

    tear_down-At :
        {a : ℕ → Bool} {g : ℕ → ℕ} {p : Process S} (t k w : ℕ)
        → At v vm a (λ x. g x + one_of k x) (published_context (some k) ∷ published_vm w ∷ []) p
        → a t ≡ true
        → Returns
            (tear_down t)
            p
            (λ _ q. At v vm a g (published_context (some k) ∷ published_vm w ∷ []) q)
    unfolding tear_down destroy_entries
    tear_down-At {a} {g} {p} t k w h e =
        let r : Returns (destroy_entries t entries) p (λ _ q. At v vm a g entries q) =
          and_then _ _ (destroy-At v j laws t k h e)
            λ _ q h. and_then _ _ (nothing h) λ _ q h. nothing h in
        returns r.value r.after (ap (λ es. destroy_entries t es p) h.has_entries ∙ r.returned)
          r.holds
      where
        entries : List Entry
        entries = published_context (some k) ∷ published_vm w ∷ []

    pub release_context-At :
        {a : ℕ → Bool} {g : ℕ → ℕ} {es : List Entry} {p : Process S} (t k : ℕ) (o : Option ℕ)
        → At v vm a (λ x. g x + one_of k x) es p
        → Returns
            (release_context j t (record { jvm = o; context = some k }))
            p
            (λ _ q. At v vm a g es q)
    unfolding release_context
    release_context-At t k o h = release-At v j laws t k h

    adopt-At :
        {a : ℕ → Bool} {g : ℕ → ℕ} {es : List Entry} (o : Option ℕ) (p : Process S)
        → At v vm a g es (record p { jvm = chosen o p.jvm })
        → Returns (adopt j o) p (λ _ q. At v vm a g es q)
    adopt-At none p h = returns tt p refl h
    adopt-At (some w) p h = returns tt (record p { jvm = some w }) refl h

    swap_last :
        {a : ℕ → Bool} (g : ℕ → ℕ) {es : List Entry} {p : Process S} (k m : ℕ)
        → At v vm a (λ x. (g x + one_of k x) + one_of m x) es p
        → At v vm a (λ x. (g x + one_of m x) + one_of k x) es p
    swap_last g k m h = At-refs (λ x. omega arith) h

    rest-Returns :
        {a : ℕ → Bool} {g : ℕ → ℕ} {p : Process S} (when : When) (own destroyer k m : ℕ)
        → At v vm
            (λ u. u == own || a u)
            (λ x. (g x + one_of k x) + one_of m x)
            (published_context (some m) ∷ published_vm vm ∷ [])
            p
        → a own ≡ false
        → Returns
            (do
              release_at when before_teardown destroyer (record { jvm = none; context = some k })
              tear_down own
              release_at when before_exit destroyer (record { jvm = none; context = some k })
              on_thread_exit j own
              release_at when after_exit destroyer (record { jvm = none; context = some k }))
            p
            (λ _ q. At v vm a g (published_context (some m) ∷ published_vm vm ∷ []) q)
    rest-Returns before_teardown own destroyer k m h e =
        and_then _ _ (release_context-At destroyer k none (swap_last _ k m h)) λ _ _ h.
          and_then _ _ (tear_down-At own m vm h (ground arith)) λ _ _ h.
            and_then _ _ (nothing h) λ _ _ h.
              and_then _ _ (exit-At v j laws own h (ground arith))
                λ _ _ h. nothing (At-back v j laws own e h)
    rest-Returns before_exit own destroyer k m h e = and_then _ _ (nothing h) λ _ _ h.
        and_then _ _ (tear_down-At own m vm h (ground arith)) λ _ _ h.
          and_then _ _ (release_context-At destroyer k none h) λ _ _ h.
            and_then _ _ (exit-At v j laws own h (ground arith))
              λ _ _ h. nothing (At-back v j laws own e h)
    rest-Returns after_exit own destroyer k m h e = and_then _ _ (nothing h) λ _ _ h.
        and_then _ _ (tear_down-At own m vm h (ground arith)) λ _ _ h.
          and_then _ _ (nothing h) λ _ _ h.
            and_then _ _ (exit-At v j laws own h (ground arith))
              λ _ _ h. release_context-At destroyer k none (At-back v j laws own e h)

    -- The retained context of options that name no VM, or name one, which then is that of the process.
    retain_context-At :
        {a : ℕ → Bool} {g : ℕ → ℕ} {es : List Entry} {p : Process S} (o : Option ℕ) (t context : ℕ)
        (result : AndroidOptions)
        → At v vm a g es (record p { jvm = chosen o p.jvm })
        → a t ≡ true
        → Returns (retain_context j t result (record { jvm = o; context = some context })) p (λ r q.
          (k : ℕ) × (r ≡ record result { context = some k })
          × At v vm a (λ x. g x + one_of k x) es q)
    unfolding retain_context
    retain_context-At {a} {g} {es} {p} o t context result h e =
        and_then _ _ (adopt-At o p h) λ _ _ h. retain-At v j laws t context result h e

  -- Where the Java VM keeps to its documentation and has the classes and methods looked up, a VM is
  -- known and nothing is published yet, a worklet with a context that is created on a thread
  -- attached to the VM, runs on a thread that is not, and is destroyed on any thread, before its
  -- own thread tears down, before that exits or behind it, meets no failed assert, and leaves every
  -- thread attached or not as it was and every object as often referred to by global references as
  -- it was.
  pub life_balanced :
      {vm : ℕ} (laws : IsJni v j) (when : When) (o : Option ℕ) (context creator own destroyer : ℕ)
      (p : Process S)
      → chosen o p.jvm ≡ some vm
      → v.attached p.java creator ≡ true
      → v.attached p.java own ≡ false
      → v.published p.java ≡ []
      → Returns
          (life when creator own destroyer (record { jvm = o; context = some context }))
          p
          (λ _ q.
            (q.jvm ≡ some vm)
            × ((u : ℕ) → v.attached q.java u ≡ v.attached p.java u)
            × ((x : ℕ) → v.globals q.java x ≡ v.globals p.java x))
  unfolding life
  life_balanced {vm} laws when o context creator own destroyer p c on off new =
      and_then _ _ (retain_context-At laws o creator context _ (start c) on) λ kept _ (k, eq, h).
        rw eq (
          and_then _ _ (enter-At v j laws own h off) λ _ _ (h, _).
            and_then _ _ (publish_context-At v j laws own none k h (ground arith)) λ _ _ (m, h).
              weaken (rest-Returns laws when own destroyer k m h off)
                λ _ q h. (h.has_vm, h.has_threads, h.has_refs))
    where
      start :
          chosen o p.jvm ≡ some vm
          → At v vm (v.attached p.java) (v.globals p.java) [] (record p { jvm = chosen o p.jvm })
      start c = record {
        has_vm = c;
        has_threads = λ u. refl;
        has_refs = λ x. refl;
        has_entries = new;
      }
