-- ===== src/Android/Resources/Steps.antt =====
-- The calls of src/android/resources.c, and what they do to the references that the thread holds.
use bare_kit.Prelude.{ℕ, ◌≡◌, refl, ap, ◌∙◌, List, [], ◌∷◌, true, some, arith, if◌then◌else◌}
use Prim.Native.String.{String}
use bare_kit.Android.Act.{Returns, returns, ◌>>=◌}
use bare_kit.Android.Jni.{Jni, View, IsJni, Keeps, SameLocals, jni_ok, jni_edetached}
use bare_kit.Android.Platform.{Process, ask, on_java, peek, the_vm, attached_env, get_env}
use bare_kit.Android.Held.{Holds, KeepsBut-Keeps}
use bare_kit.Android.Resources.{Script, IsScript, Succeeds, checked}

module _ {S : Type 0} (v : View S) (j : Jni S) (k : Script S) (t : ℕ) where
  same-Holds :
      {rs gs : List ℕ} {p p' : Process S} (s : S)
      → Keeps v p'.java s
      → SameLocals v p'.java s
      → Holds v t rs gs p p'
      → Holds v t rs gs p (record p' { java = s })
  same-Holds s e l h = record {
    same_vm = h.same_vm;
    kept = KeepsBut-Keeps v h.kept e;
    counts = λ u x. l u x ∙ h.counts u x;
  }

  pub checked-Holds :
      {rs gs : List ℕ} {p p' : Process S} (f : S → ℕ × S)
      → Succeeds v f p'.java
      → Holds v t rs gs p p'
      → Returns (checked j k f) p' (λ _ q. Holds v t rs gs p q)
  unfolding checked ask ◌>>=◌
  checked-Holds {rs} {gs} {p} {p'} f (s, e, m, l) h =
      returns tt (record p' { java = s }) (rw e refl) (same-Holds s m l h)

  pub chars-Holds :
      {rs gs : List ℕ} {p p' : Process S} (o : ℕ)
      → IsScript v k
      → Holds v t rs gs p p'
      → Returns (ask (k.get_string_chars t o)) p' (λ _ q. Holds v t rs gs p q)
  unfolding ask
  chars-Holds {rs} {gs} {p} {p'} o script h =
      let (m, l) = script.get_string_chars_lem t o p'.java in
      returns (k.get_string_chars t o p'.java).0
        (record p' { java = (k.get_string_chars t o p'.java).1 }) refl (same-Holds _ m l h)

  pub release-Holds :
      {rs gs : List ℕ} {p p' : Process S} (o : ℕ) (c : String)
      → IsScript v k
      → Holds v t rs gs p p'
      → Returns (on_java (k.release_string_chars t o c)) p' (λ _ q. Holds v t rs gs p q)
  unfolding on_java
  release-Holds {rs} {gs} {p} {p'} o c script h =
      let (m, l) = script.release_string_chars_lem t o c p'.java in
      returns tt (record p' { java = k.release_string_chars t o c p'.java }) refl
        (same-Holds _ m l h)

  -- The environment of a thread that is attached.
  pub env-Holds :
      {rs gs : List ℕ} {p p' : Process S} {vm : ℕ}
      → IsJni v j
      → p.jvm ≡ some vm
      → v.attached p.java t ≡ true
      → Holds v t rs gs p p'
      → Returns (get_env j t) p' (λ r q. (r ≡ t) × Holds v t rs gs p q)
  unfolding get_env the_vm attached_env peek ◌>>=◌
  env-Holds {rs} {gs} {p} {p'} {vm} laws c on h =
      returns t p'
        (simp
          (
            h.same_vm ∙ c,
            laws.get_env_lem vm t p'.java
                ∙ ap (λ a. if a then jni_ok else jni_edetached) (h.kept.threads t ∙ on),
          )
          refl)
        (refl, h)

  pub keep-Holds :
      {rs : List ℕ} {p p' : Process S} (o : ℕ)
      → IsJni v j
      → Holds v t rs [] p p'
      → Returns
          (ask (j.new_global_ref t o))
          p'
          (λ r q. (g : ℕ) × (r ≡ some g) × Holds v t rs (g ∷ []) p q)
  unfolding ask
  keep-Holds {rs} {p} {p'} o laws h =
      let (g, s, e, threads, refs, entries, locals) = laws.new_global_ref_lem t o p'.java in
      returns (some g) (record p' { java = s }) (rw e refl)
        (
          g,
          refl,
          record {
            same_vm = h.same_vm;
            kept = record {
              threads = λ u. threads u ∙ h.kept.threads u;
              global_refs = λ x. omega (arith, refs x, h.kept.global_refs x);
              entries = entries ∙ h.kept.entries;
            };
            counts = λ u x. locals u x ∙ h.counts u x;
          },
        )

  pub peek-Holds :
      {A : Type 0} {rs gs : List ℕ} {p p' : Process S} (f : S → A)
      → Holds v t rs gs p p'
      → Returns (peek f) p' (λ _ q. Holds v t rs gs p q)
  unfolding peek
  peek-Holds {A} {rs} {gs} {p} {p'} f h = returns (f p'.java) p' refl h
