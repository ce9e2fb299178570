-- ===== src/Android/Held.antt =====
-- The local references of src/android that a thread holds for a while, the last created first.
use bare_kit.Prelude.{ℕ, ◌+◌, ◌≡◌, refl, ◌∙◌, List, [], ◌∷◌, Option, arith}
use bare_kit.Android.Act.{Returns, returns, ◌>>=◌}
use bare_kit.Android.Jni.{Jni, View, IsJni, Keeps, Creates, LooksUp, Calls, one_at, one_of}
use bare_kit.Android.Platform.{Process, ask, on_java, peek, unthrown, found, called}

abbrev pub held : ℕ → List ℕ → ℕ → ℕ → ℕ
held t [] u x = 0
held t (r ∷ rs) u x = one_at t r u x + held t rs u x

-- How often an object is among the global references listed.
abbrev pub counted : List ℕ → ℕ → ℕ
counted [] x = 0
counted (r ∷ gs) x = one_of r x + counted gs x

module _ {S : Type 0} (v : View S) where
  -- Only local references differ, and the global ones that are listed are new.
  pub record KeepsBut (gs : List ℕ) (s s' : S) : Type 0 where
    pub threads : (u : ℕ) → v.attached s' u ≡ v.attached s u
    pub global_refs : (x : ℕ) → v.globals s' x ≡ v.globals s x + counted gs x
    pub entries : v.published s' ≡ v.published s

  -- What a thread that set out at `p` has come to, with the references `rs` on top of those before,
  -- and the global references `gs`.
  pub record Holds (t : ℕ) (rs gs : List ℕ) (p p' : Process S) : Type 0 where
    pub same_vm : p'.jvm ≡ p.jvm
    pub kept : KeepsBut gs p.java p'.java
    pub counts : (u x : ℕ) → v.locals p'.java u x ≡ v.locals p.java u x + held t rs u x

  pub KeepsBut-Keeps : {gs : List ℕ} {a b c : S} → KeepsBut gs a b → Keeps v b c → KeepsBut gs a c
  KeepsBut-Keeps k l = record {
    threads = λ u. l.threads u ∙ k.threads u;
    global_refs = λ x. l.global_refs x ∙ k.global_refs x;
    entries = l.entries ∙ k.entries;
  }

  pub none_held : (t : ℕ) (p : Process S) → Holds t [] [] p p
  none_held t p = record {
    same_vm = refl;
    kept = record { threads = λ u. refl; global_refs = λ x. omega arith; entries = refl };
    counts = λ u x. omega arith;
  }

  module _ (j : Jni S) (t : ℕ) {rs gs : List ℕ} {p p' : Process S} where
    pub found-Holds :
        (f : S → Option ℕ × S)
        → Creates v t f p'.java
        → Holds t rs gs p p'
        → Returns (found j f) p' (λ r q. Holds t (r ∷ rs) gs p q)
    unfolding found ask ◌>>=◌
    found-Holds f (r, s, e, k, l) h =
        returns r (record p' { java = s }) (rw e refl)
          (record {
            same_vm = h.same_vm;
            kept = KeepsBut-Keeps h.kept k;
            counts = λ u x. omega (arith, l u x, h.counts u x);
          })

    pub method-Holds :
        (f : S → Option ℕ × S)
        → LooksUp v f p'.java
        → Holds t rs gs p p'
        → Returns (found j f) p' (λ m q. Holds t rs gs p q)
    unfolding found ask ◌>>=◌
    method-Holds f (m, s, e, k, l) h =
        returns m (record p' { java = s }) (rw e refl)
          (record {
            same_vm = h.same_vm;
            kept = KeepsBut-Keeps h.kept k;
            counts = λ u x. l u x ∙ h.counts u x;
          })

    pub called-Holds :
        (f : S → Option ℕ × S)
        → Calls v j t f p'.java
        → Holds t rs gs p p'
        → Returns (called j t f) p' (λ r q. Holds t (r ∷ rs) gs p q)
    unfolding called unthrown peek ask ◌>>=◌
    called-Holds f (r, s, e, k, l, x) h =
        returns r (record p' { java = s }) (rw (e, x) refl)
          (record {
            same_vm = h.same_vm;
            kept = KeepsBut-Keeps h.kept k;
            counts = λ u x. omega (arith, l u x, h.counts u x);
          })

    pub drop-Holds :
        {r : ℕ}
        → IsJni v j
        → Holds t (r ∷ rs) gs p p'
        → Returns (on_java (j.delete_local_ref t r)) p' (λ _ q. Holds t rs gs p q)
    unfolding on_java
    drop-Holds {r} laws h =
        let d = laws.delete_local_ref_lem t r p'.java (ground (arith, h.counts t r)) in
        returns tt (record p' { java = j.delete_local_ref t r p'.java }) (refl)
          (record {
            same_vm = h.same_vm;
            kept = KeepsBut-Keeps h.kept d.0;
            counts = λ u x. omega (arith, d.1 u x, h.counts u x);
          })
