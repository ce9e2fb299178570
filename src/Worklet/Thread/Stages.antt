-- ===== src/Worklet/Thread/Stages.antt =====
-- Each stage of the worklet's thread (src/worklet.c) keeps the invariant of the worklet.
use bare_kit.Prelude.{
  ℕ, ◌≡◌, refl, ap, sym, ◌∙◌, ℤ, Bool, true, false, Option, arith, if◌then◌else◌,
}
use bare_kit.Worklet.State.{State, Shared}
use bare_kit.Worklet.Control.{publish_bare, retire_bare}
use bare_kit.Worklet.Thread.{Phase, Worklet, call_exit, advance_of, thread_advance}
use bare_kit.Worklet.Thread.Steps.{let_go_at, closed_at, bare_at, needs_post, freed_at}
use bare_kit.Worklet.Thread.Invariant.{Inv, exits, hook_count}
use bare_kit.Worklet.Thread.Moves.{
  open_uv-moves, destroy-moves, close-moves, shutdown-moves, exits-publish, call_exit-exits,
}

first_exit :
    (f : Option ℕ) (code : ℤ) (user : ℕ) (s : Shared)
    → exits s.log ≡ 0
    → exits (call_exit f code user s).log ≡ hook_count f
first_exit f code user s h = ground (arith, (call_exit-exits f code user s).0)

stopped-Inv :
    (b : Bool) (w : Worklet)
    → w.posted ≡ b
    → w.phase ≡ Phase.stopped
    → Inv w
    → Inv (if b then record w { phase = Phase.released } else w)
stopped-Inv false w p e v = v
stopped-Inv true w p e v = record {
  kept = v.kept;
  owned = v.owned ∙ ap let_go_at e;
  shut_down = λ f. v.shut_down (ap closed_at e);
  has_bare = v.has_bare ∙ ap bare_at e;
  posts = λ f. p;
  holds = λ f. ((v.holds f).0, λ g. cc);
  frees = v.frees ∙ ap freed_at e;
  exit_calls = v.exit_calls ∙ rw e refl;
}

-- The stages, with what the phase says written out.
advance_of-Inv :
    (p : Phase) (on_signal : ℕ) (code : ℤ) (w : Worklet)
    → w.phase ≡ p
    → Inv w
    → Inv (advance_of p on_signal code w)
unfolding advance_of publish_bare retire_bare
advance_of-Inv Phase.booting on_signal code w e v = record {
  kept = v.kept;
  owned = v.owned ∙ ap let_go_at e;
  shut_down = λ f. cc;
  has_bare = refl;
  posts = λ f. cc;
  holds = λ f. ((v.holds f).0, λ g. cc);
  frees = v.frees ∙ rw e refl;
  exit_calls = ground (arith, v.exit_calls, exits-publish w.shared);
}
advance_of-Inv Phase.loading on_signal code w e v =
    let m = open_uv-moves on_signal 1 w.world (v.owned ∙ ap let_go_at e) v.kept in
    record {
      kept = m.0;
      owned = m.1;
      shut_down = λ f. cc;
      has_bare = v.has_bare ∙ ap bare_at e;
      posts = λ f. cc;
      holds = λ f. ((v.holds f).0, λ g. cc);
      frees = v.frees ∙ rw e refl;
      exit_calls = v.exit_calls ∙ rw e refl;
    }
advance_of-Inv Phase.ready on_signal code w e v = record {
  kept = v.kept;
  owned = v.owned ∙ ap let_go_at e;
  shut_down = λ f. cc;
  has_bare = v.has_bare ∙ ap bare_at e;
  posts = λ f. cc;
  holds = λ f. ((v.holds f).0, λ g. cc);
  frees = v.frees ∙ rw e refl;
  exit_calls = v.exit_calls ∙ rw e refl;
}
advance_of-Inv Phase.running on_signal code w e v = record {
  kept = v.kept;
  owned = v.owned ∙ ap let_go_at e;
  shut_down = λ f. cc;
  has_bare = v.has_bare ∙ ap bare_at e;
  posts = λ f. cc;
  holds = λ f. ((v.holds f).0, λ g. cc);
  frees = v.frees ∙ rw e refl;
  exit_calls = v.exit_calls ∙ rw e refl;
}
advance_of-Inv Phase.finished on_signal code w e v =
    let m = close-moves w.world (v.owned ∙ ap let_go_at e) v.kept in
    record {
      kept = m.0;
      owned = m.2;
      shut_down = λ f. m.1;
      has_bare = v.has_bare ∙ ap bare_at e;
      posts = λ f. cc;
      holds = λ f. ((v.holds f).0, λ g. cc);
      frees = v.frees ∙ rw e refl;
      exit_calls = v.exit_calls ∙ rw e refl;
    }
advance_of-Inv Phase.closed_port on_signal code w e v = record {
  kept = v.kept;
  owned = v.owned ∙ ap let_go_at e;
  shut_down = λ f. v.shut_down (ap closed_at e);
  has_bare = refl;
  posts = λ f. cc;
  holds = λ f. ((v.holds f).0, λ g. cc);
  frees = v.frees ∙ rw e refl;
  exit_calls = ground (arith, v.exit_calls, exits-publish w.shared);
}
advance_of-Inv Phase.retired on_signal code w e v =
    let m = shutdown-moves w.world (v.owned ∙ ap let_go_at e) v.kept in
    record {
      kept = m.0;
      owned = m.2;
      shut_down = λ f. m.1 ∙ v.shut_down (ap closed_at e);
      has_bare = v.has_bare ∙ ap bare_at e;
      posts = λ f. cc;
      holds = λ f. ((v.holds f).0, λ g. cc);
      frees = v.frees ∙ rw e refl;
      exit_calls = v.exit_calls ∙ rw e refl;
    }
advance_of-Inv Phase.shut on_signal code w e v =
    let h = w.shared.state.callbacks.exit in
    let x = call_exit-exits h.fn code h.user w.shared in
    record {
      kept = v.kept;
      owned = v.owned ∙ ap let_go_at e;
      shut_down = λ f. v.shut_down (ap closed_at e);
      has_bare = ap (λ (s : State). s.bare) x.1 ∙ v.has_bare ∙ ap bare_at e;
      posts = λ f. cc;
      holds = λ f. ((v.holds f).0, λ g. cc);
      frees = v.frees ∙ rw e refl;
      exit_calls =
          first_exit h.fn code h.user w.shared (v.exit_calls ∙ rw e refl)
          ∙ ap (λ (s : State). hook_count s.callbacks.exit.fn) (sym x.1);
    }
advance_of-Inv Phase.torn_down on_signal code w e v = record {
  kept = v.kept;
  owned = v.owned ∙ ap let_go_at e;
  shut_down = λ f. v.shut_down (ap closed_at e);
  has_bare = v.has_bare ∙ ap bare_at e;
  posts = λ f. cc;
  holds = λ f. ((v.holds f).0, λ g. cc);
  frees = v.frees ∙ rw e refl;
  exit_calls = v.exit_calls ∙ rw e refl;
}
advance_of-Inv Phase.stopped on_signal code w e v = stopped-Inv w.posted w refl e v
advance_of-Inv Phase.released on_signal code w e v =
    let m = destroy-moves w.world (v.owned ∙ ap let_go_at e) v.kept in
    record {
      kept = m.0;
      owned = m.2;
      shut_down = λ f. m.1 ∙ v.shut_down (ap closed_at e);
      has_bare = v.has_bare ∙ ap bare_at e;
      posts = λ f. v.posts (ap needs_post e);
      holds = λ f. ((v.holds f).0, λ g. cc);
      frees = v.frees ∙ rw e refl;
      exit_calls = v.exit_calls ∙ rw e refl;
    }
advance_of-Inv Phase.let_go on_signal code w e v = record {
  kept = v.kept;
  owned = v.owned ∙ ap let_go_at e;
  shut_down = λ f. v.shut_down (ap closed_at e);
  has_bare = v.has_bare ∙ ap bare_at e;
  posts = λ f. v.posts (ap needs_post e);
  holds = λ f. ((v.holds f).0, λ g. cc);
  frees = refl;
  exit_calls = v.exit_calls ∙ rw e refl;
}
advance_of-Inv Phase.unstarted on_signal code w e v = v
advance_of-Inv Phase.abandoned on_signal code w e v = v
advance_of-Inv Phase.gone on_signal code w e v = v

pub thread_advance-Inv :
    (on_signal : ℕ) (code : ℤ) (w : Worklet) → Inv w → Inv (thread_advance on_signal code w)
unfolding thread_advance
thread_advance-Inv on_signal code w v = advance_of-Inv w.phase on_signal code w refl v
