-- ===== src/Apple/Tests.antt =====
-- The code of src/apple/resources.c on an extension in the bundle of its application.
use bare_kit.Apple.Signal.{
  DispatchSignal, merge_data, begin_handler, end_handler, dispatch_set_poll, dispatch_destroy,
  cancel_handler, destroy_waited, DispatchStep, DispatchReach, begins, moves, is_stale,
  dispatch_safe, dispatch_init,
}
use bare_kit.Prelude.{
  true, false, not, ◌&&◌, ℕ, ◌-◌, ◌≡◌, refl, Option, none, some, arith, ◌==◌, if◌then◌else◌,
}
use Prim.Native.String.{String}
use text.Mathlib.Text.{◌==◌ as str_eq}
use bare_kit.Apple.{Foundation, copy_application_url, create_resources, main_url}
use bare_kit.Apple.Climb.{IsFoundation, nearest, ancestors, first_application}
use bare_kit.Apple.Nearest.{copy_application_url-nearest, create_resources-directory}

abbrev extension_at : ℕ → Option String
extension_at u = if u == 3 then some "appex" else if u == 1 then some "app" else none

-- The directories of one path by their depth: `/Bare.app/PlugIns/Share.appex`.
abbrev files : Foundation ℕ ℕ
files = record {
  main_bundle = some 3;
  copy_bundle_url = λ b. some b;
  copy_path_extension = extension_at;
  compare_equal = str_eq;
  copy_deleting_last = λ u. u - 1;
  equal = λ u w. u == w;
  create_bundle = λ u. some u;
  copy_resources_url = λ b. some b;
  copy_absolute_url = λ u. u;
  representation = λ u. some "/Bare.app";
}

abbrev depth : ℕ → ℕ
depth u = u

files-IsFoundation : IsFoundation files depth
files-IsFoundation = record {
  equal_lem = λ u w e. ground (arith, e);
  depth_lem = λ u e. ground (arith, e);
}

application_found : nearest files depth (main_url files files.main_bundle) ≡ some 1
unfolding ancestors first_application
application_found = refl

copy_application_url-nearest_example : copy_application_url files 4 7 ≡ some (some 1, 8)
unfolding ancestors first_application
copy_application_url-nearest_example = copy_application_url-nearest files depth 7 files-IsFoundation

create_resources-directory_example : create_resources files 4 7 ≡ some (some "/Bare.app", 7)
unfolding ancestors first_application
create_resources-directory_example = create_resources-directory files depth 7 files-IsFoundation

-- An ipc with a poll is destroyed while its handler runs on the queue.
abbrev polled : DispatchSignal
polled = record {
  pending = false;
  in_handler = false;
  running = none;
  changed = false;
  cancelled = false;
  cancel_handled = false;
  waiting = false;
  ipc = true;
  poll = none;
  frees = 0;
  misused = false;
  inside = false;
}

abbrev handling : DispatchSignal
handling = begin_handler (merge_data (dispatch_set_poll false (some 7) polled))

abbrev destroyed_signal : DispatchSignal
destroyed_signal = destroy_waited (cancel_handler (end_handler (dispatch_destroy false handling)))

handling-DispatchReach : DispatchReach handling
unfolding dispatch_init merge_data begin_handler dispatch_set_poll
handling-DispatchReach =
    moves
      (moves (moves (begins refl) (DispatchStep.sets false (some 7) refl refl))
        (DispatchStep.merges refl))
      (DispatchStep.handles refl refl refl)

destroyed-DispatchReach : DispatchReach destroyed_signal
unfolding merge_data begin_handler end_handler dispatch_set_poll dispatch_destroy cancel_handler
    destroy_waited
destroyed-DispatchReach =
    moves
      (moves
        (moves (moves handling-DispatchReach (DispatchStep.destroys_outside refl))
          (DispatchStep.returns refl))
        (DispatchStep.cancels refl refl))
      (DispatchStep.ends_wait refl refl)

dispatch_safe_example :
    (destroyed_signal.misused ≡ false)
    × (destroyed_signal.frees ≡ (if destroyed_signal.ipc then 0 else 1))
    × (is_stale destroyed_signal ≡ false)
    × ((destroyed_signal.in_handler && not destroyed_signal.ipc && not destroyed_signal.inside)
        ≡ false)
dispatch_safe_example = dispatch_safe destroyed-DispatchReach
