-- ===== src/Hover/Tests.antt =====
-- Runs of the hover session, and its theorems at concrete histories.
use scrub_tub.Base.{ℕ, ◌≡◌, refl, true, false, none, some, List, [], ◌∷◌, pos, minus_one, codes}
use scrub_tub.Hover.{
  Session, Env, Event, Message, EventName, Status, initial, set_status, arm_idle_shutdown,
  set_idle_shutdown_ms, cleanup_mpv, fail_mpv, send_command, load_source, start_mpv, start_seek,
  issue_seek, clamp_target, show_frame, read_frame, on_stopped, on_frame_time, ask_frame_time,
  on_event, on_message, read_messages, forget_source, stop_player, disengage, begin_loading,
  engage_mpv, take_source, engage, move_target, scrub, set_enabled, idle_fires, step, run,
}
use scrub_tub.Hover.Invariant.{IsSound}
use scrub_tub.Hover.History.{run-IsSound}
use scrub_tub.Hover.Control.{is_position, is_between, scrub-latest_target}
use scrub_tub.Hover.Left.{is_left, disengage-run}

program : Unit {0}
unfolding set_status arm_idle_shutdown set_idle_shutdown_ms cleanup_mpv fail_mpv send_command
    load_source start_mpv start_seek issue_seek clamp_target show_frame read_frame on_stopped
    on_frame_time ask_frame_time on_event on_message read_messages forget_source stop_player
    disengage begin_loading engage_mpv take_source engage move_target scrub set_enabled idle_fires
    step run
program = tt

abbrev at : ℕ → Env
at t = record {
  write_ok = true;
  now = t;
  dir_valid = true;
  image = some (record { width = 320; height = 180; pixels = 9 });
}

abbrev reply : ℕ → Message
reply n = record {
  request = some n;
  event = EventName.no_event;
  success = true;
  entry = minus_one;
  data_entry = pos 1;
  is_error = false;
  time_pos = some (pos 480);
}

abbrev event : EventName → Message
event e = record {
  request = none;
  event = e;
  success = false;
  entry = pos 1;
  data_entry = minus_one;
  is_error = false;
  time_pos = none;
}

-- A clip is engaged, the player connects, loads it and delivers its first frame.
abbrev history : List (Env × Event)
history =
    (at 0, Event.engages 7 1 (codes "/clips/a.mp4") (pos 9000) (pos 500))
    ∷ (at 10, Event.connects)
    ∷ (at 20, Event.reads ((at 20, reply 1) ∷ (at 20, reply 2) ∷ []))
    ∷ (
      at 30,
      Event.reads (
          (at 30, event EventName.start_file)
          ∷ (at 30, event EventName.file_loaded)
          ∷ (at 30, event EventName.playback_restart)
          ∷ (at 90, reply 3)
          ∷ []),
    )
    ∷ []

abbrev playing : Session
playing = run history (initial (codes "mpv"))

shown : (playing.status ≡ Status.ready) × (playing.delivered_pts ≡ pos 480)
unfolding program
shown = (refl, refl)

run-IsSound_example : IsSound (run history (initial (codes "mpv")))
run-IsSound_example = run-IsSound history (codes "mpv")

-- What was on its way when the source was left: a frame, timers, and the pointer.
abbrev late : List (Env × Event)
late =
    (
      at 110,
      Event.reads (
          (at 110, event EventName.file_loaded)
          ∷ (at 110, event EventName.playback_restart)
          ∷ (at 110, reply 3)
          ∷ []),
    )
    ∷ (at 120, Event.settles)
    ∷ (at 130, Event.scrubs (pos 700))
    ∷ []

disengage-run_example :
    (is_left (run late (disengage (at 100) playing)) ≡ true)
    × (((run late (disengage (at 100) playing)).sent ≡ (disengage (at 100) playing).sent)
        × ((run late (disengage (at 100) playing)).emitted ≡ (disengage (at 100) playing).emitted))
disengage-run_example = disengage-run (at 100) late playing refl

scrub-latest_target_example :
    (is_position playing.duration_ms (scrub (at 100) (pos 9900) playing).latest_target ≡ true)
    × (is_position playing.duration_ms (pos 8000) ≡ true
        → is_between (pos 9900) (scrub (at 100) (pos 9900) playing).latest_target (pos 8000) ≡ true)
unfolding program
scrub-latest_target_example =
    scrub-latest_target (at 100) (pos 9900) (pos 8000) playing refl refl refl
