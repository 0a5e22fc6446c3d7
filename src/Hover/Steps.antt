-- ===== src/Hover/Steps.antt =====
-- Every event keeps the invariant of the hover session, so it holds after any history.
use scrub_tub.Base.{
  is_empty, ◌∙◌, ℕ, ◌≡◌, inl, inr, refl, Bool, true, false, ◌&&◌, ◌||◌, not, Option, none, some,
  arith, ◌==◌, is_some, ℤ, pos, eq_ℤ, leb_ℤ, Text, Bool-cases,
}
use scrub_tub.Hover.{
  Session, Env, Status, Backend, Image, Message, EventName, is_mpv, is_connected, is_active,
  eq_status, is_unusable, set_status, arm_idle_shutdown, cleanup_mpv, fail_mpv, send_command,
  load_source, start_mpv, clamp_target, show_frame, read_frame, move_target, forget_source,
  stop_player, take_source, begin_loading, Emitted, on_stopped, on_frame_time, ask_frame_time,
  on_event, disengage, engage_mpv, engage, scrub, answers, is_event,
}
use scrub_tub.Hover.Invariant.{
  IsSound, InStream, is_fresh, is_unloaded, set_status-IsSound, arm_idle_shutdown-IsSound,
  fail_mpv-IsSound, emits-IsSound, load_source-IsSound, start_mpv-IsSound, issue_seek-IsSound,
}

clamp_target-InStream : (d t : ℤ) → InStream d (clamp_target d t)
unfolding clamp_target
clamp_target-InStream d t = ground arith

module _ (s : Session) (v : IsSound s) where
  show_frame-IsSound :
      (pts : ℤ) (frame : Option Image)
      → is_active s ≡ true
      → s.in_flight ≡ false
      → is_unusable frame ≡ false
      → IsSound (show_frame pts frame s)
  unfolding show_frame set_status
  show_frame-IsSound pts none a i u = cc
  show_frame-IsSound pts (some img) a i u = record {
    watched = ground (arith, v.watched);
    framed = ground (arith, v.framed);
    ready_frame = ground (arith, v.ready_frame);
    told = ground (arith, v.told);
    targeted = ground (arith, v.targeted);
    owned = ground (arith, v.owned);
    barred = ground (arith, v.barred);
    offline = ground (arith, v.offline);
  }

  pub on_stopped-IsSound :
      (env : Env) → is_connected s.link ≡ true → s.stop_request ≡ none → IsSound (on_stopped env s)
  unfolding on_stopped send_command
  on_stopped-IsSound env c n = record {
    watched = ground (arith, v.watched);
    framed = ground (arith, v.framed);
    ready_frame = ground (arith, v.ready_frame);
    told = ground (arith, v.told);
    targeted = ground (arith, v.targeted);
    owned = ground (arith, v.owned);
    barred = ground (arith, v.barred);
    offline = ground (arith, v.offline);
  }

  move_target-IsSound : (t : ℤ) → InStream s.duration_ms t → IsSound (move_target t s)
  unfolding move_target set_status
  move_target-IsSound t i = record {
    watched = ground (arith, v.watched);
    framed = ground (arith, v.framed);
    ready_frame = ground arith;
    told = ground arith;
    targeted = ground arith;
    owned = ground (arith, v.owned);
    barred = ground (arith, v.barred);
    offline = ground (arith, v.offline);
  }

  stop_player-IsSound : (env : Env) → is_fresh s ≡ true → IsSound (stop_player env s)
  unfolding stop_player send_command
  stop_player-IsSound env f = record {
    watched = ground (arith, v.watched);
    framed = ground (arith, v.framed);
    ready_frame = ground (arith, v.ready_frame);
    told = ground (arith, v.told);
    targeted = ground (arith, v.targeted);
    owned = ground (arith, v.owned);
    barred = ground (arith, v.barred);
    offline = ground (arith, v.offline);
  }

  ask_frame_time-IsSound : (env : Env) → IsSound (ask_frame_time env s)
  unfolding ask_frame_time send_command
  ask_frame_time-IsSound env = record {
    watched = ground (arith, v.watched);
    framed = ground (arith, v.framed);
    ready_frame = ground (arith, v.ready_frame);
    told = ground (arith, v.told);
    targeted = ground (arith, v.targeted);
    owned = ground (arith, v.owned);
    barred = ground (arith, v.barred);
    offline = ground (arith, v.offline);
  }

-- Whatever the status was, it is "idle" right after the source is forgotten.
forgotten : (s : Session) → IsSound s → IsSound (set_status Status.idle (forget_source s))
unfolding forget_source set_status
forgotten s v = record {
  watched = ground arith;
  framed = ground arith;
  ready_frame = ground arith;
  told = ground arith;
  targeted = ground arith;
  owned = ground (arith, v.owned);
  barred = ground (arith, v.barred);
  offline = ground (arith, v.offline);
}

forgotten_fresh : (s : Session) → is_fresh (set_status Status.idle (forget_source s)) ≡ true
unfolding forget_source set_status
forgotten_fresh s = ground arith

stop_player-set_status :
    (env : Env) (st : Status) (s : Session)
    → set_status st (stop_player env s) ≡ stop_player env (set_status st s)
unfolding stop_player set_status send_command
stop_player-set_status env st s = elim (Bool-cases (eq_status s.status st)) [
  | inl same ↦ ground (arith, same)
  | inr other ↦ elim (Bool-cases (is_connected s.link)) [
    | inl up ↦ elim (Bool-cases env.write_ok) [
      | inl good ↦ ground (arith, other, up, good)
      | inr bad ↦ ground (arith, other, up, bad)
    ]
    | inr down ↦ ground (arith, other, down)
  ]
]

pub disengage-IsSound : (env : Env) (s : Session) → IsSound s → IsSound (disengage env s)
unfolding disengage
disengage-IsSound env s v = emits-IsSound Emitted.frame_changed _ refl (
    arm_idle_shutdown-IsSound _ (
      rw (stop_player-set_status env Status.idle (forget_source s))
        (stop_player-IsSound _ (forgotten s v) env (forgotten_fresh s))))

-- Right after the session was left nothing is in flight and no source is engaged.
pub disengage_flags :
    (env : Env) (s : Session)
    → ((disengage env s).in_flight ≡ false) × ((disengage env s).backend ≡ Backend.no_backend)
unfolding disengage stop_player forget_source set_status arm_idle_shutdown send_command
disengage_flags env s = (ground arith, ground arith)

take_source-IsSound :
    (v r : ℕ) (d t : ℤ) (s : Session)
    → IsSound s
    → s.backend ≡ Backend.no_backend
    → IsSound (take_source v r d t s)
unfolding take_source
take_source-IsSound n r d t s v b = record {
  watched = λ h. cc;
  framed = ground (arith, v.framed);
  ready_frame = ground (arith, v.ready_frame, v.framed);
  told = ground (arith, v.told, v.framed);
  targeted = λ h. cc;
  owned = v.owned;
  barred = ground (arith, v.barred);
  offline = v.offline;
}

begin_loading-IsSound :
    (path : Text) (s : Session)
    → IsSound s
    → InStream s.duration_ms s.latest_target
    → s.in_flight ≡ false
    → IsSound (begin_loading path s)
unfolding begin_loading set_status
begin_loading-IsSound path s v i f = record {
  watched = ground arith;
  framed = ground (arith, v.framed);
  ready_frame = ground arith;
  told = ground arith;
  targeted = ground arith;
  owned = ground (arith, v.owned);
  barred = ground (arith, v.barred);
  offline = ground (arith, v.offline);
}

read_frame-IsSound :
    (env : Env) (pts : ℤ) (s : Session) → IsSound s → IsSound (read_frame env pts s)
unfolding read_frame
read_frame-IsSound env pts s v = elim (Bool-cases (not (is_active s) || not s.has_dir)) [
  | inl e ↦ rw (e, read_frame) v
  | inr e ↦ elim (Bool-cases (is_unusable env.image)) [
    | inl bad ↦ rw (e, bad, read_frame) (fail_mpv-IsSound s v)
    | inr good ↦
        rw (e, good, read_frame)
          (issue_seek-IsSound _
            (show_frame-IsSound (record s { timeout = false; in_flight = false })
              (record {
                watched = λ h. cc;
                framed = v.framed;
                ready_frame = v.ready_frame;
                told = v.told;
                targeted = v.targeted;
                owned = v.owned;
                barred = ground (arith, v.barred);
                offline = v.offline;
              })
              pts env.image (ground arith) refl good)
            env)
  ]
]

on_frame_time-IsSound :
    (env : Env) (b : Bool) (pts : Option ℤ) (s : Session)
    → IsSound s
    → IsSound (on_frame_time env b pts s)
unfolding on_frame_time
on_frame_time-IsSound env true (some pts) s v = read_frame-IsSound env pts s v
on_frame_time-IsSound env true none s v = fail_mpv-IsSound s v
on_frame_time-IsSound env false pts s v = fail_mpv-IsSound s v

taken_target :
    (n r : ℕ) (d t : ℤ) (s : Session)
    → InStream (take_source n r d t s).duration_ms (take_source n r d t s).latest_target
unfolding take_source
taken_target n r d t s = clamp_target-InStream d t

taken_idle : (n r : ℕ) (d t : ℤ) (s : Session) → (take_source n r d t s).in_flight ≡ false
unfolding take_source
taken_idle n r d t s = refl

begin_loading_flags :
    (path : Text) (s : Session) → s.in_flight ≡ false → (begin_loading path s).in_flight ≡ false
unfolding begin_loading set_status
begin_loading_flags path s h = ground arith

armed_duration : (s : Session) → (arm_idle_shutdown s).duration_ms ≡ s.duration_ms
unfolding arm_idle_shutdown
armed_duration s = ground arith

set_status_fresh : (st : Status) (s : Session) → is_fresh (set_status st s) ≡ is_fresh s
unfolding set_status
set_status_fresh st s = ground arith

arm_fresh : (s : Session) → is_fresh (arm_idle_shutdown s) ≡ is_fresh s
unfolding arm_idle_shutdown
arm_fresh s = ground arith

stop_player_fresh : (env : Env) (s : Session) → is_fresh (stop_player env s) ≡ is_fresh s
unfolding stop_player send_command
stop_player_fresh env s = ground arith

disengage_fresh : (env : Env) (s : Session) → is_fresh (disengage env s) ≡ true
unfolding disengage
disengage_fresh env s =
    arm_fresh (set_status Status.idle (stop_player env (forget_source s)))
    ∙ rw (stop_player-set_status env Status.idle (forget_source s))
        (stop_player_fresh env (set_status Status.idle (forget_source s)) ∙ forgotten_fresh s)

taken_unloaded :
    (n r : ℕ) (d t : ℤ) (s : Session)
    → is_fresh s ≡ true
    → is_unloaded (take_source n r d t s) ≡ true
unfolding take_source
taken_unloaded n r d t s h = ground arith

loading_fresh :
    (path : Text) (s : Session)
    → s.in_flight ≡ false
    → is_unloaded s ≡ true
    → is_fresh (begin_loading path s) ≡ true
unfolding begin_loading set_status
loading_fresh path s f h = ground arith

cleanup_fresh : (s : Session) → s.in_flight ≡ false → is_fresh (cleanup_mpv s) ≡ true
unfolding cleanup_mpv
cleanup_fresh s h = ground arith

fail_fresh : (s : Session) → s.in_flight ≡ false → is_fresh (fail_mpv s) ≡ true
unfolding fail_mpv cleanup_mpv set_status
fail_fresh s h = ground arith

start_fresh :
    (env : Env) (s : Session)
    → s.in_flight ≡ false
    → is_fresh s ≡ true
    → is_fresh (start_mpv env s) ≡ true
unfolding start_mpv arm_idle_shutdown
start_fresh env s f h = ground (arith, fail_fresh (record s { has_dir = true }) f)

pub engage-IsSound :
    (env : Env) (n r : ℕ) (path : Text) (d t : ℤ) (s : Session)
    → IsSound s
    → IsSound (engage env n r path d t s)
unfolding engage engage_mpv
engage-IsSound env n r path d t s v =
    let gone = disengage env s in
    let w : IsSound gone = disengage-IsSound env s v in
    let taken = take_source n r d t gone in
    let x : IsSound taken = take_source-IsSound n r d t gone w (disengage_flags env s).1 in
    elim (Bool-cases (not gone.enabled || is_empty path)) [
      | inl off ↦ rw (off, engage) (set_status-IsSound _ w Status.unavailable refl)
      | inr on ↦ elim (Bool-cases (is_empty taken.mpv_path)) [
        | inl missing ↦ rw (on, missing, engage) (set_status-IsSound _ x Status.unavailable refl)
        | inr present ↦
            rw (on, present, engage)
              (loading taken x (taken_target n r d t gone) (taken_idle n r d t gone)
                (taken_unloaded n r d t gone (disengage_fresh env s)))
      ]
    ]
  where
    loading :
        (q : Session)
        → IsSound q
        → InStream q.duration_ms q.latest_target
        → q.in_flight ≡ false
        → is_unloaded q ≡ true
        → IsSound (load_source env (arm_idle_shutdown (start_mpv env (begin_loading path q))))
    loading q x i f u =
        load_source-IsSound _
          (arm_idle_shutdown-IsSound _
            (start_mpv-IsSound _ (begin_loading-IsSound path q x i f) env))
          env
          (arm_fresh (start_mpv env (begin_loading path q))
            ∙ start_fresh env (begin_loading path q) (begin_loading_flags path q f)
                (loading_fresh path q f u))

pub scrub-IsSound : (env : Env) (t : ℤ) (s : Session) → IsSound s → IsSound (scrub env t s)
unfolding scrub
scrub-IsSound env t s v =
    let armed = arm_idle_shutdown s in
    let w : IsSound armed = arm_idle_shutdown-IsSound s v in
    elim (Bool-cases (not s.enabled || (s.video_id == 0 || leb_ℤ s.duration_ms (pos 0)))) [
      | inl off ↦ rw (off, scrub) v
      | inr on ↦
          elim (Bool-cases (
            not (is_mpv armed.backend)
            || eq_ℤ armed.latest_target (clamp_target s.duration_ms t))) [
              | inl same ↦ rw (on, same, scrub) w
              | inr moved ↦
                  rw (on, moved, scrub)
                    (issue_seek-IsSound _
                      (move_target-IsSound armed w (clamp_target s.duration_ms t)
                        (rw (armed_duration s) (clamp_target-InStream s.duration_ms t)))
                      env)
            ]
    ]

module _ (s : Session) (v : IsSound s) where
  -- The invariant reads none of the fields that a message or a timer sets here.
  playing-IsSound : (f : ℤ) → IsSound (record s { playing_file = f })
  playing-IsSound f = record {
    watched = v.watched;
    framed = v.framed;
    ready_frame = v.ready_frame;
    told = v.told;
    targeted = v.targeted;
    owned = v.owned;
    barred = v.barred;
    offline = v.offline;
  }

  loaded-IsSound :
      (leb_ℤ (pos 0) s.expected_file && eq_ℤ s.playing_file s.expected_file) ≡ true
      → IsSound (record s { loaded = true })
  loaded-IsSound h = record {
    watched = v.watched;
    framed = v.framed;
    ready_frame = v.ready_frame;
    told = v.told;
    targeted = v.targeted;
    owned = v.owned;
    barred = ground (arith, v.barred);
    offline = ground (arith, v.offline);
  }

  frame_request-IsSound : IsSound (record s { frame_request = none })
  frame_request-IsSound = record {
    watched = v.watched;
    framed = v.framed;
    ready_frame = v.ready_frame;
    told = v.told;
    targeted = v.targeted;
    owned = v.owned;
    barred = v.barred;
    offline = v.offline;
  }

  pub on_event-IsSound : (env : Env) (m : Message) → IsSound (on_event env m s)
  unfolding on_event
  on_event-IsSound env m = elim (Bool-cases (is_event m.event EventName.start_file)) [
    | inl a ↦ rw (a, on_event) (playing-IsSound m.entry)
    | inr a ↦
        elim (Bool-cases (
          is_event m.event EventName.file_loaded
          && (leb_ℤ (pos 0) s.expected_file && eq_ℤ s.playing_file s.expected_file))) [
            | inl b ↦ rw (a, b, on_event) (loaded-IsSound (ground arith))
            | inr b ↦
                elim (Bool-cases (
                  is_event m.event EventName.playback_restart
                  && (s.loaded && (s.in_flight && not (is_some s.frame_request))))) [
                    | inl c ↦ rw (a, b, c, on_event) (ask_frame_time-IsSound s v env)
                    | inr c ↦ elim (Bool-cases (answers m.request s.frame_request)) [
                      | inl d ↦
                          rw (a, b, c, d, on_event)
                            (on_frame_time-IsSound env m.success m.time_pos _ frame_request-IsSound)
                      | inr d ↦
                          elim (Bool-cases (
                            (answers m.request s.seek_request && not m.success)
                            || (is_event m.event EventName.end_file
                                && (leb_ℤ (pos 0) s.expected_file
                                    && (eq_ℤ m.entry s.expected_file && m.is_error))))) [
                                      | inl e ↦ rw (a, b, c, d, e, on_event) (fail_mpv-IsSound s v)
                                      | inr e ↦ rw (a, b, c, d, e, on_event) v
                                    ]
                    ]
                  ]
          ]
  ]
