-- ===== src/Hover/Left.antt =====
-- What can still happen to the hover session behind `disengage`: late replies, timers, the socket.
use scrub_tub.Base.{
  ◌≡◌, ◌∙◌, refl, Bool, true, false, ◌&&◌, ◌||◌, not, ℕ, Option, none, some, List, [], ◌∷◌, arith,
  all, ℤ, pos, ltb_ℤ, leb_ℤ, eq_ℤ, ◌==◌, is_some, if◌then◌else◌, inl, inr, Bool-cases,
}
use scrub_tub.Hover.{
  Session, Env, Event, Message, Status, is_mpv, is_active, eq_status, arm_idle_shutdown, scrub,
  disengage, stop_player, forget_source, set_status, send_command, issue_seek, start_mpv,
  set_idle_shutdown_ms, cleanup_mpv, fail_mpv, load_source, on_stopped, on_event, on_message,
  read_messages, idle_fires, step, run, answers, is_absent, is_event, Link, EventName,
}

-- Nothing of a source is left in the session, and no request but the one to stop.
abbrev pub is_left : Session → Bool
is_left s =
    not (is_mpv s.backend)
    && (s.video_id == 0
        && (not (is_some s.last_frame)
            && (not s.in_flight
                && (not s.loaded
                    && (not (is_some s.load_request)
                        && (not (is_some s.frame_request)
                            && (not (is_some s.seek_request)
                                && (ltb_ℤ s.expected_file (pos 0)
                                    && eq_status s.status Status.idle))))))))

-- The session is still left, and has neither sent a command nor told anything.
record IsQuiet (s s' : Session) : Type 0 where
  left : is_left s' ≡ true
  sent : s'.sent ≡ s.sent
  emitted : s'.emitted ≡ s.emitted

disengage-is_left : (env : Env) (s : Session) → is_left (disengage env s) ≡ true
unfolding disengage stop_player forget_source set_status arm_idle_shutdown send_command
disengage-is_left env s = ground arith

module _ (s : Session) (h : is_left s ≡ true) where
  same : IsQuiet s s
  same = record { left = h; sent = refl; emitted = refl }

  fail-IsQuiet : IsQuiet s (fail_mpv s)
  unfolding fail_mpv cleanup_mpv
  fail-IsQuiet = record { left = ground arith; sent = ground arith; emitted = ground arith }

  -- No field that counts here is written.
  touched :
      (stop : Option ℕ) (playing : ℤ) (timers settle exact coalesce fails : Bool)
      → IsQuiet s (record s {
        stop_request = stop;
        playing_file = playing;
        timeout = timers;
        settle_timer = settle;
        want_exact = exact;
        coalesce_timer = coalesce;
        fail_scheduled = fails;
      })
  touched a b c d e f g = record { left = h; sent = refl; emitted = refl }

  inactive : is_active s ≡ false
  inactive = ground arith

  unloaded : s.loaded ≡ false
  unloaded = ground arith

  unexpected : leb_ℤ (pos 0) s.expected_file ≡ false
  unexpected = ground arith

answers_none : (a b : Option ℕ) → is_some b ≡ false → answers a b ≡ false
answers_none none b h = refl
answers_none (some x) none h = refl
answers_none (some x) (some y) h = cc

then-IsQuiet : (s t u : Session) → IsQuiet s t → IsQuiet t u → IsQuiet s u
then-IsQuiet s t u q r = record {
  left = r.left;
  sent = r.sent ∙ q.sent;
  emitted = r.emitted ∙ q.emitted;
}

if-IsQuiet :
    (s : Session) (b : Bool) (x y : Session)
    → IsQuiet s x
    → IsQuiet s y
    → IsQuiet s (if b then x else y)
if-IsQuiet s true x y f g = f
if-IsQuiet s false x y f g = g

case-IsQuiet :
    (s : Session) (b : Bool) (x y : Session)
    → (b ≡ true → IsQuiet s x)
    → (b ≡ false → IsQuiet s y)
    → IsQuiet s (if b then x else y)
case-IsQuiet s true x y f g = f refl
case-IsQuiet s false x y f g = g refl

on_event-IsQuiet :
    (env : Env) (m : Message) (s : Session) → is_left s ≡ true → IsQuiet s (on_event env m s)
unfolding on_event
on_event-IsQuiet env m s h =
    let no_file = unexpected s h in
    let no_source = unloaded s h in
    let no_frame : answers m.request s.frame_request ≡ false =
      answers_none m.request s.frame_request (ground arith) in
    case-IsQuiet s (is_event m.event EventName.start_file) _ _
      (λ a.
        touched s h s.stop_request m.entry s.timeout s.settle_timer s.want_exact s.coalesce_timer
          s.fail_scheduled)
      (λ a.
        case-IsQuiet s
          (is_event m.event EventName.file_loaded
            && (leb_ℤ (pos 0) s.expected_file && eq_ℤ s.playing_file s.expected_file))
          _ _ (λ b. absurd (ground (arith, no_file)))
          (λ b.
            case-IsQuiet s
              (is_event m.event EventName.playback_restart
                && (s.loaded && (s.in_flight && not (is_some s.frame_request))))
              _ _ (λ c. absurd (ground (arith, no_source)))
              (λ c.
                case-IsQuiet s (answers m.request s.frame_request) _ _
                  (λ d. absurd (ground (arith, no_frame)))
                  (λ d. if-IsQuiet s _ (fail_mpv s) s (fail-IsQuiet s h) (same s h)))))

stopped-IsQuiet :
    (env : Env) (b : Bool) (s : Session)
    → is_left s ≡ true
    → IsQuiet s (if b then on_stopped env s else fail_mpv s)
unfolding on_stopped
stopped-IsQuiet env true s h = rw (inactive s h, on_stopped) (same s h)
stopped-IsQuiet env false s h = fail-IsQuiet s h

on_message-IsQuiet :
    (env : Env) (m : Message) (s : Session) → is_left s ≡ true → IsQuiet s (on_message env m s)
unfolding on_message
on_message-IsQuiet env m s h =
    let no_load : answers m.request s.load_request ≡ false =
      answers_none m.request s.load_request (ground arith) in
    elim (Bool-cases (answers m.request s.stop_request)) [
      | inl a ↦
          let passed = record s { stop_request = none; timeout = false } in
          rw (a, on_message)
            (then-IsQuiet s passed _
              (touched s h none s.playing_file false s.settle_timer s.want_exact s.coalesce_timer
                s.fail_scheduled)
              (stopped-IsQuiet env m.success passed h))
      | inr a ↦ rw (a, no_load, on_message) (on_event-IsQuiet env m s h)
    ]

read_messages-IsQuiet :
    (ms : List (Env × Message)) (s : Session) → is_left s ≡ true → IsQuiet s (read_messages ms s)
unfolding read_messages
read_messages-IsQuiet [] s h = same s h
read_messages-IsQuiet ((env, m) ∷ ms) s h =
    let q = on_message-IsQuiet env m s h in
    if-IsQuiet s (is_absent s.link) s _ (same s h) (
      then-IsQuiet s (on_message env m s) _ q
        (read_messages-IsQuiet ms (on_message env m s) q.left))

issue_seek-IsQuiet : (env : Env) (s : Session) → is_left s ≡ true → IsQuiet s (issue_seek env s)
unfolding issue_seek
issue_seek-IsQuiet env s h =
    let refused : is_mpv s.backend ≡ false = ground arith in rw (refused, issue_seek) (same s h)

cleanup-IsQuiet : (s : Session) → is_left s ≡ true → IsQuiet s (cleanup_mpv s)
unfolding cleanup_mpv
cleanup-IsQuiet s h = record { left = ground arith; sent = refl; emitted = refl }

idle_fires-IsQuiet : (s : Session) → is_left s ≡ true → IsQuiet s (idle_fires s)
unfolding idle_fires cleanup_mpv
idle_fires-IsQuiet s h =
    rw (inactive s h, idle_fires) (record { left = ground arith; sent = refl; emitted = refl })

arm-IsQuiet : (s : Session) → is_left s ≡ true → IsQuiet s (arm_idle_shutdown s)
unfolding arm_idle_shutdown
arm-IsQuiet s h =
    if-IsQuiet s _ s (record s { idle_timer = true }) (same s h)
      (record { left = h; sent = refl; emitted = refl })

start_mpv-IsQuiet : (env : Env) (s : Session) → is_left s ≡ true → IsQuiet s (start_mpv env s)
unfolding start_mpv
start_mpv-IsQuiet env s h =
    let up = record s {
      has_dir = true;
      link = Link.unconnected;
      process = true;
      connect_timer = true;
      timeout = true;
    } in
    let half = record s { has_dir = true } in
    let up_quiet : IsQuiet s up = record { left = h; sent = refl; emitted = refl } in
    let half_quiet : IsQuiet s half = record { left = h; sent = refl; emitted = refl } in
    if-IsQuiet s _ s _ (same s h) (
      if-IsQuiet s env.dir_valid _ _ (then-IsQuiet s up _ up_quiet (arm-IsQuiet up h))
        (then-IsQuiet s half _ half_quiet (fail-IsQuiet half h)))

load_source-IsQuiet : (env : Env) (s : Session) → is_left s ≡ true → IsQuiet s (load_source env s)
unfolding load_source
load_source-IsQuiet env s h = rw (inactive s h, load_source) (same s h)

scrub-IsQuiet : (env : Env) (t : ℤ) (s : Session) → is_left s ≡ true → IsQuiet s (scrub env t s)
unfolding scrub
scrub-IsQuiet env t s h =
    let no_video : (s.video_id == 0) ≡ true = ground arith in
    case-IsQuiet s (not s.enabled || (s.video_id == 0 || leb_ℤ s.duration_ms (pos 0))) s _
      (λ off. same s h) (λ on. absurd (ground (arith, no_video)))

-- What happens without a call of `engage`, `disengage` or `setEnabled`.
abbrev pub is_late : Event → Bool
is_late (Event.engages v r p d t) = false
is_late Event.disengages = false
is_late (Event.enables b) = false
is_late _ = true

step-IsQuiet :
    (env : Env) (e : Event) (s : Session)
    → is_left s ≡ true
    → is_late e ≡ true
    → IsQuiet s (step env e s)
unfolding step set_idle_shutdown_ms
step-IsQuiet env (Event.engages v r p d t) s h l = cc
step-IsQuiet env (Event.scrubs t) s h l = scrub-IsQuiet env t s h
step-IsQuiet env Event.disengages s h l = cc
step-IsQuiet env (Event.enables b) s h l = cc
step-IsQuiet env (Event.limits_idle ms) s h l = record { left = h; sent = refl; emitted = refl }
step-IsQuiet env Event.prewarms s h l =
    if-IsQuiet s _ (start_mpv env s) s (start_mpv-IsQuiet env s h) (same s h)
step-IsQuiet env Event.settles s h l =
    if-IsQuiet s s.settle_timer _ s
      (then-IsQuiet s (record s { settle_timer = false; want_exact = true }) _
        (touched s h s.stop_request s.playing_file s.timeout false true s.coalesce_timer
          s.fail_scheduled)
        (issue_seek-IsQuiet env _ h))
      (same s h)
step-IsQuiet env Event.coalesces s h l =
    if-IsQuiet s s.coalesce_timer _ s
      (then-IsQuiet s (record s { coalesce_timer = false }) _
        (touched s h s.stop_request s.playing_file s.timeout s.settle_timer s.want_exact false
          s.fail_scheduled)
        (issue_seek-IsQuiet env _ h))
      (same s h)
step-IsQuiet env Event.times_out s h l =
    if-IsQuiet s s.timeout _ s
      (then-IsQuiet s (record s { timeout = false }) _
        (touched s h s.stop_request s.playing_file false s.settle_timer s.want_exact
          s.coalesce_timer s.fail_scheduled)
        (fail-IsQuiet _ h))
      (same s h)
step-IsQuiet env Event.idles s h l =
    if-IsQuiet s s.idle_timer _ s (idle_fires-IsQuiet s h) (same s h)
step-IsQuiet env Event.connects s h l =
    let up = record s { link = Link.connected; connect_timer = false; timeout = false } in
    let q : IsQuiet s up = record { left = h; sent = refl; emitted = refl } in
    if-IsQuiet s _ _ s (then-IsQuiet s up _ q (load_source-IsQuiet env up h)) (same s h)
step-IsQuiet env Event.link_drops s h l =
    if-IsQuiet s (is_absent s.link) s _ (same s h) (fail-IsQuiet s h)
step-IsQuiet env Event.process_ends s h l = if-IsQuiet s s.process _ s (fail-IsQuiet s h) (same s h)
step-IsQuiet env Event.fails_later s h l =
    if-IsQuiet s s.fail_scheduled _ s
      (then-IsQuiet s (record s { fail_scheduled = false }) _
        (touched s h s.stop_request s.playing_file s.timeout s.settle_timer s.want_exact
          s.coalesce_timer false)
        (fail-IsQuiet _ h))
      (same s h)
step-IsQuiet env (Event.reads ms) s h l = read_messages-IsQuiet ms s h

run-IsQuiet :
    (es : List (Env × Event)) (s : Session)
    → is_left s ≡ true
    → all (λ e. is_late e.1) es ≡ true
    → IsQuiet s (run es s)
unfolding run
run-IsQuiet [] s h l = same s h
run-IsQuiet ((env, e) ∷ es) s h l =
    let q = step-IsQuiet env e s h (ground arith) in
    then-IsQuiet s (step env e s) _ q (run-IsQuiet es (step env e s) q.left (ground arith))

-- After the source was left, in whatever state the session was, no late reply, timer, connection,
-- failure or pointer movement, in any number and order, sends a command or tells anything, as long
-- as no source is engaged or left again and the session is not switched on or off: the session
-- stays idle, without a source, a frame, a decode in flight or a request but the one to stop.
pub disengage-run :
    (env : Env) (es : List (Env × Event)) (s : Session)
    → all (λ e. is_late e.1) es ≡ true
    → (is_left (run es (disengage env s)) ≡ true)
      × (((run es (disengage env s)).sent ≡ (disengage env s).sent)
          × ((run es (disengage env s)).emitted ≡ (disengage env s).emitted))
disengage-run env es s l =
    let q = run-IsQuiet es (disengage env s) (disengage-is_left env s) l in
    (q.left, (q.sent, q.emitted))
