-- ===== src/Hover/History.antt =====
-- The session after any history of events: every event keeps the invariant.
use scrub_tub.Base.{
  is_empty, if◌then◌else◌, ◌≡◌, ap, ◌==◌, inl, inr, refl, Bool, true, false, ◌&&◌, ◌||◌, not, ℕ,
  Option, none, some, List, [], ◌∷◌, arith, is_some, ℤ, Text, Bool-cases,
}
use scrub_tub.Hover.{
  Session, Env, Message, Event, Link, is_connected, is_absent, is_active, is_mpv,
  set_idle_shutdown_ms, cleanup_mpv, fail_mpv, on_message, read_messages, disengage, set_enabled,
  idle_fires, step, run, answers, initial, Emitted,
}
use scrub_tub.Hover.Invariant.{
  IsSound, is_fresh, arm_idle_shutdown-IsSound, fail_mpv-IsSound, cleanup_mpv-IsSound,
  emits-IsSound, load_source-IsSound, start_mpv-IsSound, issue_seek-IsSound,
}
use scrub_tub.Hover.Steps.{
  on_event-IsSound, on_stopped-IsSound, disengage-IsSound, disengage_flags, engage-IsSound,
  scrub-IsSound,
}

module _ (s : Session) (v : IsSound s) where
  unbarred-IsSound :
      is_some s.stop_request ≡ true → IsSound (record s { stop_request = none; timeout = false })
  unbarred-IsSound h = record {
    watched = ground (arith, v.watched, v.barred);
    framed = v.framed;
    ready_frame = v.ready_frame;
    told = v.told;
    targeted = v.targeted;
    owned = v.owned;
    barred = ground arith;
    offline = v.offline;
  }

  unrequested-IsSound : IsSound (record s { load_request = none })
  unrequested-IsSound = record {
    watched = v.watched;
    framed = v.framed;
    ready_frame = v.ready_frame;
    told = v.told;
    targeted = v.targeted;
    owned = v.owned;
    barred = ground (arith, v.barred);
    offline = ground (arith, v.offline);
  }

  -- A `loadfile` is outstanding only past the stop barrier, over a live connection.
  entered-IsSound :
      (f : ℤ)
      → is_some s.load_request ≡ true
      → IsSound (record s { load_request = none; expected_file = f })
  entered-IsSound f h = record {
    watched = v.watched;
    framed = v.framed;
    ready_frame = v.ready_frame;
    told = v.told;
    targeted = v.targeted;
    owned = v.owned;
    barred = ground (arith, v.barred);
    offline = ground (arith, v.offline);
  }

  timers-IsSound :
      (settle exact coalesce idle fails : Bool)
      → IsSound (record s {
        settle_timer = settle;
        want_exact = exact;
        coalesce_timer = coalesce;
        idle_timer = idle;
        fail_scheduled = fails;
      })
  timers-IsSound a b c d e = record {
    watched = v.watched;
    framed = v.framed;
    ready_frame = v.ready_frame;
    told = v.told;
    targeted = v.targeted;
    owned = v.owned;
    barred = v.barred;
    offline = v.offline;
  }

  limited-IsSound : (ms : ℤ) → IsSound (set_idle_shutdown_ms ms s)
  unfolding set_idle_shutdown_ms
  limited-IsSound ms = record {
    watched = v.watched;
    framed = v.framed;
    ready_frame = v.ready_frame;
    told = v.told;
    targeted = v.targeted;
    owned = v.owned;
    barred = v.barred;
    offline = v.offline;
  }

  enabled-IsSound : (b : Bool) → IsSound (record s { enabled = b })
  enabled-IsSound b = record {
    watched = v.watched;
    framed = v.framed;
    ready_frame = v.ready_frame;
    told = v.told;
    targeted = v.targeted;
    owned = v.owned;
    barred = v.barred;
    offline = v.offline;
  }

  connecting-IsSound :
      (is_connected s.link || is_absent s.link) ≡ false
      → IsSound (record s { link = Link.connected; connect_timer = false; timeout = false })
  connecting-IsSound h = record {
    watched = ground (arith, v.watched);
    framed = v.framed;
    ready_frame = v.ready_frame;
    told = v.told;
    targeted = v.targeted;
    owned = ground (arith, v.owned);
    barred = ground (arith, v.barred);
    offline = ground (arith, v.offline);
  }

  connecting_fresh :
      (is_connected s.link || is_absent s.link) ≡ false
      → is_fresh (record s { link = Link.connected; connect_timer = false; timeout = false }) ≡ true
  connecting_fresh h = ground (arith, v.watched, v.offline)

  -- A watchdog that fires is cleared first; the failure needs no more than this.
  expired-IsSound : IsSound (fail_mpv (record s { timeout = false }))
  unfolding fail_mpv cleanup_mpv
  expired-IsSound = fail_mpv-IsSound s v

answers_some : (a b : Option ℕ) → answers a b ≡ true → is_some b ≡ true
answers_some none b h = cc
answers_some (some x) none h = cc
answers_some (some x) (some y) h = refl

on_message-IsSound :
    (env : Env) (m : Message) (s : Session) → IsSound s → IsSound (on_message env m s)
unfolding on_message
on_message-IsSound env m s v = elim (Bool-cases (answers m.request s.stop_request)) [
  | inl a ↦ elim (Bool-cases m.success) [
    | inl good ↦
        rw (a, good, on_message)
          (on_stopped-IsSound _ (unbarred-IsSound s v (answers_some m.request s.stop_request a)) env
            (ground (arith, v.barred, answers_some m.request s.stop_request a)) refl)
    | inr bad ↦
        rw (a, bad, on_message)
          (fail_mpv-IsSound _ (unbarred-IsSound s v (answers_some m.request s.stop_request a)))
  ]
  | inr a ↦ elim (Bool-cases (answers m.request s.load_request)) [
    | inl b ↦ elim (Bool-cases m.success) [
      | inl good ↦
          rw (a, b, good, on_message)
            (entered-IsSound s v m.data_entry (answers_some m.request s.load_request b))
      | inr bad ↦ rw (a, b, bad, on_message) (fail_mpv-IsSound _ (unrequested-IsSound s v))
    ]
    | inr b ↦ rw (a, b, on_message) (on_event-IsSound s v env m)
  ]
]

read_messages-IsSound :
    (ms : List (Env × Message)) (s : Session) → IsSound s → IsSound (read_messages ms s)
unfolding read_messages
read_messages-IsSound [] s v = v
read_messages-IsSound ((env, m) ∷ ms) s v = elim (Bool-cases (is_absent s.link)) [
  | inl gone ↦ rw (gone, read_messages) v
  | inr here ↦
      rw (here, read_messages)
        (read_messages-IsSound ms (on_message env m s) (on_message-IsSound env m s v))
]

disengaged_inactive : (env : Env) (s : Session) → is_active (disengage env s) ≡ false
disengaged_inactive env s =
    ap (λ b. is_mpv b && not ((disengage env s).video_id == 0)) (disengage_flags env s).1

if-IsSound :
    (b : Bool) (x y : Session)
    → (b ≡ true → IsSound x)
    → (b ≡ false → IsSound y)
    → IsSound (if b then x else y)
if-IsSound true x y f g = f refl
if-IsSound false x y f g = g refl

set_enabled-IsSound :
    (env : Env) (b : Bool) (s : Session) → IsSound s → IsSound (set_enabled env b s)
unfolding set_enabled
set_enabled-IsSound env true s v =
    if-IsSound s.enabled _ _ (λ on. v)
      (λ off. emits-IsSound Emitted.enabled_changed _ refl (enabled-IsSound s v true))
set_enabled-IsSound env false s v =
    if-IsSound s.enabled _ _
      (λ on. emits-IsSound Emitted.enabled_changed _ refl (
        cleanup_mpv-IsSound _ (disengage-IsSound env _ (enabled-IsSound s v false))
          (disengaged_inactive env (record s { enabled = false }))))
      (λ off. v)

idle_fires-IsSound : (s : Session) → IsSound s → IsSound (idle_fires s)
unfolding idle_fires
idle_fires-IsSound s v =
    let w : IsSound (record s { idle_timer = false }) =
      timers-IsSound s v s.settle_timer s.want_exact s.coalesce_timer false s.fail_scheduled in
    elim (Bool-cases (is_active s)) [
      | inl on ↦ rw (on, idle_fires) (arm_idle_shutdown-IsSound _ w)
      | inr off ↦ rw (off, idle_fires) (cleanup_mpv-IsSound _ w off)
    ]

step-IsSound : (env : Env) (e : Event) (s : Session) → IsSound s → IsSound (step env e s)
unfolding step
step-IsSound env (Event.engages n r p d t) s v = engage-IsSound env n r p d t s v
step-IsSound env (Event.scrubs t) s v = scrub-IsSound env t s v
step-IsSound env Event.disengages s v = disengage-IsSound env s v
step-IsSound env (Event.enables b) s v = set_enabled-IsSound env b s v
step-IsSound env (Event.limits_idle ms) s v = limited-IsSound s v ms
step-IsSound env Event.prewarms s v =
    if-IsSound (s.enabled && (not (is_empty s.mpv_path))) _ _ (λ on. start_mpv-IsSound s v env)
      (λ off. v)
step-IsSound env Event.settles s v =
    if-IsSound s.settle_timer _ _
      (λ on.
        issue_seek-IsSound _
          (timers-IsSound s v false true s.coalesce_timer s.idle_timer s.fail_scheduled) env)
      (λ off. v)
step-IsSound env Event.coalesces s v =
    if-IsSound s.coalesce_timer _ _
      (λ on.
        issue_seek-IsSound _
          (timers-IsSound s v s.settle_timer s.want_exact false s.idle_timer s.fail_scheduled) env)
      (λ off. v)
step-IsSound env Event.times_out s v =
    if-IsSound s.timeout _ _ (λ on. expired-IsSound s v) (λ off. v)
step-IsSound env Event.idles s v =
    if-IsSound s.idle_timer _ _ (λ on. idle_fires-IsSound s v) (λ off. v)
step-IsSound env Event.connects s v =
    if-IsSound (not (is_connected s.link) && not (is_absent s.link)) _ _
      (λ on.
        load_source-IsSound _ (connecting-IsSound s v (ground arith)) env
          (connecting_fresh s v (ground arith)))
      (λ off. v)
step-IsSound env Event.link_drops s v =
    if-IsSound (is_absent s.link) _ _ (λ gone. v) (λ here. fail_mpv-IsSound s v)
step-IsSound env Event.process_ends s v =
    if-IsSound s.process _ _ (λ on. fail_mpv-IsSound s v) (λ off. v)
step-IsSound env Event.fails_later s v =
    if-IsSound s.fail_scheduled _ _
      (λ on.
        fail_mpv-IsSound _
          (timers-IsSound s v s.settle_timer s.want_exact s.coalesce_timer s.idle_timer false))
      (λ off. v)
step-IsSound env (Event.reads ms) s v = read_messages-IsSound ms s v

initial-IsSound : (path : Text) → IsSound (initial path)
initial-IsSound path = record {
  watched = λ h. cc;
  framed = λ h. cc;
  ready_frame = λ h. cc;
  told = λ h. cc;
  targeted = λ h. cc;
  owned = (refl, refl);
  barred = λ h. cc;
  offline = λ h. refl;
}

-- After any history of calls, timers, replies, failed writes and dropped connections, from a new
-- session: a decode in flight is watched by a running timeout over a live connection; a frame is
-- kept only for an engaged source and within 320 pixels a side; the status is "ready" only while
-- a frame is shown and the last seek went to the latest target, and then this frame and its position
-- are those announced last, for the engaged video and its revision; the target lies in the stream; the process, its socket
-- and its directory exist together; and while the stop barrier is pending nothing is loaded.
pub run-IsSound : (es : List (Env × Event)) (path : Text) → IsSound (run es (initial path))
unfolding run
run-IsSound es path = go es (initial path) (initial-IsSound path)
  where
    go : (es : List (Env × Event)) (s : Session) → IsSound s → IsSound (run es s)
    go [] s v = v
    go ((env, e) ∷ es) s v = go es (step env e s) (step-IsSound env e s v)
