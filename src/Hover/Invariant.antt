-- ===== src/Hover/Invariant.antt =====
-- The invariant of the hover session, kept by its helpers.
use scrub_tub.Base.{
  is_empty, ℕ, ◌∙◌, Option, some, List, ◌∷◌, ◌≡◌, inl, inr, refl, Bool, true, false, ◌&&◌, ◌||◌,
  not, none, [], arith, ◌==◌, if◌then◌else◌, is_some, ℤ, pos, pos_part, minus_one, eq_ℤ, leb_ℤ,
  ltb_ℤ, ◌-ℤ◌, Bool-cases,
}
use scrub_tub.Hover.{
  emits, Emitted, Session, Env, Status, Image, Link, Backend, is_mpv, is_connected, is_absent,
  is_active, eq_status, is_unusable, set_status, arm_idle_shutdown, cleanup_mpv, fail_mpv,
  send_command, load_source, start_mpv, start_seek, issue_seek, is_too_soon,
}

-- A target lies within the stream, as the clamp leaves it.
abbrev pub InStream : ℤ → ℤ → Type 0
InStream duration t =
    (leb_ℤ (pos 0) t ≡ true) × (leb_ℤ t (pos (pos_part (duration -ℤ pos 40))) ≡ true)

-- No source is loaded or being loaded, and nothing of one is in flight.
abbrev pub is_unloaded : Session → Bool
is_unloaded s = not s.loaded && (not (is_some s.load_request) && ltb_ℤ s.expected_file (pos 0))

abbrev pub is_fresh : Session → Bool
is_fresh s = not (s.in_flight && is_mpv s.backend) && is_unloaded s

-- The frame announced last, with its video, revision and position.
abbrev pub last_told : List Emitted → Option (ℕ × ℕ × ℤ × Image)
last_told [] = none
last_told (Emitted.frame_ready video revision pts i ∷ es) = some (video, revision, pts, i)
last_told (Emitted.frame_changed ∷ es) = last_told es
last_told (Emitted.status_changed st ∷ es) = last_told es
last_told (Emitted.enabled_changed ∷ es) = last_told es

-- The frame on display.
abbrev pub shown : Session → Option (ℕ × ℕ × ℤ × Image)
shown s = elim s.last_frame [
  | none ↦ none
  | some i ↦ some (s.video_id, s.revision, s.delivered_pts, i)
]

pub record IsSound (s : Session) : Type 0 where
  -- While a decode is in flight its watchdog runs, over a live connection.
  pub watched :
      s.in_flight && is_mpv s.backend ≡ true
      → (s.timeout && (is_connected s.link && is_active s)) ≡ true
  -- A frame is shown for an engaged source only, and no larger than agreed.
  pub framed : is_some s.last_frame ≡ true → (is_active s && not (is_unusable s.last_frame)) ≡ true
  -- The status is "ready" only while a frame is shown and the last seek went to the latest target.
  pub ready_frame :
      eq_status s.status Status.ready ≡ true
      → (is_some s.last_frame && eq_ℤ s.last_seeked s.latest_target) ≡ true
  -- While the status is "ready", the frame shown and its position are those announced last, for the
  -- engaged video and its revision.
  pub told : eq_status s.status Status.ready ≡ true → last_told s.emitted ≡ shown s
  -- The target of an engaged source lies within its stream.
  pub targeted : is_active s ≡ true → InStream s.duration_ms s.latest_target
  -- Process, socket and temporary directory come and go together.
  pub owned : (s.process ≡ not (is_absent s.link)) × (s.has_dir ≡ s.process)
  -- While the stop barrier is pending the player is connected, no source is loaded, and nothing
  -- is in flight.
  pub barred : is_some s.stop_request ≡ true → (is_connected s.link && is_fresh s) ≡ true
  -- Without a connection no source is loaded.
  pub offline : is_connected s.link ≡ false → is_unloaded s ≡ true

module _ (s : Session) (v : IsSound s) where
  pub set_status-IsSound :
      (st : Status) → eq_status st Status.ready ≡ false → IsSound (set_status st s)
  unfolding set_status
  set_status-IsSound st h = record {
    watched = ground (arith, v.watched);
    framed = ground (arith, v.framed);
    ready_frame = ground (arith, v.ready_frame);
    told = ground (arith, v.told);
    targeted = ground (arith, v.targeted);
    owned = ground (arith, v.owned);
    barred = ground (arith, v.barred);
    offline = ground (arith, v.offline);
  }

  pub arm_idle_shutdown-IsSound : IsSound (arm_idle_shutdown s)
  unfolding arm_idle_shutdown
  arm_idle_shutdown-IsSound = ground arith

  pub cleanup_mpv-IsSound : is_active s ≡ false → IsSound (cleanup_mpv s)
  unfolding cleanup_mpv
  cleanup_mpv-IsSound h = record {
    watched = ground (arith, v.watched);
    framed = ground (arith, v.framed);
    ready_frame = ground (arith, v.ready_frame, v.framed);
    told = ground (arith, v.told, v.framed);
    targeted = ground (arith, v.targeted);
    owned = ground arith;
    barred = ground arith;
    offline = ground arith;
  }

  pub load_source-IsSound : (env : Env) → is_fresh s ≡ true → IsSound (load_source env s)
  unfolding load_source send_command
  load_source-IsSound env h = record {
    watched = ground (arith, v.watched);
    framed = ground (arith, v.framed);
    ready_frame = ground (arith, v.ready_frame);
    told = ground (arith, v.told);
    targeted = ground (arith, v.targeted);
    owned = ground (arith, v.owned);
    barred = ground (arith, v.barred);
    offline = ground (arith, v.offline);
  }

  started : Session
  started = record s {
    has_dir = true;
    link = Link.unconnected;
    process = true;
    connect_timer = true;
    timeout = true;
  }

  started-IsSound : s.process ≡ false → IsSound started
  unfolding started
  started-IsSound p = record {
    watched = ground (arith, v.watched, v.owned);
    framed = v.framed;
    ready_frame = v.ready_frame;
    told = v.told;
    targeted = v.targeted;
    owned = (refl, refl);
    barred = ground (arith, v.barred, v.offline);
    offline = ground (arith, v.offline);
  }

  fail_mpv-has_dir : fail_mpv (record s { has_dir = true }) ≡ fail_mpv s
  unfolding fail_mpv cleanup_mpv set_status
  fail_mpv-has_dir = refl

  -- A seek goes to the latest target, so what is being sought next is what was asked for last.
  pub start_seek-IsSound :
      (env : Env) (exact : Bool)
      → is_active s ≡ true
      → s.loaded ≡ true
      → IsSound (start_seek env s.latest_target exact s)
  unfolding start_seek send_command
  start_seek-IsSound env exact h l = record {
    watched = ground (arith, v.watched, v.offline);
    framed = ground (arith, v.framed);
    ready_frame = ground (arith, v.ready_frame);
    told = ground (arith, v.told);
    targeted = ground (arith, v.targeted);
    owned = ground (arith, v.owned);
    barred = ground (arith, v.barred);
    offline = ground (arith, v.offline);
  }

-- Nothing is left of the player, and of the source nothing but its place.
pub record IsDown (q : Session) : Type 0 where
  pub unframed : q.last_frame ≡ none
  pub inactive : is_mpv q.backend ≡ false
  pub unowned : (q.process ≡ false) × ((q.link ≡ Link.absent) × (q.has_dir ≡ false))
  pub unbarred : q.stop_request ≡ none
  pub unloaded : is_unloaded q ≡ true

unavailable-IsSound : (q : Session) → IsDown q → IsSound (set_status Status.unavailable q)
unfolding set_status
unavailable-IsSound q w = record {
  watched = ground (arith, w.inactive);
  framed = ground (arith, w.unframed);
  ready_frame = ground arith;
  told = ground arith;
  targeted = ground (arith, w.inactive);
  owned = ground (arith, w.unowned);
  barred = ground (arith, w.unbarred);
  offline = ground (arith, w.unloaded);
}

-- The player is gone, and so is its path where it never answered.
spent : Session → Session
spent s =
    let cleaned = cleanup_mpv s in
    if s.connect_timer then record cleaned { mpv_path = [] } else cleaned

dropped : Session → Session
dropped s = record (spent s) {
  backend = Backend.no_backend;
  last_frame = none;
  delivered_pts = minus_one;
}

dropped-IsDown : (s : Session) → IsDown (dropped s)
unfolding dropped spent cleanup_mpv
dropped-IsDown s = record {
  unframed = refl;
  inactive = refl;
  unowned = ground arith;
  unbarred = ground arith;
  unloaded = ground arith;
}

pub emits-IsSound :
    (e : Emitted) (s : Session)
    → last_told (e ∷ s.emitted) ≡ last_told s.emitted
    → IsSound s
    → IsSound (emits e s)
emits-IsSound e s n v = record {
  watched = v.watched;
  framed = v.framed;
  ready_frame = v.ready_frame;
  told = λ h. n ∙ v.told h;
  targeted = v.targeted;
  owned = v.owned;
  barred = v.barred;
  offline = v.offline;
}

-- The invariant does not read the player's path.
pathless :
    (b : Bool) (q : Session) → IsSound q → IsSound (if b then record q { mpv_path = [] } else q)
pathless true q w = record {
  watched = w.watched;
  framed = w.framed;
  ready_frame = w.ready_frame;
  told = w.told;
  targeted = w.targeted;
  owned = w.owned;
  barred = w.barred;
  offline = w.offline;
}
pathless false q w = w

spent-IsSound : (s : Session) → IsSound s → is_active s ≡ false → IsSound (spent s)
unfolding spent
spent-IsSound s v h = pathless s.connect_timer (cleanup_mpv s) (cleanup_mpv-IsSound s v h)

pub fail_mpv-IsSound : (s : Session) → IsSound s → IsSound (fail_mpv s)
unfolding fail_mpv dropped spent
fail_mpv-IsSound s v = elim (Bool-cases (is_active s)) [
  | inl e ↦
      rw (e, fail_mpv)
        (emits-IsSound Emitted.frame_changed _ refl
          (unavailable-IsSound (dropped s) (dropped-IsDown s)))
  | inr e ↦ rw (e, fail_mpv) (spent-IsSound s v e)
]

module _ (s : Session) (v : IsSound s) where
  pub start_mpv-IsSound : (env : Env) → IsSound (start_mpv env s)
  unfolding start_mpv started
  start_mpv-IsSound env = elim (Bool-cases (s.process || is_empty s.mpv_path)) [
    | inl e ↦ rw (e, start_mpv) v
    | inr e ↦ elim (Bool-cases env.dir_valid) [
      | inl ok ↦
          rw (e, ok, start_mpv) (arm_idle_shutdown-IsSound _ (started-IsSound s v (ground arith)))
      | inr bad ↦ rw (e, bad, start_mpv, fail_mpv-has_dir s v) (fail_mpv-IsSound s v)
    ]
  ]

  pub issue_seek-IsSound : (env : Env) → IsSound (issue_seek env s)
  unfolding issue_seek
  issue_seek-IsSound env =
      elim (Bool-cases
        (not (is_mpv s.backend) || (not s.loaded || (s.in_flight || s.video_id == 0)))) [
          | inl e ↦ rw (e, issue_seek) v
          | inr e ↦
              elim (Bool-cases
                (eq_ℤ s.latest_target s.last_seeked && (not s.want_exact || s.last_seek_exact))) [
                  | inl done ↦ rw (e, done, issue_seek) v
                  | inr moved ↦ elim (Bool-cases (is_too_soon env s)) [
                    | inl soon ↦
                        rw (e, moved, soon, issue_seek)
                          (record {
                            watched = v.watched;
                            framed = v.framed;
                            ready_frame = v.ready_frame;
                            told = v.told;
                            targeted = v.targeted;
                            owned = v.owned;
                            barred = v.barred;
                            offline = v.offline;
                          })
                    | inr due ↦
                        rw (e, moved, due, issue_seek)
                          (start_seek-IsSound s v env s.want_exact (ground arith) (ground arith))
                  ]
                ]
        ]
