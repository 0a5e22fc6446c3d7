-- ===== src/Hover.antt =====
-- src/media/HoverSession.{h,cpp}: the paused scrubbing session over one mpv process. Every slot,
-- timer and socket callback is a function of the session; what the platform answers (writes, the
-- clock, the temporary directory, the decoded image) comes with each call as an `Env`.
pub mod Control
pub mod History
pub mod Invariant
pub mod Steps
pub mod Left
mod Tests
use scrub_tub.Base.{
  ℕ, ◌+◌, ◌-◌, Bool, true, false, ◌&&◌, ◌||◌, not, Option, none, some, List, [], ◌∷◌, ltb, leb,
  ◌==◌, if◌then◌else◌, is_some, ℤ, pos, pos_part, minus_one, eq_ℤ, leb_ℤ, ltb_ℤ, ◌-ℤ◌, Text, max,
  is_empty,
}

pub data Backend : Type 0 where
  no_backend mpv : Backend

pub data Status : Type 0 where
  idle loading seeking ready unavailable : Status

pub data Link : Type 0 where
  absent unconnected connected : Link

-- An image as its size and the identity of its pixels.
pub record Image : Type 0 where
  pub width : ℕ
  pub height : ℕ
  pub pixels : ℕ

pub data Command : Type 0 where
  stop : Command
  loadfile : Text → ℤ → Command
  seek : ℤ → Bool → Command
  get_time_pos : Command

pub data Emitted : Type 0 where
  frame_ready : ℕ → ℕ → ℤ → Image → Emitted
  frame_changed : Emitted
  status_changed : Status → Emitted
  enabled_changed : Emitted

pub record Env : Type 0 where
  pub write_ok : Bool
  pub now : ℕ
  pub dir_valid : Bool
  pub image : Option Image

-- A request id of -1 is `none`; a running timer is `true`.
pub record Session : Type 0 where
  pub mpv_path : Text
  pub backend : Backend
  pub enabled : Bool
  pub status : Status
  pub video_id : ℕ
  pub revision : ℕ
  pub duration_ms : ℤ
  pub latest_target : ℤ
  pub delivered_pts : ℤ
  pub last_frame : Option Image
  pub process : Bool
  pub link : Link
  pub has_dir : Bool
  pub pending_path : Text
  pub command_id : ℕ
  pub stop_request : Option ℕ
  pub load_request : Option ℕ
  pub frame_request : Option ℕ
  pub seek_request : Option ℕ
  pub expected_file : ℤ
  pub playing_file : ℤ
  pub loaded : Bool
  pub want_exact : Bool
  pub last_seek_exact : Bool
  pub last_seeked : ℤ
  pub seek_clock : Option ℕ
  pub in_flight : Bool
  pub settle_timer : Bool
  pub connect_timer : Bool
  pub timeout : Bool
  pub coalesce_timer : Bool
  pub idle_timer : Bool
  pub idle_shutdown_ms : ℕ
  pub fail_scheduled : Bool
  pub sent : List (ℕ × Command)
  pub emitted : List Emitted

abbrev pub initial : Text → Session
initial path = record {
  mpv_path = path;
  backend = no_backend;
  enabled = true;
  status = idle;
  video_id = 0;
  revision = 0;
  duration_ms = minus_one;
  latest_target = minus_one;
  delivered_pts = minus_one;
  last_frame = none;
  process = false;
  link = absent;
  has_dir = false;
  pending_path = [];
  command_id = 0;
  stop_request = none;
  load_request = none;
  frame_request = none;
  seek_request = none;
  expected_file = minus_one;
  playing_file = minus_one;
  loaded = false;
  want_exact = false;
  last_seek_exact = false;
  last_seeked = minus_one;
  seek_clock = none;
  in_flight = false;
  settle_timer = false;
  connect_timer = false;
  timeout = false;
  coalesce_timer = false;
  idle_timer = false;
  idle_shutdown_ms = 45000;
  fail_scheduled = false;
  sent = [];
  emitted = [];
}

abbrev pub is_mpv : Backend → Bool
is_mpv no_backend = false
is_mpv mpv = true

abbrev pub is_connected : Link → Bool
is_connected connected = true
is_connected _ = false

abbrev pub is_absent : Link → Bool
is_absent absent = true
is_absent _ = false

abbrev pub eq_status : Status → Status → Bool
eq_status idle idle = true
eq_status loading loading = true
eq_status seeking seeking = true
eq_status ready ready = true
eq_status unavailable unavailable = true
eq_status _ _ = false

-- `m_backend == Backend::Mpv && m_videoId != 0`
abbrev pub is_active : Session → Bool
is_active s = is_mpv s.backend && not (s.video_id == 0)

abbrev pub emits : Emitted → Session → Session
emits e s = record s { emitted = e ∷ s.emitted }

pub set_status : Status → Session → Session
set_status st s =
    if eq_status s.status st then s else emits (status_changed st) (record s { status = st })

pub arm_idle_shutdown : Session → Session
arm_idle_shutdown s =
    if s.idle_shutdown_ms == 0 || not s.process then s else record s { idle_timer = true }

pub set_idle_shutdown_ms : ℤ → Session → Session
set_idle_shutdown_ms ms s =
    let limit = pos_part ms in
    record s {
      idle_shutdown_ms = limit;
      idle_timer = if limit == 0 || not s.process then false else true;
    }

pub cleanup_mpv : Session → Session
cleanup_mpv s = record s {
  idle_timer = false;
  connect_timer = false;
  timeout = false;
  settle_timer = false;
  link = absent;
  process = false;
  has_dir = false;
  stop_request = none;
  load_request = none;
  frame_request = none;
  seek_request = none;
  expected_file = minus_one;
  playing_file = minus_one;
  loaded = false;
}

pub fail_mpv : Session → Session
fail_mpv s =
    let cleaned = cleanup_mpv s in
    let spent = if s.connect_timer then record cleaned { mpv_path = [] } else cleaned in
    if is_active s
    then emits frame_changed (
        set_status unavailable
          (record spent { backend = no_backend; last_frame = none; delivered_pts = minus_one }))
    else spent

-- The id of the command, or `none` where the source returns -1.
pub send_command : Env → Command → Session → Option ℕ × Session
send_command env c s =
    if is_connected s.link
    then (if env.write_ok
        then (
          some (s.command_id + 1),
          record s { command_id = s.command_id + 1; sent = (s.command_id + 1, c) ∷ s.sent },
        )
        else (none, record s { command_id = s.command_id + 1; fail_scheduled = true }))
    else (none, s)

pub load_source : Env → Session → Session
load_source env s =
    if not (is_active s) || (is_some s.stop_request || (is_some s.load_request || s.loaded))
    then s
    else (let (request, s') = send_command env stop s in
        record s' {
          stop_request = request;
          timeout = if is_some request then true else s'.timeout;
        })

pub start_mpv : Env → Session → Session
start_mpv env s =
    if s.process || is_empty s.mpv_path
    then s
    else (if env.dir_valid
        then arm_idle_shutdown (record s {
          has_dir = true;
          link = unconnected;
          process = true;
          connect_timer = true;
          timeout = true;
        })
        else fail_mpv (record s { has_dir = true }))

pub start_seek : Env → ℤ → Bool → Session → Session
start_seek env target exact s =
    let (request, s') = send_command env (seek target exact) s in
    if is_some request
    then record s' {
      seek_request = request;
      last_seeked = target;
      last_seek_exact = exact;
      in_flight = true;
      seek_clock = some env.now;
      timeout = true;
    }
    else record s' { seek_request = request }

-- The seek clock has run for less than the coalescing interval of 50 ms.
abbrev pub is_too_soon : Env → Session → Bool
is_too_soon env s = elim s.seek_clock [ none ↦ false | some t ↦ ltb (env.now - t) 50 ]

pub issue_seek : Env → Session → Session
issue_seek env s =
    if not (is_mpv s.backend) || (not s.loaded || (s.in_flight || s.video_id == 0))
    then s
    else (if eq_ℤ s.latest_target s.last_seeked && (not s.want_exact || s.last_seek_exact)
        then s
        else (if is_too_soon env s
            then record s { coalesce_timer = true }
            else start_seek env s.latest_target s.want_exact s))

-- The clamp of a pointer target into the stream: `qBound(0, t, qMax(0, duration - 40))`.
pub clamp_target : ℤ → ℤ → ℤ
clamp_target duration t =
    let last = pos (pos_part (duration -ℤ pos 40)) in
    if ltb_ℤ t (pos 0) then pos 0 else if ltb_ℤ last t then last else t

-- The image is missing, or larger than the player was told to write.
abbrev pub is_unusable : Option Image → Bool
is_unusable none = true
is_unusable (some i) = ltb 320 i.width || ltb 320 i.height

-- A frame that arrived: shown unless it comes from an exact seek that a newer target superseded.
pub show_frame : ℤ → Option Image → Session → Session
show_frame pts frame s =
    if not s.last_seek_exact || eq_ℤ s.last_seeked s.latest_target
    then (let shown =
          set_status (if eq_ℤ s.last_seeked s.latest_target then ready else seeking)
            (record s { last_frame = frame; delivered_pts = pts }) in
        elim frame [
          | none ↦ emits frame_changed shown
          | some i ↦ emits (frame_ready s.video_id s.revision pts i) (emits frame_changed shown)
        ])
    else s

pub read_frame : Env → ℤ → Session → Session
read_frame env pts s =
    if not (is_active s) || not s.has_dir
    then s
    else (if is_unusable env.image
        then fail_mpv s
        else issue_seek env
            (show_frame pts env.image (record s { timeout = false; in_flight = false })))

pub data EventName : Type 0 where
  no_event start_file file_loaded playback_restart end_file other_event : EventName

-- A line of the player: `request_id`, `event`, whether `error` is "success", the playlist entry
-- ids of the message and of its data, whether `reason` is "error", and `time-pos` in milliseconds
-- where the data is a finite number that is not negative.
pub record Message : Type 0 where
  pub request : Option ℕ
  pub event : EventName
  pub success : Bool
  pub entry : ℤ
  pub data_entry : ℤ
  pub is_error : Bool
  pub time_pos : Option ℤ

-- `id > 0 && id == request`
abbrev answers : Option ℕ → Option ℕ → Bool
answers none r = false
answers (some id) none = false
answers (some id) (some r) = id == r

abbrev pub is_event : EventName → EventName → Bool
is_event start_file start_file = true
is_event file_loaded file_loaded = true
is_event playback_restart playback_restart = true
is_event end_file end_file = true
is_event _ _ = false

-- The stop barrier has been passed: load the newest source.
pub on_stopped : Env → Session → Session
on_stopped env s =
    if is_active s
    then (let (request, s') = send_command env (loadfile s.pending_path s.latest_target) (record s {
      last_seeked = s.latest_target;
      last_seek_exact = false;
      in_flight = true;
      seek_clock = some env.now;
    }) in
        record s' { load_request = request; timeout = true })
    else s

pub on_frame_time : Env → Bool → Option ℤ → Session → Session
on_frame_time env true (some pts) s = read_frame env pts s
on_frame_time env _ _ s = fail_mpv s

pub ask_frame_time : Env → Session → Session
ask_frame_time env s =
    let (request, s') = send_command env get_time_pos s in record s' { frame_request = request }

-- The ladder of `readMpvMessages` behind the replies to `stop` and `loadfile`.
pub on_event : Env → Message → Session → Session
on_event env m s =
    if is_event m.event start_file
    then record s { playing_file = m.entry }
    else (if is_event m.event file_loaded
          && (leb_ℤ (pos 0) s.expected_file && eq_ℤ s.playing_file s.expected_file)
        then record s { loaded = true }
        else (if is_event m.event playback_restart
              && (s.loaded && (s.in_flight && not (is_some s.frame_request)))
            then ask_frame_time env s
            else (if answers m.request s.frame_request
                then on_frame_time env m.success m.time_pos (record s { frame_request = none })
                else (if (answers m.request s.seek_request && not m.success)
                      || (is_event m.event end_file
                          && (leb_ℤ (pos 0) s.expected_file
                              && (eq_ℤ m.entry s.expected_file && m.is_error)))
                    then fail_mpv s
                    else s))))

pub on_message : Env → Message → Session → Session
on_message env m s =
    if answers m.request s.stop_request
    then (let s' = record s { stop_request = none; timeout = false } in
        if m.success then on_stopped env s' else fail_mpv s')
    else (if answers m.request s.load_request
        then (let s' = record s { load_request = none } in
            if m.success then record s' { expected_file = m.data_entry } else fail_mpv s')
        else on_event env m s)

-- The loop over the lines; a failure drops the socket, and with it the rest of the buffer.
pub read_messages : List (Env × Message) → Session → Session
read_messages [] s = s
read_messages ((env, m) ∷ ms) s =
    let rest = read_messages ms (on_message env m s) in if is_absent s.link then s else rest

-- The source is forgotten, with its frame and its requests; the stop request is not.
pub forget_source : Session → Session
forget_source s = record s {
  settle_timer = false;
  coalesce_timer = false;
  backend = no_backend;
  video_id = 0;
  revision = 0;
  duration_ms = minus_one;
  latest_target = minus_one;
  last_seeked = minus_one;
  delivered_pts = minus_one;
  last_frame = none;
  in_flight = false;
  loaded = false;
  expected_file = minus_one;
  playing_file = minus_one;
  load_request = none;
  frame_request = none;
  seek_request = none;
  pending_path = [];
}

pub stop_player : Env → Session → Session
stop_player env s =
    if is_connected s.link
    then (let (request, s') = send_command env stop s in
        record s' { stop_request = request; timeout = true })
    else s

pub disengage : Env → Session → Session
disengage env s =
    emits frame_changed (arm_idle_shutdown (set_status idle (stop_player env (forget_source s))))

-- `engageMpv` up to the start of the player.
pub begin_loading : Text → Session → Session
begin_loading path s =
    let s' =
      set_status loading (record s { backend = mpv; pending_path = path; want_exact = false }) in
    record s' { settle_timer = true }

pub engage_mpv : Env → Text → Session → Session
engage_mpv env path s = load_source env (arm_idle_shutdown (start_mpv env (begin_loading path s)))

-- The source and its first target.
pub take_source : ℕ → ℕ → ℤ → ℤ → Session → Session
take_source video revision duration initial_time s = record s {
  video_id = video;
  revision = revision;
  duration_ms = duration;
  latest_target = clamp_target duration initial_time;
  last_seeked = minus_one;
  delivered_pts = minus_one;
  in_flight = false;
}

pub engage : Env → ℕ → ℕ → Text → ℤ → ℤ → Session → Session
engage env video revision path duration initial_time s =
    let gone = disengage env s in
    let taken = take_source video revision duration initial_time gone in
    if not gone.enabled || is_empty path
    then set_status unavailable gone
    else (if is_empty taken.mpv_path
        then set_status unavailable taken
        else engage_mpv env path taken)

-- The pointer moved to another target.
pub move_target : ℤ → Session → Session
move_target target s =
    let s' = set_status seeking (record s { latest_target = target; want_exact = false }) in
    record s' { settle_timer = true }

pub scrub : Env → ℤ → Session → Session
scrub env t s =
    let armed = arm_idle_shutdown s in
    let target = clamp_target s.duration_ms t in
    if not s.enabled || (s.video_id == 0 || leb_ℤ s.duration_ms (pos 0))
    then s
    else (if not (is_mpv armed.backend) || eq_ℤ armed.latest_target target
        then armed
        else issue_seek env (move_target target armed))

pub set_enabled : Env → Bool → Session → Session
set_enabled env true s =
    if s.enabled then s else emits enabled_changed (record s { enabled = true })
set_enabled env false s =
    if s.enabled
    then emits enabled_changed (cleanup_mpv (disengage env (record s { enabled = false })))
    else s

pub idle_fires : Session → Session
idle_fires s =
    let rung = record s { idle_timer = false } in
    if is_active s then arm_idle_shutdown rung else cleanup_mpv rung

-- What can happen to a session between two turns of the event loop. A timer fires only while it
-- runs, and a socket or process reports only while it is there.
pub data Event : Type 0 where
  engages : ℕ → ℕ → Text → ℤ → ℤ → Event
  scrubs : ℤ → Event
  disengages : Event
  enables : Bool → Event
  limits_idle : ℤ → Event
  prewarms settles coalesces times_out idles : Event
  connects link_drops process_ends fails_later : Event
  reads : List (Env × Message) → Event

pub step : Env → Event → Session → Session
step env (engages v r p d t) s = engage env v r p d t s
step env (scrubs t) s = scrub env t s
step env disengages s = disengage env s
step env (enables b) s = set_enabled env b s
step env (limits_idle ms) s = set_idle_shutdown_ms ms s
step env prewarms s = if s.enabled && not (is_empty s.mpv_path) then start_mpv env s else s
step env settles s =
    if s.settle_timer
    then issue_seek env (record s { settle_timer = false; want_exact = true })
    else s
step env coalesces s =
    if s.coalesce_timer then issue_seek env (record s { coalesce_timer = false }) else s
step env times_out s = if s.timeout then fail_mpv (record s { timeout = false }) else s
step env idles s = if s.idle_timer then idle_fires s else s
step env connects s =
    if not (is_connected s.link) && not (is_absent s.link)
    then load_source env (record s { link = connected; connect_timer = false; timeout = false })
    else s
step env link_drops s = if is_absent s.link then s else fail_mpv s
step env process_ends s = if s.process then fail_mpv s else s
step env fails_later s =
    if s.fail_scheduled then fail_mpv (record s { fail_scheduled = false }) else s
step env (reads ms) s = read_messages ms s

pub run : List (Env × Event) → Session → Session
run [] s = s
run ((env, e) ∷ es) s = run es (step env e s)
