-- ===== src/Hover/Control.antt =====
-- What the controls of the hover session do to it, whatever it was doing before.
use scrub_tub.Base.{◌≡◌, Bool, true, ◌&&◌, ◌||◌, not, arith, ℤ, pos, leb_ℤ, ltb_ℤ, eq_ℤ, ◌-ℤ◌, ◌==◌}
use scrub_tub.Hover.{
  Session, Env, is_mpv, arm_idle_shutdown, clamp_target, scrub, issue_seek, start_seek, set_status,
  send_command, move_target,
}

-- A position lies in the stream, up to 40 ms before its end; a shorter stream has 0 alone.
abbrev pub is_position : ℤ → ℤ → Bool
is_position duration p = leb_ℤ (pos 0) p && (leb_ℤ p (duration -ℤ pos 40) || eq_ℤ p (pos 0))

-- Going from `t` to `p` one comes past `x`.
abbrev pub is_between : ℤ → ℤ → ℤ → Bool
is_between t x p = (leb_ℤ t x && leb_ℤ x p) || (leb_ℤ p x && leb_ℤ x t)

seek_target : (env : Env) (s : Session) → (issue_seek env s).latest_target ≡ s.latest_target
unfolding issue_seek start_seek send_command
seek_target env s = ground arith

moved_target : (t : ℤ) (s : Session) → (move_target t s).latest_target ≡ t
unfolding move_target set_status
moved_target t s = ground arith

armed_target : (s : Session) → (arm_idle_shutdown s).latest_target ≡ s.latest_target
unfolding arm_idle_shutdown
armed_target s = ground arith

armed_backend : (s : Session) → (arm_idle_shutdown s).backend ≡ s.backend
unfolding arm_idle_shutdown
armed_backend s = ground arith

scrub_clamps :
    (env : Env) (t : ℤ) (s : Session)
    → s.enabled ≡ true
    → is_mpv s.backend && not (s.video_id == 0) ≡ true
    → ltb_ℤ (pos 0) s.duration_ms ≡ true
    → eq_ℤ (scrub env t s).latest_target (clamp_target s.duration_ms t) ≡ true
unfolding scrub
scrub_clamps env t s e a d = ground (
  arith,
  armed_target s,
  armed_backend s,
  moved_target (clamp_target s.duration_ms t) (arm_idle_shutdown s),
  seek_target env (move_target (clamp_target s.duration_ms t) (arm_idle_shutdown s)),
)

clamp_target_lem :
    (d t p : ℤ)
    → (is_position d (clamp_target d t) ≡ true)
      × (is_position d p ≡ true → is_between t (clamp_target d t) p ≡ true)
unfolding clamp_target
clamp_target_lem d t p = (ground arith, λ h. ground arith)

is_position_eq : (d x y : ℤ) → eq_ℤ x y ≡ true → is_position d y ≡ true → is_position d x ≡ true
is_position_eq d x y e h = ground arith

is_between_eq : (t x y p : ℤ) → eq_ℤ x y ≡ true → is_between t y p ≡ true → is_between t x p ≡ true
is_between_eq t x y p e h = ground arith

-- Scrubbing an engaged source of a known length to `t`, by an enabled session, makes the nearest
-- position of the stream to `t` the latest target, whether or not a seek could be sent now: the
-- target lies between 0 and 40 ms before the end, or at 0 in a shorter stream, and on the way from `t`
-- to any such position.
pub scrub-latest_target :
    (env : Env) (t p : ℤ) (s : Session)
    → s.enabled ≡ true
    → is_mpv s.backend && not (s.video_id == 0) ≡ true
    → ltb_ℤ (pos 0) s.duration_ms ≡ true
    → (is_position s.duration_ms (scrub env t s).latest_target ≡ true)
      × (is_position s.duration_ms p ≡ true → is_between t (scrub env t s).latest_target p ≡ true)
scrub-latest_target env t p s e a d =
    let clamped = clamp_target s.duration_ms t in
    let same = scrub_clamps env t s e a d in
    let (inside, nearest) = clamp_target_lem s.duration_ms t p in
    (
      is_position_eq s.duration_ms (scrub env t s).latest_target clamped same inside,
      λ h. is_between_eq t (scrub env t s).latest_target clamped p same (nearest h),
    )
