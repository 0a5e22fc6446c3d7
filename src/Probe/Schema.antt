-- ===== src/Probe/Schema.antt =====
-- src/media/Probe.cpp and src/catalogue/Catalogue.cpp: what a probe reports meets the constraints of
-- the table `videos` (src/catalogue/Database.cpp).
use scrub_tub.Base.{
  ℕ, zero, suc, ◌≡◌, ◌⊎◌, ◌<◌, refl, sym, ap, subst, ◌∙◌, Bool, true, false, ◌||◌, not, Option,
  none, some, List, [], ◌∷◌, ◌==◌, ltb, if◌then◌else◌, get_elem?, ℤ, pos, negsuc, ltb_ℤ, pos_part,
  arith, Bool-cases, Option-cases, inl, inr,
}
use scrub_tub.Probe.{
  ProbeResult, Stream, Document, Ending, cancelled, not_started, timed_out, crashed, exited,
  normalized_rotation, first_video, is_video, result_of, read_stream, parse, run_probe,
  max_output_bytes, rotation_of, is_sideways, has_bad_dimensions, eq_flag, is_positive, reading_of,
}

-- The CHECKs of the schema on the dimensions and the rotation, with the sides as they are shown.
pub record IsStorable (r : ProbeResult) : Type 0 where
  pub turned :
      (r.rotation_deg ≡ 0)
      ⊎ ((r.rotation_deg ≡ 90) ⊎ ((r.rotation_deg ≡ 180) ⊎ (r.rotation_deg ≡ 270)))
  pub sized :
      ((r.coded_width ≡ 0) × (r.coded_height ≡ 0)) ⊎ ((0 < r.coded_width) × (0 < r.coded_height))
  pub shown :
      ((is_sideways r.rotation_deg ≡ false)
        × (r.display_width ≡ r.coded_width)
        × (r.display_height ≡ r.coded_height))
      ⊎ ((is_sideways r.rotation_deg ≡ true)
          × (r.display_width ≡ r.coded_height)
          × (r.display_height ≡ r.coded_width))
  pub silent : r.error ≡ []

rotation_of-turned :
    (o : Option Stream)
    → (rotation_of o ≡ 0) ⊎ ((rotation_of o ≡ 90) ⊎ ((rotation_of o ≡ 180) ⊎ (rotation_of o ≡ 270)))
unfolding normalized_rotation
rotation_of-turned none = inl refl
rotation_of-turned (some st) = ground arith

-- Both sides are positive or neither is.
sides :
    (w h : ℤ)
    → (not (eq_flag (is_positive w) (is_positive h)) || (ltb_ℤ w (pos 0) || ltb_ℤ h (pos 0)))
      ≡ false
    → ((pos_part w ≡ 0) × (pos_part h ≡ 0)) ⊎ ((0 < pos_part w) × (0 < pos_part h))
sides (pos zero) (pos zero) e = inl (refl, refl)
sides (pos zero) (pos (suc h)) e = absurd (ground arith)
sides (pos (suc w)) (pos zero) e = absurd (ground arith)
sides (pos (suc w)) (pos (suc h)) e = inr (omega arith, omega arith)
sides (negsuc w) h e = absurd (ground arith)
sides (pos w) (negsuc h) e = absurd (ground arith)

shown_sides :
    (t : Bool) (w h : ℕ)
    → ((t ≡ false) × ((if t then h else w) ≡ w) × ((if t then w else h) ≡ h))
      ⊎ ((t ≡ true) × ((if t then h else w) ≡ h) × ((if t then w else h) ≡ w))
shown_sides true w h = inr (refl, refl, refl)
shown_sides false w h = inl (refl, refl, refl)

reading_of-IsStorable :
    (d : Document) (st : Stream) (index : ℕ) (o : Option Stream)
    → has_bad_dimensions st ≡ false
    → IsStorable (reading_of d st index o)
reading_of-IsStorable d st index o e = record {
  turned = rotation_of-turned o;
  sized = sides st.width st.height (ground arith);
  shown = shown_sides (is_sideways (rotation_of o)) (pos_part st.width) (pos_part st.height);
  silent = refl;
}

first_video-is_video :
    (sts : List Stream) (st : Stream) → first_video sts ≡ some st → is_video st ≡ true
unfolding first_video
first_video-is_video [] st h = cc
first_video-is_video (u ∷ sts) st h = ground (arith, first_video-is_video sts st)

-- The result is read from the first stream of video that is no attached picture, at its index.
abbrev pub IsReadFrom : Document → ProbeResult → Type 0
IsReadFrom d r =
    (st : Stream) × (first_video d.streams ≡ some st)
    × (is_video st ≡ true)
    × (st.index ≡ some r.selected_stream_index)
    × (r.codec ≡ st.codec_name)

abbrev pub Accepted : Option Document → ProbeResult → Type 0
Accepted o r = IsStorable r × ((d : Document) × ((o ≡ some d) × IsReadFrom d r))

-- What the process wrote.
abbrev pub output_of : Ending → Option Document
output_of (exited code message size document) = document
output_of _ = none

parse-Accepted : (o : Option Document) → (parse o).ok ≡ true → Accepted o (parse o)
unfolding parse read_stream result_of
parse-Accepted none h = absurd (ground arith)
parse-Accepted (some d) h = elim (Option-cases (first_video d.streams)) [
  | inl e ↦ absurd (ground (arith, e))
  | inr (st, e) ↦ elim (Option-cases st.index) [
    | inl i ↦ absurd (ground (arith, e, i))
    | inr (n, i) ↦ elim (Bool-cases (has_bad_dimensions st)) [
      | inl b ↦ absurd (ground (arith, e, i, b))
      | inr b ↦
          let selected = get_elem? d.streams n in
          let same : parse (some d) ≡ reading_of d st n selected = ground (arith, e, i, b) in
          subst (Accepted (some d)) (sym same) (
            reading_of-IsStorable d st n selected b,
            (d, (refl, (st, e, first_video-is_video d.streams st e, i, refl))),
          )
    ]
  ]
]

-- A probe that succeeds gives what the table of videos admits: a rotation by 0, 90, 180 or 270 degrees,
-- coded sides that are both positive or both 0, shown sides that are the coded ones, swapped exactly
-- for 90 and 270 degrees, and no message; and its codec and index are those of the first stream of
-- video in the output that is no attached picture.
pub run_probe-Accepted :
    (e : Ending) → (run_probe e).ok ≡ true → Accepted (output_of e) (run_probe e)
unfolding run_probe
run_probe-Accepted cancelled h = absurd (ground arith)
run_probe-Accepted (not_started m) h = absurd (ground arith)
run_probe-Accepted (timed_out m) h = absurd (ground arith)
run_probe-Accepted (crashed m) h = absurd (ground arith)
run_probe-Accepted (exited code m size o) h = elim (Bool-cases (code == 0)) [
  | inr c ↦ absurd (ground (arith, c))
  | inl c ↦ elim (Bool-cases (ltb max_output_bytes size)) [
    | inl l ↦ absurd (ground (arith, c, l))
    | inr l ↦
        let same : run_probe (exited code m size o) ≡ parse o = ground (arith, c, l) in
        subst (Accepted o) (sym same) (parse-Accepted o (ap ProbeResult.ok (sym same) ∙ h))
  ]
]
