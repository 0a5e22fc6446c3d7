-- ===== src/Probe.antt =====
-- src/media/Probe.{h,cpp}: the reading of what ffprobe reports. How its process ends is an argument,
-- and so is the document that Qt's JSON reader gives, with each number as `jsonDouble` rounds it: a
-- duration in milliseconds where it is positive, the absolute value of a rotation. A failed result has
-- its kind and its message only.
pub mod Schema
pub mod Tests
use scrub_tub.Base.{
  ℕ, ◌%◌, Bool, true, false, ◌&&◌, ◌||◌, not, Option, none, some, List, [], ◌∷◌, ◌++◌, ◌==◌, leb,
  ltb, if◌then◌else◌, get_elem?, length, ℤ, pos, negsuc, leb_ℤ, ltb_ℤ, pos_part, Text, codes,
  eq_text, take, is_empty,
}

pub data FailKind : Type 0 where
  no_failure bad_media transient_io timeout : FailKind

-- `ProbeResult`
pub record ProbeResult : Type 0 where
  pub ok : Bool
  pub fail_kind : FailKind
  pub error : Text
  pub duration_ms : ℕ
  pub codec : Text
  pub coded_width : ℕ
  pub coded_height : ℕ
  pub display_width : ℕ
  pub display_height : ℕ
  pub rotation_deg : ℕ
  pub selected_stream_index : ℕ

-- A stream of the document.
pub record Stream : Type 0 where
  pub codec_type : Text
  pub is_attached_pic : Bool
  pub index : Option ℕ
  pub codec_name : Text
  pub width : ℤ
  pub height : ℤ
  pub duration_ms : Option ℕ
  pub rotation : Option ℕ

pub record Document : Type 0 where
  pub streams : List Stream
  pub format_duration_ms : Option ℕ

-- How the process ends; the output is measured, and read where it is an object.
pub data Ending : Type 0 where
  cancelled : Ending
  not_started : Text → Ending
  timed_out : Text → Ending
  crashed : Text → Ending
  exited : ℕ → Text → ℕ → Option Document → Ending

abbrev pub max_output_bytes : ℕ
max_output_bytes = 8388608

abbrev pub failed : FailKind → Text → ProbeResult
failed kind message = record {
  ok = false;
  fail_kind = kind;
  error = message;
  duration_ms = 0;
  codec = [];
  coded_width = 0;
  coded_height = 0;
  display_width = 0;
  display_height = 0;
  rotation_deg = 0;
  selected_stream_index = 0;
}

-- `normalizedRotation`
pub normalized_rotation : ℕ → ℕ
normalized_rotation raw =
    let deg = raw % 360 in
    if ltb 45 deg && ltb deg 135
    then 90
    else (if leb 135 deg && leb deg 225
        then 180
        else (if ltb 225 deg && ltb deg 315 then 270 else 0))

abbrev pub is_video : Stream → Bool
is_video st = eq_text st.codec_type (codes "video") && not st.is_attached_pic

-- The first stream of video that is no picture.
pub first_video : List Stream → Option Stream
first_video [] = none
first_video (st ∷ sts) = if is_video st then some st else first_video sts

abbrev pub stream_duration : Option Stream → Option ℕ
stream_duration none = none
stream_duration (some st) = st.duration_ms

-- The stream's duration first, then the container's; 0 where none is positive.
abbrev pub or_else : Option ℕ → Option ℕ → ℕ
or_else (some n) other = n
or_else none (some n) = n
or_else none none = 0

abbrev pub rotation_of : Option Stream → ℕ
rotation_of none = 0
rotation_of (some st) = elim st.rotation [ none ↦ 0 | some raw ↦ normalized_rotation raw ]

abbrev pub is_sideways : ℕ → Bool
is_sideways deg = deg == 90 || deg == 270

abbrev pub is_positive : ℤ → Bool
is_positive z = ltb_ℤ (pos 0) z

abbrev pub eq_flag : Bool → Bool → Bool
eq_flag true b = b
eq_flag false b = not b

-- `(codedWidth > 0) != (codedHeight > 0) || codedWidth < 0 || codedHeight < 0`
abbrev pub has_bad_dimensions : Stream → Bool
has_bad_dimensions st =
    not (eq_flag (is_positive st.width) (is_positive st.height))
    || (ltb_ℤ st.width (pos 0) || ltb_ℤ st.height (pos 0))

-- The result for the stream `st` with its index, where `selected` stands at this index.
abbrev pub reading_of : Document → Stream → ℕ → Option Stream → ProbeResult
reading_of d st index selected =
    let deg = rotation_of selected in
    let width = pos_part st.width in
    let height = pos_part st.height in
    record {
      ok = true;
      fail_kind = no_failure;
      error = [];
      duration_ms = or_else (stream_duration selected) d.format_duration_ms;
      codec = st.codec_name;
      coded_width = width;
      coded_height = height;
      display_width = if is_sideways deg then height else width;
      display_height = if is_sideways deg then width else height;
      rotation_deg = deg;
      selected_stream_index = index;
    }

pub result_of : Document → Stream → ℕ → Option Stream → ProbeResult
result_of d st index selected =
    if has_bad_dimensions st
    then failed bad_media (codes "invalid stream dimensions")
    else reading_of d st index selected

-- The index is read by `toInt(-1)`, and the duration and the rotation from the stream at this
-- position.
pub read_stream : Document → Option Stream → ProbeResult
read_stream d none = failed bad_media (codes "no video stream")
read_stream d (some st) = elim st.index [
  | none ↦ failed bad_media (codes "no video stream")
  | some index ↦ result_of d st index (get_elem? d.streams index)
]

-- `Probe::parse`
pub parse : Option Document → ProbeResult
parse none = failed bad_media (codes "ffprobe JSON parse failure")
parse (some d) = read_stream d (first_video d.streams)

-- `Probe::run`, with the texts of the messages that name a number as arguments. A failed parse has a
-- message always, so that the one for its lack is not reached.
pub run_probe : Ending → ProbeResult
run_probe cancelled = failed transient_io (codes "cancelled before start")
run_probe (not_started message) = failed transient_io (codes "could not start ffprobe: " ++ message)
run_probe (timed_out message) = failed timeout message
run_probe (crashed message) = failed transient_io message
run_probe (exited code message size document) =
    if not (code == 0)
    then failed bad_media message
    else (if ltb max_output_bytes size
        then failed bad_media (codes "ffprobe output exceeded bound")
        else parse document)
