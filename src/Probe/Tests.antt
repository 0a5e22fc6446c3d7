-- ===== src/Probe/Tests.antt =====
-- src/media/Probe.cpp: the probe of a film that was filmed upright, with a picture for its cover.
use scrub_tub.Base.{ℕ, Bool, true, false, none, some, [], ◌∷◌, codes, pos, refl}
use scrub_tub.Probe.{
  Stream, Ending, exited, run_probe, parse, read_stream, result_of, first_video,
  normalized_rotation,
}
use scrub_tub.Probe.Schema.{Accepted, output_of, run_probe-Accepted}

abbrev stream : Bool → ℕ → Stream
stream cover index = record {
  codec_type = codes "video";
  is_attached_pic = cover;
  index = some index;
  codec_name = codes "h264";
  width = pos 1920;
  height = pos 1080;
  duration_ms = none;
  rotation = some 90;
}

abbrev upright : Ending
upright = exited 0 [] 900 (
    some (record { streams = stream true 0 ∷ stream false 1 ∷ []; format_duration_ms = some 5000 }))

run_probe-Accepted_example : Accepted (output_of upright) (run_probe upright)
unfolding run_probe parse read_stream result_of first_video normalized_rotation
run_probe-Accepted_example = run_probe-Accepted upright refl
