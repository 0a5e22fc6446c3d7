-- ===== src/Catalogue/Finish/Tests.antt =====
-- src/catalogue/Catalogue.cpp: the end of a job at a concrete catalogue.
use scrub_tub.Base.{◌≡◌, refl, true, false, none, some, [], ◌∷◌, codes}
use scrub_tub.Catalogue.{State, ActiveJob, Kind, find_video}
use scrub_tub.Catalogue.Fixtures.{counting, idle, clip}
use scrub_tub.Probe.{ProbeResult, FailKind}
use scrub_tub.Catalogue.Finish.{probed, finish_job}
use scrub_tub.Catalogue.Finish.Stale.{finish_job-keeps}

-- The probe of an earlier revision of `a.mp4`.
abbrev stale : ActiveJob
stale = record {
  address = 7;
  job_id = 1;
  root_id = 1;
  video_id = 1;
  revision = 0;
  kind = Kind.probe;
  duration_ms = none;
  stream_index = 0;
  cancelled = false;
}

abbrev good : ProbeResult
good = record {
  ok = true;
  fail_kind = FailKind.no_failure;
  error = [];
  duration_ms = 5;
  codec = codes "av1";
  coded_width = 2;
  coded_height = 2;
  display_width = 2;
  display_height = 2;
  rotation_deg = 0;
  selected_stream_index = 0;
}

abbrev working : State
working = record idle { active = stale ∷ [] }

finish_job-keeps_example :
    find_video 1 (finish_job counting true 7 (probed good) working).videos
    ≡ some (clip 1 (codes "a.mp4"))
finish_job-keeps_example =
    finish_job-keeps counting true 7 (probed good) working stale 1 (clip 1 (codes "a.mp4")) refl
      refl refl
