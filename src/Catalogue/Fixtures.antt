-- ===== src/Catalogue/Fixtures.antt =====
-- src/catalogue/Catalogue.cpp: a small catalogue for the tests of its operations.
use scrub_tub.Base.{ℕ, ◌+◌, false, none, some, List, [], ◌∷◌, max, Text, codes, pos}
use scrub_tub.Catalogue.{
  State, Entry, Job, Root, Media, RowIds, Availability, ProbeStatus, Kind, JobState, ActiveJob,
  video_ids,
}

-- The greatest number, plus one.
abbrev pub next_id : List ℕ → ℕ
next_id [] = 1
next_id (n ∷ ns) = max (n + 1) (next_id ns)

abbrev pub job_ids : List Job → List ℕ
job_ids [] = []
job_ids (j ∷ js) = j.id ∷ job_ids js

abbrev pub root_ids : List Root → List ℕ
root_ids [] = []
root_ids (r ∷ rs) = r.id ∷ root_ids rs

abbrev pub addresses : List ActiveJob → List ℕ
addresses [] = []
addresses (j ∷ js) = j.address ∷ addresses js

abbrev pub counting : RowIds
counting = record {
  address = λ js. next_id (addresses js);
  video = λ vs. next_id (video_ids vs);
  job = λ js. next_id (job_ids js);
  root = λ rs. next_id (root_ids rs);
}

abbrev pub probed_media : Media
probed_media = record {
  duration_ms = some 60000;
  coded_width = some 640;
  coded_height = some 480;
  display_width = some 640;
  display_height = some 480;
  rotation_deg = some 0;
  codec = some (codes "h264");
  stream_index = some 0;
}

abbrev pub clip : ℕ → Text → Entry
clip id key = record {
  id = id;
  root_id = 1;
  rel_path = key;
  cmp_key = key;
  file_name = key;
  size_bytes = pos 9;
  mtime_ms = pos 5;
  revision = 1;
  media = probed_media;
  notes = record { rating = some 4; views = 2; added_ms = 1; last_opened_ms = none };
  availability = Availability.available;
  probe_status = ProbeStatus.ok;
  probe_error = [];
  seen_generation = some 3;
}

abbrev pub films : Root
films = record {
  id = 1;
  path = codes "/films";
  cmp_key = codes "/films";
  is_missing = false;
  include_hidden = false;
  scan_generation = 3;
  last_complete_scan_ms = none;
}

abbrev pub waiting_job : ℕ → ℕ → Kind → Job
waiting_job id video kind = record {
  id = id;
  video_id = video;
  revision = 1;
  kind = kind;
  state = JobState.queued;
  retries = 0;
  message = [];
}

-- Two videos in one root, and nothing to do.
abbrev pub idle : State
idle = record {
  roots = films ∷ [];
  videos = clip 1 (codes "a.mp4") ∷ clip 2 (codes "b.mp4") ∷ [];
  jobs = [];
  cache = [];
  in_transaction = false;
  removed_files = [];
  signals = [];
  pause_requested = false;
  cancel_requested = false;
  scan_active = false;
  scan_force = false;
  scanned_root = 0;
  scan_state = codes "idle";
  sparse_pass_queued = false;
  dispatch_timer = false;
  discovered = 0;
  probed = 0;
  errors = 0;
  active = [];
  job_concurrency = 2;
  preview_concurrency = 2;
  cache_bytes = none;
  cache_limit = pos 100;
}
