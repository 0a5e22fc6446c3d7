-- ===== src/Row.antt =====
-- src/catalogue/VideoRow.h: the row types that the catalogue, the model and the views share.
-- Identifiers are SQLite row ids, natural numbers; -1 stands for an unknown size, time or length.
use scrub_tub.Base.{ℕ, Bool, false, [], ℤ, pos, minus_one, Text}

pub record VideoRow : Type 0 where
  pub id : ℕ
  pub root_id : ℕ
  pub rel_path : Text
  pub file_name : Text
  pub size_bytes : ℤ
  pub mtime_ms : ℤ
  pub revision : ℕ
  pub duration_ms : ℤ
  pub display_width : ℤ
  pub display_height : ℤ
  pub codec : Text
  pub rating : ℕ
  pub views : ℕ
  pub added_ms : ℕ
  pub availability : Text
  pub probe_status : Text
  pub probe_error : Text
  pub poster_ready : Bool
  pub atlas_ready : Bool

-- `VideoRow()`
abbrev pub default_row : VideoRow
default_row = record {
  id = 0;
  root_id = 0;
  rel_path = [];
  file_name = [];
  size_bytes = minus_one;
  mtime_ms = minus_one;
  revision = 1;
  duration_ms = minus_one;
  display_width = pos 0;
  display_height = pos 0;
  codec = [];
  rating = 0;
  views = 0;
  added_ms = 0;
  availability = [];
  probe_status = [];
  probe_error = [];
  poster_ready = false;
  atlas_ready = false;
}

pub record RootInfo : Type 0 where
  pub id : ℕ
  pub path : Text
  pub status : Text
  pub include_hidden : Bool

pub record ScanProgress : Type 0 where
  pub root_id : ℕ
  pub root_path : Text
  pub state : Text
  pub discovered : ℕ
  pub probed : ℕ
  pub errors : ℕ
  pub remaining : ℕ
  pub previews_remaining : ℕ
  pub processed : ℕ
  pub failed : ℕ
