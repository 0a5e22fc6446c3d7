-- ===== src/Settings.antt =====
-- src/catalogue/CatalogueM4.cpp: the settings of the interface in the table `settings`.
pub mod RoundTrip
mod Tests
use scrub_tub.Base.{
  ℕ, Bool, true, false, not, Option, none, some, List, [], ◌∷◌, ◌++◌, if◌then◌else◌, keep_if, ℤ,
  pos, eq_ℤ, Text, codes, eq_text,
}

-- A row is a key and its value; the version is always 1.
abbrev pub Store : Type 0
Store = List (Text × Text)

pub find_setting : Text → Store → Option Text
find_setting key [] = none
find_setting key ((k, v) ∷ rows) = if eq_text k key then some v else find_setting key rows

-- `INSERT OR REPLACE INTO settings`
pub set_setting_text : Text → Text → Store → Store
set_setting_text key value rows = keep_if (λ (k, v). not (eq_text k key)) rows ++ (key, value) ∷ []

pub setting_text : Text → Text → Store → Text
setting_text key fallback rows = elim (find_setting key rows) [ none ↦ fallback | some v ↦ v ]

-- Qt's numbers as texts: `QString::number` and `toLongLong`.
pub record Numbers : Type 0 where
  pub number : ℤ → Text
  pub to_long_long : Text → Option ℤ

-- The keys of the map that are present.
pub record UiSettings : Type 0 where
  pub card_size : Option ℤ
  pub sort_key : Option Text
  pub sort_descending : Option Bool
  pub cached_only : Option Bool
  pub startup_refresh : Option Bool
  pub disk_cache_bytes : Option ℤ

abbrev pub flag : Bool → ℤ
flag true = pos 1
flag false = pos 0

-- What `settingsReady` carries.
pub record Restored : Type 0 where
  pub card_size : ℤ
  pub sort_key : Text
  pub sort_descending : Bool
  pub cached_only : Bool
  pub startup_refresh : Bool

module _ (q : Numbers) where
  pub set_setting_int : Text → ℤ → Store → Store
  set_setting_int key value rows = set_setting_text key (q.number value) rows

  pub setting_int : Text → ℤ → Store → ℤ
  setting_int key fallback rows = elim (find_setting key rows) [
    | none ↦ fallback
    | some t ↦ elim (q.to_long_long t) [ none ↦ fallback | some n ↦ n ]
  ]

  pub save_int : Text → Option ℤ → Store → Store
  save_int key none rows = rows
  save_int key (some n) rows = set_setting_int key n rows

  pub save_flag : Text → Option Bool → Store → Store
  save_flag key none rows = rows
  save_flag key (some b) rows = set_setting_int key (flag b) rows

  pub save_text : Text → Option Text → Store → Store
  save_text key none rows = rows
  save_text key (some t) rows = set_setting_text key t rows

  pub save_ui_settings_map : UiSettings → Store → Store
  save_ui_settings_map m rows = save_int (codes "disk_cache_bytes") m.disk_cache_bytes (
      save_flag (codes "ui_startup_refresh") m.startup_refresh (
        save_flag (codes "ui_cached_only") m.cached_only (
          save_flag (codes "ui_sort_desc") m.sort_descending (
            save_text (codes "ui_sort_key") m.sort_key
              (save_int (codes "ui_card_size") m.card_size rows)))))

  pub restore_settings : Store → Restored
  restore_settings rows = record {
    card_size = setting_int (codes "ui_card_size") (pos 240) rows;
    sort_key = setting_text (codes "ui_sort_key") (codes "added") rows;
    sort_descending = not (eq_ℤ (setting_int (codes "ui_sort_desc") (pos 0) rows) (pos 0));
    cached_only = not (eq_ℤ (setting_int (codes "ui_cached_only") (pos 0) rows) (pos 0));
    startup_refresh = not (eq_ℤ (setting_int (codes "ui_startup_refresh") (pos 1) rows) (pos 0));
  }
