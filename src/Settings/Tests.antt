-- ===== src/Settings/Tests.antt =====
-- A concrete round of saving and restoring.
use scrub_tub.Base.{◌≡◌, refl, true, Option, none, some, [], ◌∷◌, ℤ, pos, negsuc, Text, codes}
use scrub_tub.Settings.{Store, Numbers, UiSettings, save_ui_settings_map, restore_settings}
use scrub_tub.Settings.RoundTrip.{restore-save, or_else}

-- A number as one unit, behind a sign where it is negative.
abbrev number : ℤ → Text
number (pos n) = n ∷ []
number (negsuc n) = 0 ∷ n ∷ []

abbrev read : Text → Option ℤ
read (n ∷ []) = some (pos n)
read (sign ∷ n ∷ []) = some (negsuc n)
read _ = none

read-number : (n : ℤ) → read (number n) ≡ some n
read-number (pos n) = refl
read-number (negsuc n) = refl

abbrev numbers : Numbers
numbers = record { number = number; to_long_long = read }

abbrev saved : UiSettings
saved = record {
  card_size = some (pos 300);
  sort_key = some (codes "name");
  sort_descending = none;
  cached_only = some true;
  startup_refresh = none;
  disk_cache_bytes = none;
}

abbrev empty : Store
empty = []

restore-save_example :
    (((restore_settings numbers (save_ui_settings_map numbers saved empty)).card_size
        ≡ or_else (some (pos 300)) (restore_settings numbers empty).card_size)
      × ((restore_settings numbers (save_ui_settings_map numbers saved empty)).sort_key
          ≡ or_else (some (codes "name")) (restore_settings numbers empty).sort_key))
    × (((restore_settings numbers (save_ui_settings_map numbers saved empty)).sort_descending
          ≡ or_else none (restore_settings numbers empty).sort_descending)
        × (((restore_settings numbers (save_ui_settings_map numbers saved empty)).cached_only
              ≡ or_else (some true) (restore_settings numbers empty).cached_only)
            × ((restore_settings numbers (save_ui_settings_map numbers saved empty)).startup_refresh
                ≡ or_else none (restore_settings numbers empty).startup_refresh)))
restore-save_example = restore-save numbers read-number saved empty
