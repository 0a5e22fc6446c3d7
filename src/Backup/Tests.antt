-- ===== src/Backup/Tests.antt =====
-- src/catalogue/CatalogueM4.cpp: an import between two databases, 1 and 2.
use scrub_tub.Base.{ℕ, ◌≡◌, refl, ◌∷◌, true, false, none, some, [], codes, eq_text, if◌then◌else◌}
use scrub_tub.Backup.{
  Platform, World, copied, restored, unchanged, imported, rows_reset, import_backup, stage_import,
  validate_import, preserve_import, backup_to, restore_import, restore_from, finish_import,
  rejection,
}
use scrub_tub.Backup.Restore.{Ends, import_backup-Ends}

abbrev healthy : Platform ℕ
healthy = record {
  data_dir = codes "/data";
  is_other = λ _. false;
  can_copy = true;
  can_rename = true;
  inspect = λ d. record { open_error = none; version = some d; integrity = [] };
  backup = λ _. copied;
  restore = restored;
}

abbrev world : World ℕ
world = record {
  files = λ q. if eq_text (codes "/usb/b.db") q then some 1 else none;
  active = 2;
  notices = [];
}

import_backup-Ends_example : Ends healthy world (import_backup healthy (codes "/usb/b.db") world)
import_backup-Ends_example = import_backup-Ends healthy (codes "/usb/b.db") world

-- A restore whose step was refused unseen is told as an import, with the old database current.
abbrev busy : Platform ℕ
busy = record healthy { restore = unchanged }

busy_import :
    let w = import_backup busy (codes "/usb/b.db") world in
    (w.active ≡ 2) × (w.notices ≡ imported ∷ rows_reset ∷ [])
unfolding import_backup stage_import validate_import preserve_import backup_to restore_import
    restore_from finish_import rejection
busy_import = (refl, refl)
