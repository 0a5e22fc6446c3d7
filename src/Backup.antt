-- ===== src/Backup.antt =====
-- src/catalogue/CatalogueM4.cpp (exportBackup, importBackup) and src/catalogue/Database.cpp (backupTo,
-- restoreFrom): backup and restore over a parameter for the contents of a database. What SQLite and
-- the platform answer is an argument. The result of the single `sqlite3_backup_step` is not looked
-- at, and `sqlite3_backup_finish` reports no error behind a step that was refused because a database
-- is busy or locked: so a copy that reports success can be incomplete, and a restore that reports
-- success can have changed nothing.
pub mod Restore
pub mod Tests
use scrub_tub.Base.{
  ℕ, Bool, true, false, ◌&&◌, not, Option, none, some, List, [], ◌∷◌, ◌++◌, ltb, if◌then◌else◌,
  is_some, Text, codes, eq_text, is_empty,
}

-- What the user is told.
pub data Notice : Type 0 where
  destination_not_file not_moved not_found not_staged no_version rows_reset imported : Notice
  backup_failed not_a_database corrupt not_preserved not_restored exported : Text → Notice
  newer_schema : ℕ → Notice

-- `Database::kSchemaVersion`
abbrev pub schema_version : ℕ
schema_version = 2

-- What the validation reads from a staged copy.
pub record Inspection : Type 0 where
  pub open_error : Option Text
  pub version : Option ℕ
  pub integrity : Text

-- The checks of the staged copy, in their order.
pub rejection : Inspection → Option Notice
rejection i = elim i.open_error [
  | some message ↦ some (not_a_database message)
  | none ↦ elim i.version [
    | none ↦ some no_version
    | some n ↦
        if ltb schema_version n
        then some (newer_schema n)
        else (if is_empty i.integrity then none else some (corrupt i.integrity))
  ]
]

module _ {ℓ} (D : Type ℓ) where
  -- How a copy by SQLite ends. One that reports success was made, or it was refused unseen and
  -- leaves what stands at the destination, as does one that does not start.
  pub data Copy : Type ℓ where
    copied : Copy
    skipped : Option D → Copy
    not_started : Text → Option D → Copy
    not_finished : Text → Copy

  pub record World : Type ℓ where
    pub files : Text → Option D
    pub active : D
    pub notices : List Notice

  -- How a restore by SQLite ends: with an error, which leaves the current database as it was, or
  -- with success, whether its step was made or refused unseen.
  pub data Outcome : Type ℓ where
    failed : Text → Outcome
    restored unchanged : Outcome

  pub record Platform : Type ℓ where
    pub data_dir : Text
    pub is_other : Text → Bool
    pub can_copy : Bool
    pub can_rename : Bool
    pub inspect : D → Inspection
    pub backup : Text → Copy
    pub restore : Outcome

module _ {ℓ} {D : Type ℓ} where
  abbrev pub tell : Notice → World D → World D
  tell n w = record w { notices = n ∷ w.notices }

  abbrev pub put_file : Text → Option D → World D → World D
  put_file path o w = record w { files = λ q. if eq_text path q then o else w.files q }

  abbrev pub remove_file : Text → World D → World D
  remove_file path w = put_file path none w

  abbrev pub staging_path : Platform D → Text
  staging_path p = p.data_dir ++ codes "/restore-staging.db"

  abbrev pub preserve_path : Platform D → Text
  preserve_path p = p.data_dir ++ codes "/catalogue.db.pre-restore"

  -- `backupTo`: the error, and the files.
  pub backup_to : Copy D → Text → World D → Option Text × World D
  backup_to copied dest w = (none, put_file dest (some w.active) w)
  backup_to (skipped left) dest w = (none, put_file dest left w)
  backup_to (not_started message left) dest w = (some message, put_file dest left w)
  backup_to (not_finished message) dest w = (some message, remove_file dest w)

  pub move_backup : Platform D → Text → Text → World D → World D
  move_backup p temp dest w =
      let cleared = remove_file dest w in
      if p.can_rename
      then tell (exported dest) (remove_file temp (put_file dest (w.files temp) cleared))
      else tell not_moved (remove_file temp cleared)

  pub export_to : Platform D → Text → Text → Option Text × World D → World D
  export_to p temp dest (some message, w) = tell (backup_failed message) (remove_file temp w)
  export_to p temp dest (none, w) = move_backup p temp dest w

  -- `exportBackup`
  pub export_backup : Platform D → Text → World D → World D
  export_backup p dest w =
      let temp = dest ++ codes ".scrubtub-tmp" in
      if p.is_other dest
      then tell destination_not_file w
      else export_to p temp dest (backup_to (p.backup temp) temp (remove_file temp w))

  -- `restoreFrom`: the error, and the current database.
  pub restore_from : Outcome D → D → World D → Option Text × World D
  restore_from (failed message) d w = (some message, w)
  restore_from restored d w = (none, record w { active = d })
  restore_from unchanged d w = (none, w)

  pub finish_import : Text → Option Text × World D → World D
  finish_import staging (some message, w) = tell (not_restored message) (remove_file staging w)
  finish_import staging (none, w) = tell imported (tell rows_reset (remove_file staging w))

  pub restore_import : Outcome D → Text → D → World D → World D
  restore_import o staging d w = finish_import staging (restore_from o d w)

  pub preserve_import : Outcome D → Text → D → Option Text × World D → World D
  preserve_import outcome staging d (some message, w) =
      tell (not_preserved message) (remove_file staging w)
  preserve_import outcome staging d (none, w) = restore_import outcome staging d w

  pub validate_import : Platform D → D → Option Notice → World D → World D
  validate_import p d (some n) w = tell n (remove_file (staging_path p) w)
  validate_import p d none w =
      preserve_import p.restore (staging_path p) d
        (backup_to (p.backup (preserve_path p)) (preserve_path p) (remove_file (preserve_path p) w))

  -- The copy of the source, which the removal of an old copy may have taken away.
  pub stage_import : Platform D → Option D → World D → World D
  stage_import p none w = tell not_staged w
  stage_import p (some d) w =
      if p.can_copy
      then validate_import p d (rejection (p.inspect d)) (put_file (staging_path p) (some d) w)
      else tell not_staged w

  -- `importBackup`
  pub import_backup : Platform D → Text → World D → World D
  import_backup p source w =
      let cleared = remove_file (staging_path p) w in
      if is_some (w.files source)
      then stage_import p (cleared.files source) cleared
      else tell not_found w
