-- ===== src/Backup/Restore.antt =====
-- src/catalogue/CatalogueM4.cpp: what an import does to the current database (importBackup).
use scrub_tub.Base.{
  ◌≡◌, ◌⊎◌, ◌∙◌, refl, ap, Bool, true, false, Option, none, some, [], ◌∷◌, ◌++◌, if◌then◌else◌,
  is_some, arith, Bool-cases, inl, inr, Text, codes, eq_text, eq_text_refl,
}
use scrub_tub.Backup.{
  Notice, not_found, not_staged, rows_reset, imported, not_preserved, not_restored, exported,
  Inspection, Copy, copied, skipped, not_started, not_finished, Outcome, failed, restored,
  unchanged, World, Platform, tell, put_file, remove_file, staging_path, preserve_path, backup_to,
  rejection, restore_from, finish_import, restore_import, preserve_import, validate_import,
  stage_import, import_backup,
}

abbrev pub is_failure : Notice → Bool
is_failure imported = false
is_failure (exported _) = false
is_failure rows_reset = false
is_failure _ = true

eq_text-append : (a b c : Text) → eq_text (a ++ b) (a ++ c) ≡ eq_text b c
eq_text-append [] b c = refl
eq_text-append (x ∷ a) b c = ground (arith, eq_text-append a b c)

rejection-is_failure : (i : Inspection) (n : Notice) → rejection i ≡ some n → is_failure n ≡ true
unfolding rejection
rejection-is_failure i n h = ground arith

module _ {ℓ} {D : Type ℓ} where
  -- One failure is told, and the current database is as it was.
  abbrev pub Refused : World D → World D → Type ℓ
  Refused old new =
      (n : Notice) × (new.notices ≡ n ∷ old.notices)
      × (is_failure n ≡ true)
      × (new.active ≡ old.active)

  -- A step of SQLite that was refused unseen.
  abbrev pub is_skipped : Copy D → Bool
  is_skipped (skipped left) = true
  is_skipped _ = false

  abbrev pub is_unchanged : Outcome D → Bool
  is_unchanged unchanged = true
  is_unchanged _ = false

  -- The import is told. If the step of the restore was made, a database that passed the checks is
  -- current, otherwise the one before; if the step of the copy was made, the one before is in the file
  -- for it.
  abbrev pub Told : Platform D → World D → World D → Type ℓ
  Told p old new =
      (new.notices ≡ imported ∷ rows_reset ∷ old.notices)
      × (new.files (staging_path p) ≡ none)
      × (is_unchanged p.restore ≡ false → rejection (p.inspect new.active) ≡ none)
      × (is_unchanged p.restore ≡ true → new.active ≡ old.active)
      × (is_skipped (p.backup (preserve_path p)) ≡ false
          → new.files (preserve_path p) ≡ some old.active)

  -- An import ends in one of the two ways.
  abbrev pub Ends : Platform D → World D → World D → Type ℓ
  Ends p old new = Refused old new ⊎ Told p old new

  -- The removal of the staged copy leaves the pre-restore file.
  preserved :
      (p : Platform D) (w : World D)
      → (remove_file (staging_path p) w).files (preserve_path p) ≡ w.files (preserve_path p)
  preserved p w =
      let apart : eq_text (staging_path p) (preserve_path p) ≡ false =
        eq_text-append p.data_dir (codes "/restore-staging.db")
          (codes "/catalogue.db.pre-restore") in
      rw apart refl

  -- Behind the preservation of the current database.
  restore-Ends :
      (p : Platform D) (d : D) (o : Outcome D) (old w : World D)
      → p.restore ≡ o
      → rejection (p.inspect d) ≡ none
      → w.active ≡ old.active
      → w.notices ≡ old.notices
      → (is_skipped (p.backup (preserve_path p)) ≡ false
          → w.files (preserve_path p) ≡ some old.active)
      → Ends p old (restore_import o (staging_path p) d w)
  unfolding restore_import restore_from finish_import
  restore-Ends p d (failed m) old w r ok a n k =
      inl (not_restored m, ap (λ l. not_restored m ∷ l) n, refl, a)
  restore-Ends p d restored old w r ok a n k = inr (
    ap (λ l. imported ∷ rows_reset ∷ l) n,
    ground (arith, eq_text_refl (staging_path p)),
    (λ _. ok),
    (λ h. absurd (ground (arith, ap is_unchanged r, h))),
    (λ h. preserved p w ∙ k h),
  )
  restore-Ends p d unchanged old w r ok a n k = inr (
    ap (λ l. imported ∷ rows_reset ∷ l) n,
    ground (arith, eq_text_refl (staging_path p)),
    (λ h. absurd (ground (arith, ap is_unchanged r, h))),
    (λ _. a),
    (λ h. preserved p w ∙ k h),
  )

  preserve-Ends :
      (p : Platform D) (d : D) (c : Copy D) (old w : World D)
      → p.backup (preserve_path p) ≡ c
      → rejection (p.inspect d) ≡ none
      → w.active ≡ old.active
      → w.notices ≡ old.notices
      → Ends p old (
          preserve_import p.restore
            (staging_path p)
            d
            (backup_to c (preserve_path p) (remove_file (preserve_path p) w)))
  unfolding preserve_import backup_to
  preserve-Ends p d (not_started m o) old w b ok a n =
      inl (not_preserved m, ap (λ l. not_preserved m ∷ l) n, refl, a)
  preserve-Ends p d (not_finished m) old w b ok a n =
      inl (not_preserved m, ap (λ l. not_preserved m ∷ l) n, refl, a)
  preserve-Ends p d (skipped o) old w b ok a n =
      restore-Ends p d p.restore old
        (put_file (preserve_path p) o (remove_file (preserve_path p) w)) refl ok a n
        (λ h. absurd (ground (arith, ap is_skipped b, h)))
  preserve-Ends p d copied old w b ok a n =
      let path = preserve_path p in
      restore-Ends p d p.restore old (put_file path (some w.active) (remove_file path w)) refl ok a
        n (λ h. ground (arith, eq_text_refl path, a))

  validate-Ends :
      (p : Platform D) (d : D) (o : Option Notice) (old w : World D)
      → rejection (p.inspect d) ≡ o
      → w.active ≡ old.active
      → w.notices ≡ old.notices
      → Ends p old (validate_import p d o w)
  unfolding validate_import
  validate-Ends p d (some m) old w r a n =
      inl (m, ap (λ l. m ∷ l) n, rejection-is_failure (p.inspect d) m r, a)
  validate-Ends p d none old w r a n =
      preserve-Ends p d (p.backup (preserve_path p)) old w refl r a n

  if-Ends :
      (p : Platform D) (old : World D) (t : Bool) (a b : World D)
      → Ends p old a
      → Ends p old b
      → Ends p old (if t then a else b)
  if-Ends p old true a b h k = h
  if-Ends p old false a b h k = k

  stage-Ends :
      (p : Platform D) (o : Option D) (old w : World D)
      → w.active ≡ old.active
      → w.notices ≡ old.notices
      → Ends p old (stage_import p o w)
  unfolding stage_import
  stage-Ends p none old w a n = inl (not_staged, ap (λ l. not_staged ∷ l) n, refl, a)
  stage-Ends p (some d) old w a n =
      let validated =
        validate_import p d (rejection (p.inspect d)) (put_file (staging_path p) (some d) w) in
      if-Ends p old p.can_copy validated (tell not_staged w)
        (validate-Ends p d (rejection (p.inspect d)) old (put_file (staging_path p) (some d) w) refl
          a n)
        (inl (not_staged, ap (λ l. not_staged ∷ l) n, refl, a))

  -- Whatever the backup holds and whichever step fails, an import ends in one of two ways. It tells
  -- one failure and leaves the current database as it was; or it tells the reset of the rows and the
  -- import, and the staged copy is gone. Then, if SQLite made the step of the restore, the current
  -- database is one that passed the checks of the staged copy; if SQLite refused that step unseen,
  -- the current database is the one before, although the import is told; and if SQLite made the step
  -- of the copy, the database before is in the pre-restore file.
  pub import_backup-Ends :
      (p : Platform D) (source : Text) (w : World D) → Ends p w (import_backup p source w)
  unfolding import_backup
  import_backup-Ends p source w = elim (Bool-cases (is_some (w.files source))) [
    | inl e ↦
        let cleared = remove_file (staging_path p) w in
        rw e (stage-Ends p (cleared.files source) w cleared refl refl)
    | inr e ↦ rw e (inl (not_found, refl, refl, refl))
  ]
