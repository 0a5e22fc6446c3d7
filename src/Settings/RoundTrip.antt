-- ===== src/Settings/RoundTrip.antt =====
-- Settings are restored as they were saved.
use scrub_tub.Base.{
  ◌≡◌, refl, sym, ap, subst, ◌∙◌, inl, inr, Bool, true, false, not, Option, none, some, [], ◌∷◌,
  ◌++◌, arith, keep_if, ℤ, pos, eq_ℤ, Text, codes, eq_text, eq_text→eq, eq_text_refl, Bool-cases,
}
use scrub_tub.Settings.{
  Store, find_setting, set_setting_text, setting_text, Numbers, UiSettings, flag, set_setting_int,
  setting_int, save_int, save_flag, save_text, save_ui_settings_map, restore_settings,
}

abbrev card : Text
card = codes "ui_card_size"

abbrev sort : Text
sort = codes "ui_sort_key"

abbrev desc : Text
desc = codes "ui_sort_desc"

abbrev cached : Text
cached = codes "ui_cached_only"

abbrev startup : Text
startup = codes "ui_startup_refresh"

abbrev disk : Text
disk = codes "disk_cache_bytes"

find_setting-append :
    (k key v : Text) (rows : Store)
    → find_setting k rows ≡ none
    → find_setting k (rows ++ (key, v) ∷ []) ≡ find_setting k ((key, v) ∷ [])
unfolding find_setting
find_setting-append k key v [] h = refl
find_setting-append k key v ((j, w) ∷ rows) h = ground (arith, h, find_setting-append k key v rows)

find_setting_removed :
    (key : Text) (rows : Store)
    → find_setting key (keep_if (λ (k, v). not (eq_text k key)) rows) ≡ none
unfolding find_setting
find_setting_removed key [] = refl
find_setting_removed key ((j, w) ∷ rows) = ground (arith, find_setting_removed key rows)

find_setting-set :
    (key v : Text) (rows : Store) → find_setting key (set_setting_text key v rows) ≡ some v
unfolding set_setting_text find_setting
find_setting-set key v rows =
    find_setting-append key key v (keep_if (λ (k, v'). not (eq_text k key)) rows)
      (find_setting_removed key rows)
    ∙ ground (arith, eq_text_refl key)

find_setting-other :
    (k key v : Text) (rows : Store)
    → eq_text key k ≡ false
    → find_setting k (set_setting_text key v rows) ≡ find_setting k rows
unfolding set_setting_text find_setting
find_setting-other k key v [] h = ground (arith, h)
find_setting-other k key v ((j, w) ∷ rows) h = elim (Bool-cases (eq_text j key)) [
  | inl e ↦ ground (
    arith,
    e,
    find_setting-other k key v rows h,
    subst (λ x. eq_text x k ≡ false) (sym (eq_text→eq j key e)) h,
  )
  | inr e ↦ ground (arith, e, find_setting-other k key v rows h)
]

-- The value given, or else the one that was there.
abbrev pub or_else {ℓ} : {A : Type ℓ} → Option A → A → A
or_else none x = x
or_else (some y) x = y

module _ (q : Numbers) where
  skip_int :
      (k key : Text) (o : Option ℤ) (rows : Store)
      → eq_text key k ≡ false
      → find_setting k (save_int q key o rows) ≡ find_setting k rows
  unfolding save_int set_setting_int
  skip_int k key none rows h = refl
  skip_int k key (some n) rows h = find_setting-other k key (q.number n) rows h

  skip_flag :
      (k key : Text) (o : Option Bool) (rows : Store)
      → eq_text key k ≡ false
      → find_setting k (save_flag q key o rows) ≡ find_setting k rows
  unfolding save_flag set_setting_int
  skip_flag k key none rows h = refl
  skip_flag k key (some b) rows h = find_setting-other k key (q.number (flag b)) rows h

  skip_text :
      (k key : Text) (o : Option Text) (rows : Store)
      → eq_text key k ≡ false
      → find_setting k (save_text q key o rows) ≡ find_setting k rows
  unfolding save_text
  skip_text k key none rows h = refl
  skip_text k key (some t) rows h = find_setting-other k key t rows h

  setting_text-save_text :
      (key fallback : Text) (o : Option Text) (rows : Store)
      → setting_text key fallback (save_text q key o rows)
        ≡ or_else o (setting_text key fallback rows)
  unfolding setting_text save_text
  setting_text-save_text key fallback none rows = refl
  setting_text-save_text key fallback (some t) rows =
      rw (find_setting-set key t rows, setting_text) refl

  setting_text-eq :
      (key fallback : Text) (a b : Store)
      → find_setting key a ≡ find_setting key b
      → setting_text key fallback a ≡ setting_text key fallback b
  unfolding setting_text
  setting_text-eq key fallback a b h = rw (h, setting_text) refl

  setting_int-eq :
      (key : Text) (fallback : ℤ) (a b : Store)
      → find_setting key a ≡ find_setting key b
      → setting_int q key fallback a ≡ setting_int q key fallback b
  unfolding setting_int
  setting_int-eq key fallback a b h = rw (h, setting_int) refl

  module _ (back : (n : ℤ) → q.to_long_long (q.number n) ≡ some n) where
    setting_int-save_int :
        (key : Text) (fallback : ℤ) (o : Option ℤ) (rows : Store)
        → setting_int q key fallback (save_int q key o rows)
          ≡ or_else o (setting_int q key fallback rows)
    unfolding setting_int save_int set_setting_int
    setting_int-save_int key fallback none rows = refl
    setting_int-save_int key fallback (some n) rows =
        rw (find_setting-set key (q.number n) rows, setting_int, back n) refl

    setting_flag-save_flag :
        (key : Text) (fallback : ℤ) (o : Option Bool) (rows : Store)
        → not (eq_ℤ (setting_int q key fallback (save_flag q key o rows)) (pos 0))
          ≡ or_else o (not (eq_ℤ (setting_int q key fallback rows) (pos 0)))
    unfolding setting_int save_flag set_setting_int
    setting_flag-save_flag key fallback none rows = refl
    setting_flag-save_flag key fallback (some true) rows =
        rw (find_setting-set key (q.number (pos 1)) rows, setting_int, back (pos 1)) refl
    setting_flag-save_flag key fallback (some false) rows =
        rw (find_setting-set key (q.number (pos 0)) rows, setting_int, back (pos 0)) refl

    -- A flag is read behind writes to other keys, and was last written behind such writes.
    flagged :
        (key : Text) (fallback : ℤ) (o : Option Bool) (last before after rows : Store)
        → find_setting key last ≡ find_setting key after
        → after ≡ save_flag q key o before
        → find_setting key before ≡ find_setting key rows
        → not (eq_ℤ (setting_int q key fallback last) (pos 0))
          ≡ or_else o (not (eq_ℤ (setting_int q key fallback rows) (pos 0)))
    flagged key fallback o last before after rows h k l =
        ap (λ n. not (eq_ℤ n (pos 0))) (setting_int-eq key fallback last after h)
        ∙ ap (λ s. not (eq_ℤ (setting_int q key fallback s) (pos 0))) k
        ∙ setting_flag-save_flag key fallback o before
        ∙ ap (λ n. or_else o (not (eq_ℤ n (pos 0)))) (setting_int-eq key fallback before rows l)

    -- Where numbers are read back as they are written, settings are restored as they were saved:
    -- each that the saved map holds has the saved value, and each other one the value it had.
    pub restore-save :
        (m : UiSettings) (rows : Store)
        → (((restore_settings q (save_ui_settings_map q m rows)).card_size
              ≡ or_else m.card_size (restore_settings q rows).card_size)
            × ((restore_settings q (save_ui_settings_map q m rows)).sort_key
                ≡ or_else m.sort_key (restore_settings q rows).sort_key))
          × (((restore_settings q (save_ui_settings_map q m rows)).sort_descending
                ≡ or_else m.sort_descending (restore_settings q rows).sort_descending)
              × (((restore_settings q (save_ui_settings_map q m rows)).cached_only
                    ≡ or_else m.cached_only (restore_settings q rows).cached_only)
                  × ((restore_settings q (save_ui_settings_map q m rows)).startup_refresh
                      ≡ or_else m.startup_refresh (restore_settings q rows).startup_refresh)))
    unfolding restore_settings save_ui_settings_map
    restore-save m rows =
        let a = save_int q card m.card_size rows in
        let b = save_text q sort m.sort_key a in
        let c = save_flag q desc m.sort_descending b in
        let d = save_flag q cached m.cached_only c in
        let e = save_flag q startup m.startup_refresh d in
        let f = save_int q disk m.disk_cache_bytes e in
        (
          (
            setting_int-eq card (pos 240) f a (
                  skip_int card disk m.disk_cache_bytes e refl
                  ∙ skip_flag card startup m.startup_refresh d refl
                  ∙ skip_flag card cached m.cached_only c refl
                  ∙ skip_flag card desc m.sort_descending b refl
                  ∙ skip_text card sort m.sort_key a refl)
                ∙ setting_int-save_int card (pos 240) m.card_size rows,
            setting_text-eq sort (codes "added") f b (
                  skip_int sort disk m.disk_cache_bytes e refl
                  ∙ skip_flag sort startup m.startup_refresh d refl
                  ∙ skip_flag sort cached m.cached_only c refl
                  ∙ skip_flag sort desc m.sort_descending b refl)
                ∙ setting_text-save_text sort (codes "added") m.sort_key a
                ∙ ap (or_else m.sort_key) (
                    setting_text-eq sort (codes "added") a rows
                      (skip_int sort card m.card_size rows refl)),
          ),
          (
            flagged desc (pos 0) m.sort_descending f b c rows
                (skip_int desc disk m.disk_cache_bytes e refl
                  ∙ skip_flag desc startup m.startup_refresh d refl
                  ∙ skip_flag desc cached m.cached_only c refl)
                refl
                (skip_text desc sort m.sort_key a refl ∙ skip_int desc card m.card_size rows refl),
            (
              flagged cached (pos 0) m.cached_only f c d rows
                  (skip_int cached disk m.disk_cache_bytes e refl
                    ∙ skip_flag cached startup m.startup_refresh d refl)
                  refl
                  (skip_flag cached desc m.sort_descending b refl
                    ∙ skip_text cached sort m.sort_key a refl
                    ∙ skip_int cached card m.card_size rows refl),
              flagged startup (pos 1) m.startup_refresh f d e rows
                  (skip_int startup disk m.disk_cache_bytes e refl) refl
                  (skip_flag startup cached m.cached_only c refl
                    ∙ skip_flag startup desc m.sort_descending b refl
                    ∙ skip_text startup sort m.sort_key a refl
                    ∙ skip_int startup card m.card_size rows refl),
            ),
          ),
        )
