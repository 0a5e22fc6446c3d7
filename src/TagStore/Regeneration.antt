-- ===== src/TagStore/Regeneration.antt =====
-- Regenerating the automatic tags of a video leaves everything else as it was.
use scrub_tub.Base.{
  ℕ, ◌≡◌, refl, inl, inr, ◌∙◌, Bool, true, false, ◌&&◌, ◌||◌, not, List, [], ◌∷◌, ◌++◌, arith, ◌==◌,
  any, keep_if, Bool-cases, Option-cases, Text,
}
use scrub_tub.Tags.{Unicode, filename_tags, folder_tags, technical_tags}
use scrub_tub.Query.{Tables, TagRow, Assignment, Origin, is_manual}
use scrub_tub.TagStore.{
  find_tag, ensure_tag, eq_assignment, assign, insert_tags, TagSource, clear_auto_tags,
  apply_auto_tags,
}

-- The assignment is of another video, or manual.
abbrev pub is_kept : ℕ → Assignment → Bool
is_kept video a = not (a.video == video) || is_manual a.origin

-- What regeneration must not change: the assignments it does not own, and the suppressions.
abbrev pub IsUntouched : ℕ → Tables → Tables → Type 0
IsUntouched video before after =
    (keep_if (is_kept video) after.assignments ≡ keep_if (is_kept video) before.assignments)
    × (after.suppressions ≡ before.suppressions)

keep_if-append_one :
    (p : Assignment → Bool) (xs : List Assignment) (a : Assignment)
    → p a ≡ false
    → keep_if p (xs ++ a ∷ []) ≡ keep_if p xs
keep_if-append_one p [] a h = rw (h) refl
keep_if-append_one p (x ∷ xs) a h = rw (keep_if-append_one p xs a h) refl

keep_if-keep_if :
    (p q : Assignment → Bool) (xs : List Assignment)
    → ((a : Assignment) → p a ≡ true → q a ≡ true)
    → keep_if p (keep_if q xs) ≡ keep_if p xs
keep_if-keep_if p q [] f = refl
keep_if-keep_if p q (x ∷ xs) f = elim (Bool-cases (q x)) [
  | inl e ↦ rw (e, keep_if-keep_if p q xs f) refl
  | inr e ↦ rw (e, no e) (keep_if-keep_if p q xs f)
]
  where
    no : q x ≡ false → p x ≡ false
    no e = ground (arith, f x, e)

ensure_tag-IsUntouched :
    (video : ℕ) (fresh : List TagRow → ℕ) (norm : Text) (db : Tables)
    → IsUntouched video db (ensure_tag fresh norm db).1
unfolding ensure_tag
ensure_tag-IsUntouched video fresh norm db = elim (Option-cases (find_tag norm db.tags)) [
  | inl e ↦ rw (e, ensure_tag) (refl, refl)
  | inr (id, e) ↦ rw (e, ensure_tag) (refl, refl)
]

assign-IsUntouched :
    (video : ℕ) (a : Assignment) (db : Tables)
    → is_kept video a ≡ false
    → IsUntouched video db (assign a db)
unfolding assign
assign-IsUntouched video a db h = elim (Bool-cases (any (eq_assignment a) db.assignments)) [
  | inl e ↦ rw (e, assign) (refl, refl)
  | inr e ↦ rw (e, assign) (keep_if-append_one (is_kept video) db.assignments a h, refl)
]

insert_tags-IsUntouched :
    (fresh : List TagRow → ℕ) (video : ℕ) (origin : Origin) (ts : List Text) (db : Tables)
    → is_manual origin ≡ false
    → IsUntouched video db (insert_tags fresh video origin ts db)
unfolding insert_tags
insert_tags-IsUntouched fresh video origin [] db h = (refl, refl)
insert_tags-IsUntouched fresh video origin (t ∷ ts) db h =
    let (tag, found) = ensure_tag fresh t db in
    let a : Assignment = record { video = video; tag = tag; origin = origin } in
    let x : IsUntouched video db found = ensure_tag-IsUntouched video fresh t db in
    let y : IsUntouched video found (assign a found) =
      assign-IsUntouched video a found (ground (arith, h)) in
    let z : IsUntouched video (assign a found)
        (insert_tags fresh video origin ts (assign a found)) =
      insert_tags-IsUntouched fresh video origin ts (assign a found) h in
    (z.0 ∙ y.0 ∙ x.0, z.1 ∙ y.1 ∙ x.1)

clear_auto_tags-IsUntouched :
    (video : ℕ) (db : Tables) → IsUntouched video db (clear_auto_tags video db)
unfolding clear_auto_tags
clear_auto_tags-IsUntouched video db = (
  keep_if-keep_if (is_kept video) (λ a. not (a.video == video && not (is_manual a.origin)))
      db.assignments (λ a h. ground (arith, h)),
  refl,
)

-- Regenerating the automatic tags of a video keeps every manual tag, every assignment of another
-- video and every suppression, in their order.
pub apply_auto_tags-IsUntouched :
    (u : Unicode) (fresh : List TagRow → ℕ) (video : ℕ) (source : TagSource) (db : Tables)
    → IsUntouched video db (apply_auto_tags u fresh video source db)
unfolding apply_auto_tags
apply_auto_tags-IsUntouched u fresh video source db =
    let a = clear_auto_tags video db in
    let b = insert_tags fresh video Origin.filename (filename_tags u source.stem) a in
    let c = insert_tags fresh video Origin.folder (folder_tags u source.folders) b in
    let w : IsUntouched video db a = clear_auto_tags-IsUntouched video db in
    let x : IsUntouched video a b =
      insert_tags-IsUntouched fresh video Origin.filename (filename_tags u source.stem) a refl in
    let y : IsUntouched video b c =
      insert_tags-IsUntouched fresh video Origin.folder (folder_tags u source.folders) b refl in
    let z : IsUntouched video c (apply_auto_tags u fresh video source db) =
      insert_tags-IsUntouched fresh video Origin.technical
        (technical_tags u source.codec source.width source.height) c refl in
    (z.0 ∙ y.0 ∙ x.0 ∙ w.0, z.1 ∙ y.1 ∙ x.1 ∙ w.1)
