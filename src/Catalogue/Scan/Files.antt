-- ===== src/Catalogue/Scan/Files.antt =====
-- src/catalogue/Catalogue.cpp: what the loop over the files of a scan makes of the rows of `videos`.
use scrub_tub.Base.{
  ℕ, ◌≡◌, refl, sym, subst, Bool, true, false, ◌&&◌, Option, none, some, List, [], ◌∷◌, ◌++◌, arith,
  ◌==◌, if◌then◌else◌, elem, Distinct, inl, inr, Bool-cases, Option-cases, pos, Text, eq_text,
  eq_text→eq, eq_text_refl, eq_ℤ→eq,
}
use scrub_tub.Catalogue.{Entry, RowIds, find_row, update_video, video_ids, is_missing}
use scrub_tub.Catalogue.Rows.{
  is_at, Keeps, video_ids-update_video, find_row-is_at, find_row-update_same, find_row-update_other,
  find_row-append_one, video_ids-append_one, append_one-Distinct, find_row-same,
}
use scrub_tub.Catalogue.Scan.{
  File, Context, Pass, Verdict, seen, revived, revived_probed, changed, key_of, verdict, judged,
  mark, new_entry, insert_video, scan_new, scan_known, scan_file, ensure_probe_job, requeue_probe,
  drop_extracted,
}

-- The row shows the file as this scan found it.
pub record IsShown (g : ℕ) (f : File) (v : Entry) : Type 0 where
  pub size : v.size_bytes ≡ pos f.size_bytes
  pub mtime : v.mtime_ms ≡ f.mtime_ms
  pub generation : v.seen_generation ≡ some g
  pub present : is_missing v.availability ≡ false

abbrev pub Shows : ℕ → File → Option Entry → Type 0
Shows g f o = (v : Entry) × (o ≡ some v) × IsShown g f v

-- SQLite's ids are not in use.
abbrev pub AreFresh : RowIds → Type 0
AreFresh ids = (vs : List Entry) → elem (ids.video vs) (video_ids vs) ≡ false

judged-Keeps : (w : Verdict) (g : ℕ) (f : File) → Keeps (judged w g f)
unfolding judged
judged-Keeps seen g f = record { same_id = λ v. refl; same_root = λ v. refl; same_key = λ v. refl }
judged-Keeps revived g f = record {
  same_id = λ v. refl;
  same_root = λ v. refl;
  same_key = λ v. refl;
}
judged-Keeps revived_probed g f = record {
  same_id = λ v. refl;
  same_root = λ v. refl;
  same_key = λ v. refl;
}
judged-Keeps changed g f = record {
  same_id = λ v. refl;
  same_root = λ v. refl;
  same_key = λ v. refl;
}

judged-notes : (w : Verdict) (g : ℕ) (f : File) (v : Entry) → (judged w g f v).notes ≡ v.notes
unfolding judged
judged-notes seen g f v = refl
judged-notes revived g f v = refl
judged-notes revived_probed g f v = refl
judged-notes changed g f v = refl

judged-IsShown :
    (force : Bool) (g : ℕ) (f : File) (v : Entry) → IsShown g f (judged (verdict force v f) g f v)
unfolding judged verdict
judged-IsShown force g f v = record {
  size = ground (arith, eq_ℤ→eq v.size_bytes (pos f.size_bytes));
  mtime = ground (arith, eq_ℤ→eq v.mtime_ms f.mtime_ms);
  generation = ground arith;
  present = ground arith;
}

scan_known-videos :
    (c : Context) (f : File) (v : Entry) (w : Verdict) (p : Pass)
    → (scan_known c f v w p).state.videos
      ≡ update_video v.id (judged w c.generation f) p.state.videos
unfolding scan_known mark ensure_probe_job requeue_probe drop_extracted
scan_known-videos c f v seen p = ground arith
scan_known-videos c f v revived p = refl
scan_known-videos c f v revived_probed p = refl
scan_known-videos c f v changed p = refl

scan_new-videos :
    (c : Context) (f : File) (p : Pass)
    → (scan_new c f p).state.videos
      ≡ p.state.videos ++ new_entry c f (c.ids.video p.state.videos) ∷ []
unfolding scan_new insert_video ensure_probe_job
scan_new-videos c f p = refl

pub file_videos : Context → File → List Entry → List Entry
file_videos c f vs = elim (find_row c.root_id (key_of c f) vs) [
  | none ↦ vs ++ new_entry c f (c.ids.video vs) ∷ []
  | some v ↦ update_video v.id (judged (verdict c.force v f) c.generation f) vs
]

pub scan_file-videos :
    (c : Context) (f : File) (p : Pass)
    → (scan_file c f p).state.videos ≡ file_videos c f p.state.videos
unfolding scan_file file_videos
scan_file-videos c f p = elim (Option-cases (find_row c.root_id (key_of c f) p.state.videos)) [
  | inl e ↦ rw (e, scan_file, file_videos) (scan_new-videos c f p)
  | inr (v, e) ↦ rw (e, scan_file, file_videos) (scan_known-videos c f v (verdict c.force v f) p)
]

pub file_videos-Distinct :
    (c : Context) (f : File) (vs : List Entry)
    → AreFresh c.ids
    → Distinct (video_ids vs)
    → Distinct (video_ids (file_videos c f vs))
unfolding file_videos new_entry
file_videos-Distinct c f vs h d = elim (Option-cases (find_row c.root_id (key_of c f) vs)) [
  | inl e ↦
      rw (e, file_videos, video_ids-append_one vs (new_entry c f (c.ids.video vs)))
        (append_one-Distinct (video_ids vs) (c.ids.video vs) d (h vs))
  | inr (v, e) ↦
      rw
        (
          e,
          file_videos,
          video_ids-update_video v.id (judged (verdict c.force v f) c.generation f) vs
              (judged-Keeps (verdict c.force v f) c.generation f),
        )
        d
]

pub file_videos-own :
    (c : Context) (f : File) (vs : List Entry)
    → Distinct (video_ids vs)
    → Shows c.generation f (find_row c.root_id (key_of c f) (file_videos c f vs))
unfolding file_videos new_entry
file_videos-own c f vs d = elim (Option-cases (find_row c.root_id (key_of c f) vs)) [
  | inl e ↦
      let n = new_entry c f (c.ids.video vs) in
      (
        n,
        ground
            (arith, e, find_row-append_one c.root_id (key_of c f) vs n, eq_text_refl (key_of c f)),
        record { size = refl; mtime = refl; generation = refl; present = refl },
      )
  | inr (v, e) ↦
      let w = verdict c.force v f in
      (
        judged w c.generation f v,
        rw (e, file_videos)
            (find_row-update_same c.root_id (key_of c f) (judged w c.generation f) vs v
              (judged-Keeps w c.generation f) d e),
        judged-IsShown c.force c.generation f v,
      )
]

is_at-other :
    (root root' : ℕ) (key key' : Text) (v : Entry)
    → (root == root' && eq_text key key') ≡ false
    → is_at root key v ≡ true
    → is_at root' key' v ≡ false
is_at-other root root' key key' v o h =
    subst (λ k. (v.root_id == root' && eq_text k key') ≡ false)
      (sym (eq_text→eq v.cmp_key key (ground arith))) (ground arith)

pub file_videos-other :
    (c : Context) (f : File) (vs : List Entry) (root : ℕ) (key : Text)
    → Distinct (video_ids vs)
    → (c.root_id == root && eq_text (key_of c f) key) ≡ false
    → find_row root key (file_videos c f vs) ≡ find_row root key vs
unfolding file_videos new_entry
file_videos-other c f vs root key d o = elim (Option-cases (find_row c.root_id (key_of c f) vs)) [
  | inl e ↦
      let n = new_entry c f (c.ids.video vs) in ground (arith, e, find_row-append_one root key vs n)
  | inr (v, e) ↦
      let w = verdict c.force v f in
      rw (e, file_videos)
        (find_row-update_other c.root_id (key_of c f) root key (judged w c.generation f) vs v
          (judged-Keeps w c.generation f) d e
          (is_at-other c.root_id root (key_of c f) key v o
            (find_row-is_at c.root_id (key_of c f) vs v e)))
]

-- The row of a key is still there, with its id and what the user attached to it.
abbrev pub Retains : Option Entry → Option Entry → Type 0
Retains none new = Unit {0}
Retains (some v) new = (w : Entry) × (new ≡ some w) × (w.id ≡ v.id) × (w.notes ≡ v.notes)

pub Retains-refl : (o : Option Entry) → Retains o o
Retains-refl none = tt
Retains-refl (some v) = (v, refl, refl, refl)

pub Retains-trans : (a b c : Option Entry) → Retains a b → Retains b c → Retains a c
Retains-trans none b c h k = tt
Retains-trans (some v) none c (w, e, i, n) k = cc
Retains-trans (some v) (some u) c (w, e, i, n) (x, f, j, m) = (x, f, cc, cc)

update_own :
    (root : ℕ) (key : Text) (vs : List Entry) (v : Entry) (g : Entry → Entry)
    → Keeps g
    → (g v).notes ≡ v.notes
    → Distinct (video_ids vs)
    → find_row root key vs ≡ some v
    → Retains (find_row root key vs) (find_row root key (update_video v.id g vs))
update_own root key vs v g k n d e =
    rw e (g v, find_row-update_same root key g vs v k d e, k.same_id v, n)

keep_found :
    (o : Option Entry) (t : Bool) (n : Entry)
    → Retains o (elim o [ none ↦ if t then some n else none | some u ↦ some u ])
keep_found none t n = tt
keep_found (some u) t n = (u, refl, refl, refl)

update_found-Retains :
    (c : Context) (f : File) (vs : List Entry) (v : Entry) (w : Verdict) (root : ℕ) (key : Text)
    → Distinct (video_ids vs)
    → find_row c.root_id (key_of c f) vs ≡ some v
    → Retains
        (find_row root key vs)
        (find_row root key (update_video v.id (judged w c.generation f) vs))
update_found-Retains c f vs v w root key d e =
    let g = judged w c.generation f in
    let k = judged-Keeps w c.generation f in
    elim (Bool-cases (is_at root key v)) [
      | inl same ↦
          update_own root key vs v g k (judged-notes w c.generation f v) d
            (find_row-same c.root_id root (key_of c f) key vs v e same)
      | inr other ↦
          rw (find_row-update_other c.root_id (key_of c f) root key g vs v k d e other)
            (Retains-refl (find_row root key vs))
    ]

pub file_videos-Retains :
    (c : Context) (f : File) (vs : List Entry) (root : ℕ) (key : Text)
    → Distinct (video_ids vs)
    → Retains (find_row root key vs) (find_row root key (file_videos c f vs))
unfolding file_videos
file_videos-Retains c f vs root key d = elim (Option-cases (find_row c.root_id (key_of c f) vs)) [
  | inl e ↦
      rw (e, file_videos, find_row-append_one root key vs (new_entry c f (c.ids.video vs)))
        (keep_found (find_row root key vs) (is_at root key (new_entry c f (c.ids.video vs)))
          (new_entry c f (c.ids.video vs)))
  | inr (v, e) ↦
      rw (e, file_videos) (update_found-Retains c f vs v (verdict c.force v f) root key d e)
]
