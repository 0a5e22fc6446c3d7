-- ===== src/Catalogue/Roots/History.antt =====
-- src/catalogue/Catalogue.cpp: histories of added and removed folders (addRoot, removeRoot).
use scrub_tub.Base.{
  ℕ, ◌≡◌, sym, subst, ap, ◌∙◌, Bool, not, Option, none, some, List, [], ◌∷◌, ◌==◌, keep_if, All,
  all, true, false, arith, Bool-cases, inl, inr, Option-cases, Text,
}
use scrub_tub.Row.{VideoRow}
use scrub_tub.Catalogue.{
  State, Root, RowIds, Signal, emits, find_root, emit_progress, kill_active_jobs, video_ids,
}
use scrub_tub.Catalogue.Cache.{purge_cache_for_videos}
use scrub_tub.Catalogue.Cache.Eviction.{purge_cache_for_videos-roots}
use scrub_tub.Catalogue.Jobs.Frame.{dispatch_jobs-roots}
use scrub_tub.Catalogue.Scan.{Enumeration}
use scrub_tub.Catalogue.Scan.Roots.{root_keys}
use scrub_tub.Catalogue.Roots.{
  FileInfo, add_root, refresh_rows, delete_root, forget_scan, remove_found, remove_root,
}
use scrub_tub.Catalogue.Roots.Disjoint.{
  Overlap, AreApart, IsDisjoint, ends_in_slash, add_root-IsDisjoint,
}

keep_if-All :
    (P : Text → Type 0) (p : Root → Bool) (rs : List Root)
    → All P (root_keys rs)
    → All P (root_keys (keep_if p rs))
keep_if-All P p [] h = tt
keep_if-All P p (r ∷ rs) h = elim (Bool-cases (p r)) [
  | inl e ↦ rw e (h.0, keep_if-All P p rs h.1)
  | inr e ↦ rw e (keep_if-All P p rs h.1)
]

keep_if-AreApart :
    (p : Root → Bool) (rs : List Root)
    → AreApart (root_keys rs)
    → AreApart (root_keys (keep_if p rs))
keep_if-AreApart p [] h = tt
keep_if-AreApart p (r ∷ rs) h = elim (Bool-cases (p r)) [
  | inl e ↦ rw e (keep_if-All (λ b. ¬ Overlap r.cmp_key b) p rs h.0, keep_if-AreApart p rs h.1)
  | inr e ↦ rw e (keep_if-AreApart p rs h.1)
]

keep_if-IsDisjoint :
    (p : Root → Bool) (rs : List Root)
    → IsDisjoint (root_keys rs)
    → IsDisjoint (root_keys (keep_if p rs))
keep_if-IsDisjoint p rs h =
    (keep_if-AreApart p rs h.0, keep_if-All (λ a. ends_in_slash a ≡ false) p rs h.1)

forget_scan-roots : (root : ℕ) (s : State) → (forget_scan root s).roots ≡ s.roots
forget_scan-roots root s = ground arith

remove_found-IsDisjoint :
    (ids : RowIds) (order : List VideoRow → List VideoRow) (is_due : Bool) (root : ℕ)
    (failure : Option Text) (s : State)
    → IsDisjoint (root_keys s.roots)
    → IsDisjoint (root_keys (remove_found ids order is_due root failure s).roots)
unfolding remove_found delete_root
remove_found-IsDisjoint ids order is_due root (some m) s h = h
remove_found-IsDisjoint ids order is_due root none s h =
    let killed = kill_active_jobs root (delete_root root s) in
    let told = refresh_rows order (emits (Signal.root_removed root) (forget_scan root killed)) in
    let shown = emit_progress told.scan_state told in
    subst IsDisjoint
      (sym (ap root_keys (dispatch_jobs-roots ids is_due shown ∙ forget_scan-roots root killed)))
      (keep_if-IsDisjoint (λ r. not (r.id == root)) s.roots h)

remove_root-IsDisjoint :
    (ids : RowIds) (order : List VideoRow → List VideoRow) (is_due : Bool) (root : ℕ)
    (failure : Option Text) (s : State)
    → IsDisjoint (root_keys s.roots)
    → IsDisjoint (root_keys (remove_root ids order is_due root failure s).roots)
unfolding remove_root
remove_root-IsDisjoint ids order is_due root failure s h =
    elim (Option-cases (find_root root s.roots)) [
      | inl e ↦ rw (e, remove_root) h
      | inr (r, e) ↦
          let gone = video_ids (keep_if (λ v. v.root_id == root) s.videos) in
          rw (e, remove_root)
            (remove_found-IsDisjoint ids order is_due root failure (purge_cache_for_videos gone s)
              (subst IsDisjoint (sym (ap root_keys (purge_cache_for_videos-roots gone s))) h))
    ]

-- One call of the interface, with what the platform answers to it.
pub data RootChange : Type 0 where
  added : FileInfo → Bool → Option Text → Enumeration → RootChange
  removed : ℕ → Option Text → Bool → RootChange

module _ (ids : RowIds) (order : List VideoRow → List VideoRow) where
  abbrev pub change_root : RootChange → State → State
  change_root (added f hidden failure e) s = add_root ids f hidden failure e s
  change_root (removed root failure is_due) s = remove_root ids order is_due root failure s

  abbrev pub change_roots : List RootChange → State → State
  change_roots [] s = s
  change_roots (c ∷ cs) s = change_roots cs (change_root c s)

  -- The path of an added folder does not end in a slash.
  abbrev pub is_plain : RootChange → Bool
  is_plain (added f hidden failure e) = not (ends_in_slash f.absolute)
  is_plain (removed root failure is_due) = true

  change_root-IsDisjoint :
      (c : RootChange) (s : State)
      → is_plain c ≡ true
      → IsDisjoint (root_keys s.roots)
      → IsDisjoint (root_keys (change_root c s).roots)
  change_root-IsDisjoint (added f hidden failure e) s p h =
      add_root-IsDisjoint ids f hidden failure e s (ground arith) h
  change_root-IsDisjoint (removed root failure is_due) s p h =
      remove_root-IsDisjoint ids order is_due root failure s h

  -- Where no path of a root ends in a slash and none is another one or lies below it, this holds
  -- behind every history of removed folders and of added ones whose paths do not end in a slash,
  -- whether a change is taken, rejected or fails, and whatever the scans of the new folders find.
  pub change_roots-IsDisjoint :
      (cs : List RootChange) (s : State)
      → all is_plain cs ≡ true
      → IsDisjoint (root_keys s.roots)
      → IsDisjoint (root_keys (change_roots cs s).roots)
  change_roots-IsDisjoint [] s p h = h
  change_roots-IsDisjoint (c ∷ cs) s p h =
      change_roots-IsDisjoint cs (change_root c s) (ground arith)
        (change_root-IsDisjoint c s (ground arith) h)
