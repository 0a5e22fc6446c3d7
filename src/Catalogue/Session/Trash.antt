-- ===== src/Catalogue/Session/Trash.antt =====
-- src/catalogue/CatalogueM4.cpp: the rows that the trash leaves alone (trashVideos).
use scrub_tub.Base.{
  ℕ, ◌≡◌, refl, ◌∙◌, true, false, ◌&&◌, none, List, [], ◌∷◌, ◌==◌, any, arith, inl, inr,
  Option-cases,
}
use scrub_tub.Catalogue.{State, Entry, Root, Availability, find_video, update_video, emit_row}
use scrub_tub.Catalogue.Session.{
  Trashing, find_placed, trash_failure, forget_file, trash_video, trash_videos,
}

update_video-other :
    (id video : ℕ) (vs : List Entry)
    → (video == id) ≡ false
    → find_video id (update_video video (λ v. record v { availability = Availability.missing }) vs)
      ≡ find_video id vs
update_video-other id video [] h = refl
update_video-other id video (v ∷ vs) h = ground (arith, update_video-other id video vs h)

trash_failure-trashed :
    (v : Entry) (r : Root) (t : Trashing) → trash_failure v r t ≡ none → t.is_trashed ≡ true
unfolding trash_failure
trash_failure-trashed v r t h = ground arith

forget_file-other :
    (id video : ℕ) (s : State)
    → (video == id) ≡ false
    → find_video id (forget_file video s).videos ≡ find_video id s.videos
unfolding forget_file emit_row
forget_file-other id video s h = update_video-other id video s.videos h

trash_video-keeps :
    (id video : ℕ) (t : Trashing) (s : State)
    → (video == id && t.is_trashed) ≡ false
    → find_video id (trash_video video t s).videos ≡ find_video id s.videos
unfolding trash_video
trash_video-keeps id video t s h = elim (Option-cases (find_placed video s)) [
  | inl e ↦ ground (arith, e)
  | inr ((v, r), e) ↦ elim (Option-cases (trash_failure v r t)) [
    | inr (m, f) ↦ ground (arith, e, f)
    | inl f ↦ ground (arith, e, f, trash_failure-trashed v r t f, forget_file-other id video s)
  ]
]

-- A video that the platform's trash takes in none of the requests for it keeps its row as it was,
-- whatever else is asked for and whichever checks fail.
pub trash_videos-keeps :
    (id : ℕ) (items : List (ℕ × Trashing)) (s : State)
    → any (λ i. i.0 == id && i.1.is_trashed) items ≡ false
    → find_video id (trash_videos items s).videos ≡ find_video id s.videos
unfolding trash_videos
trash_videos-keeps id [] s h = refl
trash_videos-keeps id ((video, t) ∷ rest) s h =
    trash_videos-keeps id rest (trash_video video t s) (ground arith)
    ∙ trash_video-keeps id video t s (ground arith)
