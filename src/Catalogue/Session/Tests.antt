-- ===== src/Catalogue/Session/Tests.antt =====
-- src/catalogue/CatalogueM4.cpp: two requests to the trash at a concrete catalogue.
use scrub_tub.Base.{◌≡◌, refl, true, false, some, [], ◌∷◌, codes, pos}
use scrub_tub.Catalogue.{find_video}
use scrub_tub.Catalogue.Fixtures.{idle, clip}
use scrub_tub.Catalogue.Session.{Trashing, trash_videos}
use scrub_tub.Catalogue.Session.Trash.{trash_videos-keeps}

abbrev taken : Trashing
taken = record {
  is_file = true;
  is_link = false;
  size_bytes = 9;
  mtime_ms = pos 5;
  is_trashed = true;
}

abbrev refused : Trashing
refused = record taken { is_trashed = false }

trash_videos-keeps_example :
    find_video 2 (trash_videos ((1, taken) ∷ (2, refused) ∷ []) idle).videos
    ≡ some (clip 2 (codes "b.mp4"))
trash_videos-keeps_example = trash_videos-keeps 2 ((1, taken) ∷ (2, refused) ∷ []) idle refl
