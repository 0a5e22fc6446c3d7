-- ===== src/Query/Filters.antt =====
-- The tests of the tags, as other modules read them.
use scrub_tub.Base.{ℕ, ◌≡◌, refl, Bool, ◌&&◌, ◌||◌, not, any, ◌==◌, Text}
use scrub_tub.Query.{Tables, Assignment, is_manual, is_visible, has_tag}

pub is_visible_lem :
    (db : Tables) (a : Assignment)
    → is_visible db a
      ≡ (not (any (λ (v, t). v == a.video && t == a.tag) db.suppressions) || is_manual a.origin)
unfolding is_visible
is_visible_lem db a = refl

pub has_tag_lem :
    (db : Tables) (p : Text → Bool) (video : ℕ)
    → has_tag db p video
      ≡ any
          (λ a.
            a.video == video
            && (is_visible db a && any (λ t. t.tag_id == a.tag && p t.norm) db.tags))
          db.assignments
unfolding has_tag
has_tag_lem db p video = refl
