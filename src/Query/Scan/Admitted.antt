-- ===== src/Query/Scan/Admitted.antt =====
-- src/catalogue/CatalogueM3.cpp: what the filters of a query and its validation mean, told without
-- the SQL and without the list of conditions that the search builds.
use scrub_tub.Base.{
  ℕ, ◌+◌, ◌/◌, ◌≡◌, refl, ap, ◌∙◌, Bool, true, false, ◌&&◌, ◌||◌, not, Option, none, some, List, [],
  ◌∷◌, ◌++◌, map, arith, ltb, leb, ◌==◌, if◌then◌else◌, length, take, any, all, ℤ, pos, minus_one,
  ltb_ℤ, leb_ℤ, eq_ℤ, Text, eq_text, elem_text, is_empty, inl, inr, Bool-cases,
}
use scrub_tub.Query.{
  QuerySpec, Video, Tables, TagRow, Assignment, is_manual, at_least, at_most, or_zero, when,
  shorter_side, preset_conditions, rating_conditions, where_for_filters, tag_conditions, holds,
  has_tag, is_visible,
}
use scrub_tub.Query.Scan.{validation_error, norms_of}

-- A number respects two bounds, of which one below `least` is none. An unknown number respects no
-- bound.
abbrev pub respects : ℤ → ℤ → ℤ → Option ℤ → Bool
respects least low high none = ltb_ℤ low least && ltb_ℤ high least
respects least low high (some x) =
    (ltb_ℤ low least || leb_ℤ low x) && (ltb_ℤ high least || leb_ℤ x high)

-- Mode 1 asks for no rating, 2 for one rating, 3 for any rating, and every other mode for nothing.
abbrev pub is_rated : ℤ → ℤ → Option ℤ → Bool
is_rated mode value none = not (eq_ℤ mode (pos 2) || eq_ℤ mode (pos 3))
is_rated mode value (some r) = not (eq_ℤ mode (pos 1)) && (not (eq_ℤ mode (pos 2)) || eq_ℤ r value)

-- The shorter side lies in the third above the preset, if that is a number above 0.
abbrev pub fits_preset : Option ℕ → Option ℤ → Bool
fits_preset none side = true
fits_preset (some p) none = p == 0
fits_preset (some p) (some x) = p == 0 || (leb_ℤ (pos p) x && ltb_ℤ x (pos (p + p / 3)))

abbrev pub is_unused : List Text → Bool
is_unused [] = true
is_unused (t ∷ ts) = false

-- The tags a video has, all of which, none of which and one of which are asked for.
abbrev pub has_tags : List Text → List Text → List Text → List Text → Bool
has_tags names required excluded offered =
    all (λ t. any (eq_text t) names) required
    && (all (λ t. not (any (eq_text t) names)) excluded
        && (is_unused offered || any (λ n. elem_text n offered) names))

-- At most 16 tokens and 256 characters, and bounds of the rating between -1 and 5 in their order.
abbrev pub is_valid : QuerySpec → List Text → Bool
is_valid q tokens =
    leb (length tokens) 16
    && (leb (length q.text) 256
        && (leb_ℤ minus_one q.rating_min
            && (leb_ℤ q.rating_min (pos 5)
                && (leb_ℤ minus_one q.rating_max
                    && (leb_ℤ q.rating_max (pos 5)
                        && (ltb_ℤ q.rating_min (pos 0)
                            || (ltb_ℤ q.rating_max (pos 0) || leb_ℤ q.rating_min q.rating_max)))))))

pub validation_error_lem :
    (q : QuerySpec) (tokens : List Text) → is_empty (validation_error q tokens) ≡ is_valid q tokens
unfolding validation_error
validation_error_lem q tokens = ground arith

-- The names of a video's tags: those of the assignments that are manual or not suppressed.
pub tag_names : Tables → ℕ → List Assignment → List Text
tag_names db video [] = []
tag_names db video (a ∷ as') =
    (if a.video == video
        && (is_manual a.origin || not (any (λ (v, t). v == a.video && t == a.tag) db.suppressions))
      then norms_of db.tags a.tag
      else [])
    ++ tag_names db video as'

module _ (to_int : Text → Option ℕ) (to_u32 : Text → List ℕ) (db : Tables) where
  -- The row of the video meets every filter of the query.
  abbrev pub is_admitted : QuerySpec → Video → Bool
  is_admitted q v =
      respects (pos 0) q.size_min q.size_max v.size_bytes
      && (respects (pos 1) q.width_min q.width_max v.display_width
          && (respects (pos 1) q.height_min q.height_max v.display_height
              && ((is_empty q.resolution_preset
                    || fits_preset (to_int q.resolution_preset) (shorter_side v))
                  && (respects (pos 0) q.duration_min_ms q.duration_max_ms v.duration_ms
                      && (is_rated q.rating_mode q.rating_value v.rating
                          && (respects (pos 0) q.rating_min q.rating_max (some (or_zero v.rating))
                              && ((ltb_ℤ q.root_id (pos 0) || eq_ℤ v.root_id q.root_id)
                                  && ((is_empty q.folder_prefix
                                        || eq_text
                                            (take (length q.folder_prefix) (to_u32 v.rel_path))
                                            (to_u32 q.folder_prefix))
                                      && ((ltb_ℤ q.views_min (pos 0) || leb_ℤ q.views_min v.views)
                                          && ((is_unused q.availability
                                                || elem_text v.availability q.availability)
                                              && has_tags (tag_names db v.id db.assignments)
                                                  q.include_all_tags q.exclude_tags
                                                  q.include_any_tags))))))))))

holds-append :
    (xs ys : List (Video → Bool)) (v : Video) → holds (xs ++ ys) v ≡ (holds xs v && holds ys v)
unfolding holds
holds-append [] ys v = refl
holds-append (c ∷ xs) ys v = ground (arith, holds-append xs ys v)

holds-when : (b : Bool) (c : Video → Bool) (v : Video) → holds (when b c) v ≡ (not b || c v)
unfolding holds
holds-when true c v = ground arith
holds-when false c v = refl

-- The last list of conditions, before what is met behind it.
met :
    (xs ys : List (Video → Bool)) (v : Video) (b r whole : Bool)
    → holds ys v ≡ b
    → (holds xs v && (b && r)) ≡ whole
    → (holds (xs ++ ys) v && r) ≡ whole
met xs ys v b r whole e f = ground (arith, e, f, holds-append xs ys v)

-- Two conditions that one part of the meaning stands for.
met_both :
    (xs : List (Video → Bool)) (x y : Bool) (c d : Video → Bool) (v : Video) (b r whole : Bool)
    → ((not x || c v) && (not y || d v)) ≡ b
    → (holds xs v && (b && r)) ≡ whole
    → (holds ((xs ++ when x c) ++ when y d) v && r) ≡ whole
met_both xs x y c d v b r whole e f = ground (
  arith,
  e,
  f,
  holds-append (xs ++ when x c) (when y d) v,
  holds-append xs (when x c) v,
  holds-when x c v,
  holds-when y d v,
)

bounded :
    (low high : ℤ) (x : Option ℤ)
    → ((not (leb_ℤ (pos 0) low) || at_least x low) && (not (leb_ℤ (pos 0) high) || at_most x high))
      ≡ respects (pos 0) low high x
bounded low high none = ground arith
bounded low high (some x) = ground arith

bounded_above_zero :
    (low high : ℤ) (x : Option ℤ)
    → ((not (ltb_ℤ (pos 0) low) || at_least x low) && (not (ltb_ℤ (pos 0) high) || at_most x high))
      ≡ respects (pos 1) low high x
bounded_above_zero low high none = ground arith
bounded_above_zero low high (some x) = ground arith

off_or :
    (low : ℤ) (c : Video → Bool) (v : Video)
    → holds (when (leb_ℤ (pos 0) low) c) v ≡ (ltb_ℤ low (pos 0) || c v)
off_or low c v = holds-when (leb_ℤ (pos 0) low) c v ∙ ground arith

preset_lem :
    (o : Option ℕ) (v : Video) → holds (preset_conditions o) v ≡ fits_preset o (shorter_side v)
unfolding preset_conditions holds
preset_lem none v = refl
preset_lem (some p) v =
    holds-when (ltb 0 p) _ v ∙ elim (shorter_side v) [ none ↦ ground arith | some x ↦ ground arith ]

rating_lem :
    (q : QuerySpec) (v : Video)
    → holds (rating_conditions q) v ≡ is_rated q.rating_mode q.rating_value v.rating
unfolding rating_conditions holds
rating_lem q v = elim v.rating [ none ↦ ground arith | some r ↦ ground arith ]

any-append : (p : Text → Bool) (xs ys : List Text) → any p (xs ++ ys) ≡ (any p xs || any p ys)
any-append p [] ys = refl
any-append p (x ∷ xs) ys = ground (arith, any-append p xs ys)

any-norms_of :
    (p : Text → Bool) (ts : List TagRow) (tag : ℕ)
    → any p (norms_of ts tag) ≡ any (λ t. t.tag_id == tag && p t.norm) ts
unfolding norms_of
any-norms_of p [] tag = refl
any-norms_of p (t ∷ ts) tag = ground (arith, any-norms_of p ts tag)

-- The tags that SQL finds are those of the names.
any-tag_names :
    (db : Tables) (p : Text → Bool) (video : ℕ) (as' : List Assignment)
    → any
        (λ a.
          a.video == video && (is_visible db a && any (λ t. t.tag_id == a.tag && p t.norm) db.tags))
        as'
      ≡ any p (tag_names db video as')
unfolding tag_names is_visible
any-tag_names db p video [] = refl
any-tag_names db p video (a ∷ as') = elim (Bool-cases (a.video == video && is_visible db a)) [
  | inl e ↦ ground (
    arith,
    e,
    any-tag_names db p video as',
    any-norms_of p db.tags a.tag,
    any-append p (norms_of db.tags a.tag) (tag_names db video as'),
  )
  | inr e ↦ ground (arith, e, any-tag_names db p video as')
]

has_tag-tag_names :
    (db : Tables) (p : Text → Bool) (video : ℕ)
    → has_tag db p video ≡ any p (tag_names db video db.assignments)
unfolding has_tag
has_tag-tag_names db p video = any-tag_names db p video db.assignments

required_lem :
    (db : Tables) (ts : List Text) (v : Video)
    → holds (map (λ t v. has_tag db (eq_text t) v.id) ts) v
      ≡ all (λ t. any (eq_text t) (tag_names db v.id db.assignments)) ts
unfolding holds
required_lem db [] v = refl
required_lem db (t ∷ ts) v =
    ground (arith, required_lem db ts v, has_tag-tag_names db (eq_text t) v.id)

excluded_lem :
    (db : Tables) (ts : List Text) (v : Video)
    → holds (map (λ t v. not (has_tag db (eq_text t) v.id)) ts) v
      ≡ all (λ t. not (any (eq_text t) (tag_names db v.id db.assignments))) ts
unfolding holds
excluded_lem db [] v = refl
excluded_lem db (t ∷ ts) v =
    ground (arith, excluded_lem db ts v, has_tag-tag_names db (eq_text t) v.id)

offered : Tables → List Text → List (Video → Bool)
offered db [] = []
offered db (t ∷ ts) = (λ v. has_tag db (λ n. elem_text n (t ∷ ts)) v.id) ∷ []

offered_lem :
    (db : Tables) (ts : List Text) (v : Video)
    → holds (offered db ts) v
      ≡ (is_unused ts || any (λ n. elem_text n ts) (tag_names db v.id db.assignments))
unfolding holds offered
offered_lem db [] v = refl
offered_lem db (t ∷ ts) v = ground (arith, has_tag-tag_names db (λ n. elem_text n (t ∷ ts)) v.id)

tag_conditions_lem :
    (db : Tables) (q : QuerySpec) (v : Video)
    → holds (tag_conditions db q) v
      ≡ has_tags
          (tag_names db v.id db.assignments)
          q.include_all_tags
          q.exclude_tags
          q.include_any_tags
unfolding tag_conditions offered
tag_conditions_lem db q v = ground (
  arith,
  holds-append
      (map (λ t v. has_tag db (eq_text t) v.id) q.include_all_tags
        ++ map (λ t v. not (has_tag db (eq_text t) v.id)) q.exclude_tags)
      (offered db q.include_any_tags) v,
  holds-append (map (λ t v. has_tag db (eq_text t) v.id) q.include_all_tags)
      (map (λ t v. not (has_tag db (eq_text t) v.id)) q.exclude_tags) v,
  required_lem db q.include_all_tags v,
  excluded_lem db q.exclude_tags v,
  offered_lem db q.include_any_tags v,
)

unset_or :
    (t : Text) (c : Video → Bool) (v : Video)
    → holds (when (not (is_empty t)) c) v ≡ (is_empty t || c v)
unset_or t c v = holds-when (not (is_empty t)) c v ∙ ground arith

preset_set :
    (t : Text) (cs : List (Video → Bool)) (v : Video) (b : Bool)
    → holds cs v ≡ b
    → holds (if is_empty t then [] else cs) v ≡ (is_empty t || b)
unfolding holds
preset_set [] cs v b e = refl
preset_set (c ∷ t) cs v b e = e

listed : List Text → List (Video → Bool)
listed [] = []
listed (a ∷ as') = (λ v. elem_text v.availability (a ∷ as')) ∷ []

listed_lem :
    (as' : List Text) (v : Video)
    → holds (listed as') v ≡ (is_unused as' || elem_text v.availability as')
unfolding holds listed
listed_lem [] v = refl
listed_lem (a ∷ as') v = ground arith

nothing_left : (v : Video) (r : Bool) → (holds [] v && r) ≡ r
unfolding holds
nothing_left v r = refl

-- The conditions that the search builds hold of exactly the rows that the filters admit.
pub is_admitted_lem :
    (to_int : Text → Option ℕ) (to_u32 : Text → List ℕ) (db : Tables) (q : QuerySpec) (v : Video)
    → holds (where_for_filters to_int to_u32 q ++ tag_conditions db q) v
      ≡ is_admitted to_int to_u32 db q v
unfolding where_for_filters listed
is_admitted_lem to_int to_u32 db q v =
    holds-append (where_for_filters to_int to_u32 q) (tag_conditions db q) v
    ∙ ap (λ b. holds (where_for_filters to_int to_u32 q) v && b) (tag_conditions_lem db q v)
    ∙ met _ (listed q.availability) v _ _ _ (listed_lem q.availability v) (
        met _ (when _ _) v _ _ _ (off_or q.views_min _ v) (
          met _ (when _ _) v _ _ _ (unset_or q.folder_prefix _ v) (
            met _ (when _ _) v _ _ _ (off_or q.root_id _ v) (
              met_both _ _ _ _ _ v _ _ _
                (bounded q.rating_min q.rating_max (some (or_zero v.rating)))
                (met _ (rating_conditions q) v _ _ _ (rating_lem q v) (
                  met_both _ _ _ _ _ v _ _ _
                    (bounded q.duration_min_ms q.duration_max_ms v.duration_ms)
                    (met _ _ v _ _ _
                      (preset_set q.resolution_preset
                        (preset_conditions (to_int q.resolution_preset)) v _
                        (preset_lem (to_int q.resolution_preset) v))
                      (met_both _ _ _ _ _ v _ _ _
                        (bounded_above_zero q.height_min q.height_max v.display_height)
                        (met_both _ _ _ _ _ v _ _ _
                          (bounded_above_zero q.width_min q.width_max v.display_width)
                          (met_both [] _ _ _ _ v _ _ _ (bounded q.size_min q.size_max v.size_bytes)
                            (nothing_left v _)))))))))))
