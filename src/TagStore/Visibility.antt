-- ===== src/TagStore/Visibility.antt =====
-- What is visible after a tag is added or suppressed.
use scrub_tub.Base.{
  ℕ, ◌≡◌, refl, inl, inr, subst, sym, ◌∙◌, eq_text_comm, Bool, true, false, ◌&&◌, ◌||◌, not, some,
  List, [], ◌∷◌, ◌++◌, arith, ◌==◌, any, keep_if, Bool-cases, Option-cases, Text, eq_text,
  eq_text_refl, is_empty,
}
use scrub_tub.Tags.{Unicode, normalize}
use scrub_tub.Query.{Tables, TagRow, Assignment, Origin, is_manual, is_visible, has_tag}
use scrub_tub.Query.Filters.{is_visible_lem, has_tag_lem}
use scrub_tub.TagStore.{
  eq_origin, find_tag, ensure_tag, eq_assignment, assign, is_pair, add_manual_tag,
  suppress_auto_tag,
}

any-append {ℓ} :
    {A : Type ℓ} (p : A → Bool) (xs ys : List A) → any p (xs ++ ys) ≡ (any p xs || any p ys)
any-append p [] ys = refl
any-append p (x ∷ xs) ys = ground (arith, any-append p xs ys)

-- The tags hold a row of that id and name.
abbrev pub is_named : ℕ → Text → List TagRow → Bool
is_named id norm ts = any (λ t. t.tag_id == id && eq_text norm t.norm) ts

find_tag-is_named :
    (norm : Text) (ts : List TagRow) (id : ℕ)
    → find_tag norm ts ≡ some id
    → is_named id norm ts ≡ true
unfolding find_tag
find_tag-is_named norm [] id h = cc
find_tag-is_named norm (t ∷ ts) id h = elim (Bool-cases (eq_text t.norm norm)) [
  | inl e ↦ ground (arith, e, h, eq_text_comm norm t.norm)
  | inr e ↦ ground (arith, e, h, find_tag-is_named norm ts id)
]

eq_origin→eq : (a b : Origin) → eq_origin a b ≡ true → a ≡ b
eq_origin→eq Origin.manual Origin.manual h = refl
eq_origin→eq Origin.filename Origin.filename h = refl
eq_origin→eq Origin.folder Origin.folder h = refl
eq_origin→eq Origin.technical Origin.technical h = refl
eq_origin→eq _ _ h = cc

eq_origin_refl : (a : Origin) → eq_origin a a ≡ true
eq_origin_refl Origin.manual = refl
eq_origin_refl Origin.filename = refl
eq_origin_refl Origin.folder = refl
eq_origin_refl Origin.technical = refl

eq_assignment→eq : (a b : Assignment) → eq_assignment a b ≡ true → a ≡ b
eq_assignment→eq a b h = ground (arith, h, eq_origin→eq a.origin b.origin)

-- What holds of one that equals an element holds of an element.
any-eq_assignment :
    (p : Assignment → Bool) (a : Assignment) (as' : List Assignment)
    → any (eq_assignment a) as' ≡ true
    → p a ≡ true
    → any p as' ≡ true
any-eq_assignment p a [] h k = cc
any-eq_assignment p a (b ∷ as') h k = elim (Bool-cases (eq_assignment a b)) [
  | inl e ↦ ground (arith, subst (λ x. p x ≡ true) (eq_assignment→eq a b e) k)
  | inr e ↦ ground (arith, any-eq_assignment p a as' (ground (arith, h, e)) k)
]

any-assign :
    (p : Assignment → Bool) (a : Assignment) (db : Tables)
    → p a ≡ true
    → any p (assign a db).assignments ≡ true
unfolding assign
any-assign p a db h = elim (Bool-cases (any (eq_assignment a) db.assignments)) [
  | inl e ↦ rw (e, assign) (any-eq_assignment p a db.assignments e h)
  | inr e ↦ rw (e, assign) (ground (arith, any-append p db.assignments (a ∷ []), h))
]

assign_tables :
    (a : Assignment) (db : Tables)
    → ((assign a db).suppressions ≡ db.suppressions) × ((assign a db).tags ≡ db.tags)
unfolding assign
assign_tables a db = elim (Bool-cases (any (eq_assignment a) db.assignments)) [
  | inl e ↦ rw (e, assign) (refl, refl)
  | inr e ↦ rw (e, assign) (refl, refl)
]

ensure_tag-is_named :
    (fresh : List TagRow → ℕ) (norm : Text) (db : Tables)
    → is_named (ensure_tag fresh norm db).0 norm (ensure_tag fresh norm db).1.tags ≡ true
unfolding ensure_tag
ensure_tag-is_named fresh norm db = elim (Option-cases (find_tag norm db.tags)) [
  | inl e ↦
      rw (e, ensure_tag)
        (ground (
          arith,
          eq_text_refl norm,
          any-append (λ t. t.tag_id == fresh db.tags && eq_text norm t.norm) db.tags
              ((record { tag_id = fresh db.tags; norm = norm }) ∷ []),
        ))
  | inr (id, e) ↦ rw (e, ensure_tag) (find_tag-is_named norm db.tags id e)
]

assigned-has_tag :
    (a : Assignment) (norm : Text) (db : Tables)
    → is_manual a.origin ≡ true
    → is_named a.tag norm db.tags ≡ true
    → has_tag (assign a db) (eq_text norm) a.video ≡ true
assigned-has_tag a norm db m n =
    has_tag_lem (assign a db) (eq_text norm) a.video
    ∙ any-assign
        (λ x.
          x.video == a.video
          && (is_visible (assign a db) x && is_named x.tag norm (assign a db).tags))
        a db
        (ground (
          arith,
          m,
          is_visible_lem (assign a db) a,
          subst (λ ts. is_named a.tag norm ts ≡ true) (sym (assign_tables a db).1) n,
        ))

-- Adding a manual tag makes it visible on the video, also where it was suppressed before.
pub add_manual_tag-has_tag :
    (u : Unicode) (fresh : List TagRow → ℕ) (video : ℕ) (text : Text) (db : Tables)
    → is_empty (normalize u text) ≡ false
    → has_tag (add_manual_tag u fresh video text db) (eq_text (normalize u text)) video ≡ true
unfolding add_manual_tag
add_manual_tag-has_tag u fresh video text db h =
    let (tag, found) = ensure_tag fresh (normalize u text) db in
    rw (h, add_manual_tag)
      (assigned-has_tag (record { video = video; tag = tag; origin = Origin.manual })
        (normalize u text)
        (record found {
          suppressions = keep_if (λ s. not (is_pair video tag s)) found.suppressions;
        })
        refl (ensure_tag-is_named fresh (normalize u text) db))

-- A suppressed tag that no one assigned by hand is not visible on the video.
pub suppress_auto_tag-is_visible :
    (video tag : ℕ) (origin : Origin) (db : Tables)
    → is_visible
        (suppress_auto_tag video tag db)
        (record { video = video; tag = tag; origin = origin })
      ≡ is_manual origin
unfolding suppress_auto_tag
suppress_auto_tag-is_visible video tag origin db =
    is_visible_lem (suppress_auto_tag video tag db)
      (record { video = video; tag = tag; origin = origin })
    ∙ elim (Bool-cases (any (is_pair video tag) db.suppressions)) [
      | inl e ↦ rw (e, suppress_auto_tag) (ground (arith, flipped db.suppressions, e))
      | inr e ↦
          rw (e, suppress_auto_tag)
            (ground (
              arith,
              any-append (λ (v, t). v == video && t == tag) db.suppressions ((video, tag) ∷ []),
            ))
    ]
  where
    flipped :
        (ss : List (ℕ × ℕ)) → any (is_pair video tag) ss ≡ any (λ (v, t). v == video && t == tag) ss
    flipped [] = refl
    flipped ((v, t) ∷ ss) = ground (arith, flipped ss)
