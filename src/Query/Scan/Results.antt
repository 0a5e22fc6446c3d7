-- ===== src/Query/Scan/Results.antt =====
-- Which videos a search gives.
use scrub_tub.Base.{
  ℕ, ◌≡◌, refl, ◌∙◌, inl, inr, Bool, true, false, ◌&&◌, ◌||◌, not, Option, List, [], ◌∷◌, ◌++◌, map,
  arith, ◌==◌, if◌then◌else◌, any, keep_if, elem, Text, is_empty, Bool-cases,
}
use scrub_tub.Search.{SearchRecord, fold_query, match_tokens, Candidate, more_relevant}
use scrub_tub.Query.{QuerySpec, Video, Tables, where_for_filters, tag_conditions, holds}
use scrub_tub.Query.Scan.{
  insert_by, sort_by, validation_error, Platform, record_of, candidates, has_text, selected, search,
  row_before,
}
use scrub_tub.Query.Scan.Admitted.{is_valid, validation_error_lem, is_admitted, is_admitted_lem}

module _ {ℓ} {A : Type ℓ} (p : A → Bool) where
  any-insert_by :
      (lt : A → A → Bool) (x : A) (ys : List A) → any p (insert_by lt x ys) ≡ (p x || any p ys)
  unfolding insert_by
  any-insert_by lt x [] = refl
  any-insert_by lt x (y ∷ ys) = ground (arith, any-insert_by lt x ys)

  any-sort_by : (lt : A → A → Bool) (xs : List A) → any p (sort_by lt xs) ≡ any p xs
  unfolding sort_by
  any-sort_by lt [] = refl
  any-sort_by lt (x ∷ xs) = ground (arith, any-insert_by lt x (sort_by lt xs), any-sort_by lt xs)

  any-keep_if : (q : A → Bool) (xs : List A) → any p (keep_if q xs) ≡ any (λ x. q x && p x) xs
  any-keep_if q [] = refl
  any-keep_if q (x ∷ xs) = ground (arith, any-keep_if q xs)

elem-map : (id : ℕ) (cs : List Candidate) → elem id (map Candidate.id cs) ≡ any (λ c. c.id == id) cs
elem-map id [] = refl
elem-map id (c ∷ cs) = ground (arith, elem-map id cs)

any-if {ℓ} :
    {A : Type ℓ} (p : A → Bool) (b : Bool) (xs ys : List A)
    → any p xs ≡ any p ys
    → any p (if b then xs else ys) ≡ any p ys
any-if p true xs ys h = h
any-if p false xs ys h = refl

is_empty-eq : (t : Text) → is_empty t ≡ true → [] ≡ t
is_empty-eq [] h = refl
is_empty-eq (c ∷ cs) h = cc

module _ (p : Platform) (db : Tables) where
  -- The text of the query matches the snapshot of the video.
  abbrev pub is_match : (ℕ → Option SearchRecord) → List Text → Video → Bool
  is_match records folded v =
      (match_tokens p.levenshtein p.to_u32 (record_of p db records v) folded).matched

  any-candidates :
      (id : ℕ) (records : ℕ → Option SearchRecord) (folded : List Text) (vs : List Video)
      → any (λ c. c.id == id) (candidates p db records folded vs)
        ≡ any (λ v. is_match records folded v && v.id == id) vs
  unfolding candidates
  any-candidates id records folded [] = refl
  any-candidates id records folded (v ∷ vs) = ground (arith, any-candidates id records folded vs)

  any-where_for_filters :
      (f : Video → Bool) (q : QuerySpec) (vs : List Video)
      → any (λ v. holds (where_for_filters p.to_int p.to_u32 q ++ tag_conditions db q) v && f v) vs
        ≡ any (λ v. is_admitted p.to_int p.to_u32 db q v && f v) vs
  any-where_for_filters f q [] = refl
  any-where_for_filters f q (v ∷ vs) =
      rw (is_admitted_lem p.to_int p.to_u32 db q v, any-where_for_filters f q vs) refl

  -- A search is valid if it has at most 16 tokens and 256 characters, and bounds of the rating between
  -- -1 and 5 in their order. A valid one gives, however the hits are sorted, the ids of exactly the
  -- videos that match the text and meet each filter: the bounds of size, sides, duration, rating and
  -- views, the rating mode, the resolution preset, the root, the folder, the availability, and the
  -- required, excluded and offered tags among the names of the tags that are manual or not suppressed.
  -- An unknown size, side or duration meets no bound, and an unknown rating counts as 0. An invalid
  -- search gives none, and a search has an error exactly if it is invalid.
  pub search-results :
      (records : ℕ → Option SearchRecord) (q : QuerySpec) (id : ℕ)
      → (elem id (search p db records q).0 ≡ (
          is_valid q (p.split_query q.text)
          && any
              (λ v.
                is_admitted p.to_int p.to_u32 db q v
                && (is_match records (fold_query p.unicode (p.split_query q.text)) v && v.id == id))
              db.videos))
        × (is_empty (search p db records q).1 ≡ is_valid q (p.split_query q.text))
  unfolding search selected
  search-results records q id =
      let folded = fold_query p.unicode (p.split_query q.text) in
      let conditions = where_for_filters p.to_int p.to_u32 q ++ tag_conditions db q in
      let rows = sort_by (row_before p.collate q) (keep_if (holds conditions) db.videos) in
      let hits = candidates p db records folded rows in
      let sorts = has_text p db (p.split_query q.text) && not q.user_sort in
      let found : Video → Bool = λ v. is_match records folded v && v.id == id in
      let valid = validation_error_lem q (p.split_query q.text) in
      elim (Bool-cases (is_empty (validation_error q (p.split_query q.text)))) [
        | inl ok ↦
            rw (← valid, ok)
              (
                elem-map id (if sorts then sort_by (more_relevant p.compare) hits else hits)
                    ∙ any-if (λ c. c.id == id) sorts _ hits
                        (any-sort_by (λ c. c.id == id) (more_relevant p.compare) hits)
                    ∙ any-candidates id records folded rows
                    ∙ any-sort_by found (row_before p.collate q) _
                    ∙ any-keep_if found (holds conditions) db.videos
                    ∙ any-where_for_filters found q db.videos,
                refl,
              )
        | inr bad ↦ rw (← valid, bad) (refl, bad)
      ]
