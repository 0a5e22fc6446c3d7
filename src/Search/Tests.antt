-- ===== src/Search/Tests.antt =====
-- Matching concrete names, with the edit distance by its recursive definition.
use scrub_tub.Base.{
  ℕ, ◌+◌, ◌≡◌, ◌≤◌, suc, min, refl, true, false, ◌&&◌, ◌||◌, not, List, [], ◌∷◌, arith, ltb, ◌==◌,
  if◌then◌else◌, Text, codes, length, all, join, ℤ, pos, minus_one,
}
use scrub_tub.Search.{
  SearchRecord, Candidate, difference, better, widen, add_score, after_score, no_match, token_score,
  best_score, query_score, match_from, match_tokens, more_relevant,
}
use scrub_tub.Search.Match.{match_tokens-matched, is_hit}
use scrub_tub.Search.Bounds.{match_tokens-bounds, IsFairResult}
use scrub_tub.Search.Relevance.{more_relevant-order, is_less, is_greater}

program : Unit {0}
unfolding better widen add_score after_score token_score best_score query_score match_from
    match_tokens
program = tt

abbrev pub edit_distance : List ℕ → List ℕ → ℕ
edit_distance [] ys = length ys
edit_distance (x ∷ xs) [] = suc (length xs)
edit_distance (x ∷ xs) (y ∷ ys) =
    let kept = edit_distance xs ys in
    if x == y
    then kept
    else suc (min kept (min (edit_distance xs (y ∷ ys)) (edit_distance (x ∷ xs) ys)))

edit_distance_bound : (a b : List ℕ) → difference (length a) (length b) ≤ edit_distance a b
edit_distance_bound [] ys = omega arith
edit_distance_bound (x ∷ xs) [] = omega arith
edit_distance_bound (x ∷ xs) (y ∷ ys) = ground (
  arith,
  edit_distance_bound xs ys,
  edit_distance_bound xs (y ∷ ys),
  edit_distance_bound (x ∷ xs) ys,
)

abbrev clip : SearchRecord
clip = record {
  id = 1;
  file_name = codes "sea.mp4";
  rel_path = codes "a/sea.mp4";
  tokens = codes "sea" ∷ codes "mp4" ∷ codes "a" ∷ [];
  folded_tokens = codes "sea" ∷ codes "mp4" ∷ codes "a" ∷ [];
  folded_blob = join 32 (codes "sea" ∷ codes "mp4" ∷ codes "a" ∷ []);
  folded_name = codes "sea.mp4";
  folded_path = codes "a/sea.mp4";
  norm_name = codes "sea.mp4";
}

abbrev units : Text → List ℕ
units t = t

abbrev query : List Text
query = codes "sex" ∷ codes "mp" ∷ []

match_tokens-matched_example :
    (match_tokens edit_distance units clip query).matched
    ≡ all (is_hit edit_distance units clip) query
match_tokens-matched_example =
    match_tokens-matched edit_distance units edit_distance_bound clip query refl
      (refl, (refl, (refl, tt))) (refl, (refl, tt))

match_tokens-bounds_example :
    IsFairResult (0 + length query) (match_tokens edit_distance units clip query)
match_tokens-bounds_example = match_tokens-bounds edit_distance units clip query

-- The lexicographic comparison of the code units.
abbrev pub compare_units : Text → Text → ℤ
compare_units [] [] = pos 0
compare_units [] (b ∷ bs) = minus_one
compare_units (a ∷ as') [] = pos 1
compare_units (a ∷ as') (b ∷ bs) =
    let rest = compare_units as' bs in
    if ltb a b then minus_one else if ltb b a then pos 1 else rest

compare_units_flip : (s t : Text) → is_greater compare_units s t ≡ is_less compare_units t s
compare_units_flip [] [] = refl
compare_units_flip [] (b ∷ bs) = refl
compare_units_flip (a ∷ as') [] = refl
compare_units_flip (a ∷ as') (b ∷ bs) = ground (arith, compare_units_flip as' bs)

compare_units_trans :
    (s t r : Text)
    → is_less compare_units s t ≡ true
    → is_less compare_units t r ≡ true
    → is_less compare_units s r ≡ true
compare_units_trans [] [] r h k = cc
compare_units_trans [] (b ∷ bs) [] h k = cc
compare_units_trans [] (b ∷ bs) (c ∷ cs) h k = refl
compare_units_trans (a ∷ as') [] r h k = cc
compare_units_trans (a ∷ as') (b ∷ bs) [] h k = cc
compare_units_trans (a ∷ as') (b ∷ bs) (c ∷ cs) h k = ground (arith, compare_units_trans as' bs cs)

compare_units_same :
    (s t : Text) → is_less compare_units s t ≡ false → is_greater compare_units s t ≡ false → s ≡ t
compare_units_same [] [] h k = refl
compare_units_same [] (b ∷ bs) h k = cc
compare_units_same (a ∷ as') [] h k = cc
compare_units_same (a ∷ as') (b ∷ bs) h k = ground (arith, compare_units_same as' bs)

abbrev hit : ℕ → Text → Candidate
hit n name = record { id = n; found = no_match; norm_name = name }

more_relevant-order_example :
    let a = hit 1 (codes "sea") in
    let b = hit 2 (codes "sea") in
    let c = hit 3 (codes "sun") in
    ((more_relevant compare_units a b && more_relevant compare_units b a) ≡ false)
    × (((more_relevant compare_units a b || (more_relevant compare_units b a || a.id == b.id))
          ≡ true)
        × ((not (more_relevant compare_units a b && more_relevant compare_units b c)
              || more_relevant compare_units a c)
            ≡ true))
more_relevant-order_example =
    more_relevant-order compare_units compare_units_flip compare_units_trans compare_units_same
      (hit 1 (codes "sea")) (hit 2 (codes "sea")) (hit 3 (codes "sun"))
