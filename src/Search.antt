-- ===== src/Search.antt =====
-- src/catalogue/CatalogueM3.cpp: the snapshots of the search and the fuzzy matching of a query. The
-- edit distance of rapidfuzz and Qt's conversion to UTF-32 are parameters.
pub mod Match
pub mod Bounds
pub mod Relevance
mod Tests
use scrub_tub.Base.{
  ℕ, ◌+◌, ◌-◌, Bool, true, false, ◌&&◌, ◌||◌, not, Option, none, some, List, [], ◌∷◌, ltb, leb,
  ◌==◌, if◌then◌else◌, max, length, ℤ, pos, ltb_ℤ, Text, eq_text, starts_with, contains, elem_text,
  join, is_empty, append_new,
}
use scrub_tub.Tags.{Unicode, tokenize, normalize, diacritic_fold, edit_distance_limit}

pub record SearchRecord : Type 0 where
  pub id : ℕ
  pub file_name : Text
  pub rel_path : Text
  pub tokens : List Text
  pub folded_tokens : List Text
  pub folded_blob : Text
  pub folded_name : Text
  pub folded_path : Text
  pub norm_name : Text

module _ (u : Unicode) where
  pub add_token : Text → List Text → List Text
  add_token t tokens =
      if is_empty (normalize u t) then tokens else append_new (normalize u t) tokens

  pub add_tokens : List Text → List Text → List Text
  add_tokens tokens [] = tokens
  add_tokens tokens (t ∷ ts) = add_tokens (add_token t tokens) ts

  pub add_texts : List Text → List Text → List Text
  add_texts tokens [] = tokens
  add_texts tokens (t ∷ ts) = add_texts (add_tokens tokens (tokenize u t)) ts

  pub fold_tokens : List Text → List Text → List Text
  fold_tokens folded [] = folded
  fold_tokens folded (t ∷ ts) = fold_tokens (append_new (diacritic_fold u t) folded) ts

  pub fill_record : ℕ → Text → Text → List Text → SearchRecord
  fill_record id file_name rel_path tag_norms =
      let tokens = add_texts [] (file_name ∷ rel_path ∷ tag_norms) in
      let folded = fold_tokens [] tokens in
      record {
        id = id;
        file_name = file_name;
        rel_path = rel_path;
        tokens = tokens;
        folded_tokens = folded;
        folded_blob = join 32 folded;
        folded_name = diacritic_fold u file_name;
        folded_path = diacritic_fold u rel_path;
        norm_name = normalize u file_name;
      }

  pub fold_query : List Text → List Text
  fold_query [] = []
  fold_query (t ∷ ts) = diacritic_fold u (normalize u t) ∷ fold_query ts

-- The class of -1 is `none`.
pub record MatchResult : Type 0 where
  pub worst_class : Option ℕ
  pub total_distance : ℕ
  pub name_matched : Bool
  pub matched : Bool

-- A class with its distance.
pub record Score : Type 0 where
  pub cls : ℕ
  pub dist : ℕ

abbrev pub score : ℕ → ℕ → Score
score c d = record { cls = c; dist = d }

-- `qAbs(a - b)`
abbrev pub difference : ℕ → ℕ → ℕ
difference a b = (a - b) + (b - a)

-- `cls < bestClass || (cls == bestClass && dist < bestDistance)`, where nothing was best yet too.
pub better : Option Score → Option Score → Option Score
better best none = best
better none (some s) = some s
better (some b) (some s) =
    if ltb s.cls b.cls || (s.cls == b.cls && ltb s.dist b.dist) then some s else some b

-- The class of the best match so far is missing or that of a typo.
abbrev pub is_weak : Option Score → Bool
is_weak none = true
is_weak (some s) = ltb 2 s.cls

abbrev pub is_none : Option Score → Bool
is_none none = true
is_none (some s) = false

-- The whole name, then the path: the best score, and whether it is the name's.
pub widen : SearchRecord → Text → Option Score → Option Score × Bool
widen r fq best =
    if is_weak best
    then (if contains r.folded_name fq
        then (some (score 2 0), true)
        else (if contains r.folded_path fq && is_none best
            then (some (score 2 0), false)
            else (best, false)))
    else (best, false)

abbrev pub is_rejected : SearchRecord → Text → ℕ → Bool
is_rejected r fq limit =
    limit == 0
    && (not (contains r.folded_blob fq)
        && (not (contains r.folded_name fq) && not (contains r.folded_path fq)))

-- `qMax(result.worstClass, bestClass)`
abbrev pub worse : Option ℕ → ℕ → ℕ
worse none c = c
worse (some w) c = max w c

-- What one query token adds to the result.
pub add_score : Score → Bool → MatchResult → MatchResult
add_score s name_only m = record m {
  worst_class = some (worse m.worst_class s.cls);
  total_distance = m.total_distance + s.dist;
  name_matched = if name_only then true else m.name_matched;
}

-- `return` where nothing matched, and the rest of the loop otherwise.
pub after_score : Option Score → Bool → MatchResult → (MatchResult → MatchResult) → MatchResult
after_score none name_only m rest = record m { matched = false }
after_score (some s) name_only m rest = rest (add_score s name_only m)

abbrev pub no_match : MatchResult
no_match = record { worst_class = none; total_distance = 0; name_matched = false; matched = true }

module _ (levenshtein : List ℕ → List ℕ → ℕ) (to_u32 : Text → List ℕ) where
  pub token_score : ℕ → Text → Text → Option Score
  token_score limit fq token =
      if eq_text token fq
      then some (score 0 0)
      else (if starts_with token fq
          then some (score 1 0)
          else (if contains token fq
              then some (score 2 0)
              else (if ltb 0 limit && leb (difference (length token) (length fq)) limit
                  then (if leb (levenshtein (to_u32 token) (to_u32 fq)) limit
                      then some (score 3 (levenshtein (to_u32 token) (to_u32 fq)))
                      else none)
                  else none)))

  pub best_score : ℕ → Text → Option Score → List Text → Option Score
  best_score limit fq best [] = best
  best_score limit fq best (t ∷ ts) = best_score limit fq (better best (token_score limit fq t)) ts

  -- The body of the loop over the query: the score of one token, or none where nothing matches.
  pub query_score : SearchRecord → Text → Option Score × Bool
  query_score r fq =
      let limit = edit_distance_limit (length fq) in
      if is_rejected r fq limit
      then (none, false)
      else widen r fq (best_score limit fq none r.folded_tokens)

  pub match_from : SearchRecord → MatchResult → List Text → MatchResult
  match_from r m [] = m
  match_from r m (fq ∷ fqs) =
      let (found, name_only) = query_score r fq in
      after_score found name_only m (λ m'. match_from r m' fqs)

  pub match_tokens : SearchRecord → List Text → MatchResult
  match_tokens r folded_query = match_from r no_match folded_query

-- A hit of the scan, and the order of `std::sort` on hits.
pub record Candidate : Type 0 where
  pub id : ℕ
  pub found : MatchResult
  pub norm_name : Text

-- A class as the integer that the source compares.
abbrev pub class_number : Option ℕ → ℕ
class_number none = 0
class_number (some c) = c + 1

-- The name, then the id.
pub before_by_name : (Text → Text → ℤ) → Candidate → Candidate → Bool
before_by_name compare a b =
    let c = compare a.norm_name b.norm_name in
    if ltb_ℤ c (pos 0) || ltb_ℤ (pos 0) c then ltb_ℤ c (pos 0) else ltb a.id b.id

abbrev pub eq_bool : Bool → Bool → Bool
eq_bool true b = b
eq_bool false b = not b

pub more_relevant : (Text → Text → ℤ) → Candidate → Candidate → Bool
more_relevant compare a b =
    if not (class_number a.found.worst_class == class_number b.found.worst_class)
    then ltb (class_number a.found.worst_class) (class_number b.found.worst_class)
    else (if not (a.found.total_distance == b.found.total_distance)
        then ltb a.found.total_distance b.found.total_distance
        else (if not (eq_bool a.found.name_matched b.found.name_matched)
            then a.found.name_matched
            else before_by_name compare a b))
