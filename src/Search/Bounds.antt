-- ===== src/Search/Bounds.antt =====
-- The range of what a match reports.
use scrub_tub.Base.{
  ℕ, suc, ◌+◌, ◌*◌, ◌≡◌, ◌≤◌, refl, inl, inr, Bool, true, ◌&&◌, ◌||◌, Option, none, some, List, [],
  ◌∷◌, arith, leb, ◌==◌, length, Bool-cases, Text,
}
use scrub_tub.Tags.{edit_distance_limit}
use scrub_tub.Tags.Technical.{edit_distance_limit_lem}
use scrub_tub.Search.{
  SearchRecord, MatchResult, Score, better, widen, is_rejected, worse, after_score, add_score,
  no_match, token_score, best_score, query_score, match_from, match_tokens,
}

-- A class is at most 3, a distance at most 2, and only a typo has a distance.
abbrev pub is_fair : Option Score → Bool
is_fair none = true
is_fair (some s) = leb s.cls 3 && (leb s.dist 2 && (s.cls == 3 || s.dist == 0))

better_fair :
    (a b : Option Score) → is_fair a ≡ true → is_fair b ≡ true → is_fair (better a b) ≡ true
unfolding better
better_fair a none h k = h
better_fair none (some s) h k = k
better_fair (some b) (some s) h k = ground (arith, h, k)

widen_fair :
    (r : SearchRecord) (fq : Text) (a : Option Score)
    → is_fair a ≡ true
    → is_fair (widen r fq a).0 ≡ true
unfolding widen
widen_fair r fq none h = ground arith
widen_fair r fq (some b) h = ground arith

abbrev pub is_fair_class : Option ℕ → Bool
is_fair_class none = true
is_fair_class (some c) = leb c 3

-- What a result says of the classes and distances so far, after `n` tokens.
abbrev pub IsFairResult : ℕ → MatchResult → Type 0
IsFairResult n m = (is_fair_class m.worst_class ≡ true) × (m.total_distance ≤ 2 * n)

add_score_fair :
    (s : Score) (b : Bool) (m : MatchResult) (n : ℕ)
    → is_fair (some s) ≡ true
    → IsFairResult n m
    → IsFairResult (n + 1) (add_score s b m)
unfolding add_score
add_score_fair s b m n h k = (fair_class m.worst_class k.0, ground (arith, k.1))
  where
    fair_class : (w : Option ℕ) → is_fair_class w ≡ true → leb (worse w s.cls) 3 ≡ true
    fair_class none e = ground (arith, h)
    fair_class (some c) e = ground (arith, h, e)

after_score_fair :
    (o : Option Score) (b : Bool) (m : MatchResult) (n k : ℕ) (rest : MatchResult → MatchResult)
    → is_fair o ≡ true
    → IsFairResult n m
    → ((m' : MatchResult) → IsFairResult (n + 1) m' → IsFairResult ((n + 1) + k) (rest m'))
    → IsFairResult (n + suc k) (after_score o b m rest)
unfolding after_score
after_score_fair none b m n k rest h v f = (v.0, omega (arith, v.1))
after_score_fair (some s) b m n k rest h v f =
    let w : IsFairResult ((n + 1) + k) (rest (add_score s b m)) =
      f (add_score s b m) (add_score_fair s b m n h v) in
    (w.0, omega (arith, w.1))

module _ (levenshtein : List ℕ → List ℕ → ℕ) (to_u32 : Text → List ℕ) where
  token_score_fair :
      (fq t : Text)
      → is_fair (token_score levenshtein to_u32 (edit_distance_limit (length fq)) fq t) ≡ true
  unfolding token_score
  token_score_fair fq t =
      ground (arith, (edit_distance_limit_lem (length fq) (length fq) (omega arith)).1.0)

  best_score_fair :
      (fq : Text) (best : Option Score) (ts : List Text)
      → is_fair best ≡ true
      → is_fair (best_score levenshtein to_u32 (edit_distance_limit (length fq)) fq best ts) ≡ true
  unfolding best_score
  best_score_fair fq best [] h = h
  best_score_fair fq best (t ∷ ts) h =
      best_score_fair fq
        (better best (token_score levenshtein to_u32 (edit_distance_limit (length fq)) fq t)) ts
        (better_fair best _ h (token_score_fair fq t))

  query_score_fair :
      (r : SearchRecord) (fq : Text) → is_fair (query_score levenshtein to_u32 r fq).0 ≡ true
  unfolding query_score
  query_score_fair r fq = elim (Bool-cases (is_rejected r fq (edit_distance_limit (length fq)))) [
    | inl e ↦ rw (e, query_score) refl
    | inr e ↦ rw (e, query_score) (widen_fair r fq _ (best_score_fair fq none r.folded_tokens refl))
  ]

  match_from_fair :
      (r : SearchRecord) (m : MatchResult) (n : ℕ) (q : List Text)
      → IsFairResult n m
      → IsFairResult (n + length q) (match_from levenshtein to_u32 r m q)
  unfolding match_from
  match_from_fair r m n [] k = (k.0, omega (arith, k.1))
  match_from_fair r m n (fq ∷ fqs) k =
      let (found, name_only) = query_score levenshtein to_u32 r fq in
      after_score_fair found name_only m n (length fqs)
        (λ m'. match_from levenshtein to_u32 r m' fqs) (query_score_fair r fq) k
        (λ m' h. match_from_fair r m' (n + 1) fqs h)

  -- Whatever the edit distance says, a match reports a class of at most 3 and a distance of at most
  -- 2 for each token of the query.
  pub match_tokens-bounds :
      (r : SearchRecord) (q : List Text)
      → IsFairResult (0 + length q) (match_tokens levenshtein to_u32 r q)
  unfolding match_tokens
  match_tokens-bounds r q = match_from_fair r no_match 0 q (refl, omega arith)
