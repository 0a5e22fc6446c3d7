-- ===== src/Search/Match.antt =====
-- src/catalogue/CatalogueM3.cpp, matchTokens: the shortcuts of the matching, the fast reject and the
-- test of the lengths, against the plain search for every token of the query.
use scrub_tub.Base.{
  ℕ, ◌≡◌, ◌≤◌, refl, inl, inr, Bool, true, false, ◌&&◌, ◌||◌, not, Option, none, some, List, [],
  ◌∷◌, ◌++◌, arith, ltb, leb, ◌==◌, length, any, all, All, Bool-cases, Text, eq_text, starts_with,
  contains, join,
}
use scrub_tub.Tags.{edit_distance_limit}
use scrub_tub.Search.{
  SearchRecord, MatchResult, Score, difference, better, is_none, widen, is_rejected, after_score,
  add_score, no_match, token_score, best_score, query_score, match_from, match_tokens,
}

starts_with-eq_text : (t p : Text) → eq_text t p ≡ true → starts_with t p ≡ true
starts_with-eq_text [] [] h = refl
starts_with-eq_text [] (p ∷ ps) h = cc
starts_with-eq_text (t ∷ ts) [] h = refl
starts_with-eq_text (t ∷ ts) (p ∷ ps) h = ground (arith, starts_with-eq_text ts ps)

contains-starts_with : (t p : Text) → starts_with t p ≡ true → contains t p ≡ true
contains-starts_with [] p h = h
contains-starts_with (t ∷ ts) p h = ground (arith, h)

contains_empty : (t : Text) → contains t [] ≡ true
contains_empty [] = refl
contains_empty (t ∷ ts) = refl

starts_with-append : (xs ys p : Text) → starts_with xs p ≡ true → starts_with (xs ++ ys) p ≡ true
starts_with-append [] ys [] h = refl
starts_with-append [] ys (p ∷ ps) h = cc
starts_with-append (x ∷ xs) ys [] h = refl
starts_with-append (x ∷ xs) ys (p ∷ ps) h = ground (arith, starts_with-append xs ys ps)

contains-append-left : (xs ys p : Text) → contains xs p ≡ true → contains (xs ++ ys) p ≡ true
contains-append-left [] ys [] h = contains_empty ys
contains-append-left [] ys (p ∷ ps) h = cc
contains-append-left (x ∷ xs) ys p h =
    ground (arith, h, starts_with-append (x ∷ xs) ys p, contains-append-left xs ys p)

contains-append-right : (xs ys p : Text) → contains ys p ≡ true → contains (xs ++ ys) p ≡ true
contains-append-right [] ys p h = h
contains-append-right (x ∷ xs) ys p h = ground (arith, contains-append-right xs ys p h)

contains-join :
    (sep : ℕ) (ts : List Text) (p : Text)
    → any (λ t. contains t p) ts ≡ true
    → contains (join sep ts) p ≡ true
contains-join sep [] p h = cc
contains-join sep (x ∷ []) p h = ground (arith, h)
contains-join sep (x ∷ y ∷ ys) p h = elim (Bool-cases (contains x p)) [
  | inl e ↦ contains-append-left x (sep ∷ join sep (y ∷ ys)) p e
  | inr e ↦ contains-append-right x (sep ∷ join sep (y ∷ ys)) p (
      contains-append-right (sep ∷ []) (join sep (y ∷ ys)) p
        (contains-join sep (y ∷ ys) p (ground (arith, h, e))))
]

is_none-better : (a b : Option Score) → is_none (better a b) ≡ (is_none a && is_none b)
unfolding better
is_none-better none none = refl
is_none-better none (some s) = refl
is_none-better (some b) none = refl
is_none-better (some b) (some s) = ground arith

is_none-widen :
    (r : SearchRecord) (fq : Text) (best : Option Score)
    → is_none (widen r fq best).0
      ≡ (is_none best && not (contains r.folded_name fq || contains r.folded_path fq))
unfolding widen
is_none-widen r fq none = ground arith
is_none-widen r fq (some b) = ground arith

after_score-matched :
    (o : Option Score) (b : Bool) (m : MatchResult) (rest : MatchResult → MatchResult)
    (all_rest : Bool)
    → ((m' : MatchResult) → m'.matched ≡ true → (rest m').matched ≡ all_rest)
    → m.matched ≡ true
    → (after_score o b m rest).matched ≡ (not (is_none o) && all_rest)
unfolding after_score add_score
after_score-matched none b m rest a f h = refl
after_score-matched (some s) b m rest a f h = f (add_score s b m) h

module _ (levenshtein : List ℕ → List ℕ → ℕ) (to_u32 : Text → List ℕ) where
  -- The token holds the query token, or is within its typo budget, whatever their lengths.
  abbrev pub is_token_hit : Text → Text → Bool
  is_token_hit fq t =
      contains t fq
      || (ltb 0 (edit_distance_limit (length fq))
          && leb (levenshtein (to_u32 t) (to_u32 fq)) (edit_distance_limit (length fq)))

  -- Some token is hit, or the whole name or path holds the query token.
  abbrev pub is_hit : SearchRecord → Text → Bool
  is_hit r fq =
      any (is_token_hit fq) r.folded_tokens
      || (contains r.folded_name fq || contains r.folded_path fq)

  module _ (bound : (a b : List ℕ) → difference (length a) (length b) ≤ levenshtein a b) where
    is_none-token_score :
        (fq t : Text)
        → length (to_u32 fq) ≡ length fq
        → length (to_u32 t) ≡ length t
        → is_none (token_score levenshtein to_u32 (edit_distance_limit (length fq)) fq t)
          ≡ not (is_token_hit fq t)
    unfolding token_score
    is_none-token_score fq t hq ht = ground (
      arith,
      starts_with-eq_text t fq,
      contains-starts_with t fq,
      bound (to_u32 t) (to_u32 fq),
      hq,
      ht,
    )

    is_none-best_score :
        (fq : Text) (best : Option Score) (ts : List Text)
        → length (to_u32 fq) ≡ length fq
        → All (λ t. length (to_u32 t) ≡ length t) ts
        → is_none (best_score levenshtein to_u32 (edit_distance_limit (length fq)) fq best ts)
          ≡ (is_none best && not (any (is_token_hit fq) ts))
    unfolding best_score
    is_none-best_score fq best [] hq hs = ground arith
    is_none-best_score fq best (t ∷ ts) hq hs =
        let s = token_score levenshtein to_u32 (edit_distance_limit (length fq)) fq t in
        ground (
          arith,
          is_none-best_score fq (better best s) ts hq hs.1,
          is_none-better best s,
          is_none-token_score fq t hq hs.0,
        )

    -- Without a typo budget a hit is a substring.
    any-contains :
        (fq : Text) (ts : List Text)
        → (edit_distance_limit (length fq) == 0) ≡ true
        → any (is_token_hit fq) ts ≡ any (λ t. contains t fq) ts
    any-contains fq [] h = refl
    any-contains fq (t ∷ ts) h = ground (arith, any-contains fq ts h)

    is_none-query_score :
        (r : SearchRecord) (fq : Text)
        → r.folded_blob ≡ join 32 r.folded_tokens
        → All (λ t. length (to_u32 t) ≡ length t) r.folded_tokens
        → length (to_u32 fq) ≡ length fq
        → is_none (query_score levenshtein to_u32 r fq).0 ≡ not (is_hit r fq)
    unfolding query_score
    is_none-query_score r fq hb hs hq =
        elim (Bool-cases (is_rejected r fq (edit_distance_limit (length fq)))) [
          | inl e ↦
              rw (e, query_score)
                (ground (arith, any-contains fq r.folded_tokens (ground arith), missed e))
          | inr e ↦
              rw (e, query_score)
                (ground (
                  arith,
                  is_none-widen r fq (
                      best_score levenshtein to_u32 (edit_distance_limit (length fq)) fq none
                        r.folded_tokens),
                  is_none-best_score fq none r.folded_tokens hq hs,
                ))
        ]
      where
        missed :
            is_rejected r fq (edit_distance_limit (length fq)) ≡ true
            → any (λ t. contains t fq) r.folded_tokens ≡ false
        missed e = elim (Bool-cases (any (λ t. contains t fq) r.folded_tokens)) [
          | inl found ↦ ground (arith, e, hb, contains-join 32 r.folded_tokens fq found)
          | inr none_found ↦ none_found
        ]

    match_from-matched :
        (r : SearchRecord) (m : MatchResult) (q : List Text)
        → r.folded_blob ≡ join 32 r.folded_tokens
        → All (λ t. length (to_u32 t) ≡ length t) r.folded_tokens
        → All (λ t. length (to_u32 t) ≡ length t) q
        → m.matched ≡ true
        → (match_from levenshtein to_u32 r m q).matched ≡ all (is_hit r) q
    unfolding match_from
    match_from-matched r m [] hb hs hq hm = hm
    match_from-matched r m (fq ∷ fqs) hb hs hq hm =
        let (found, name_only) = query_score levenshtein to_u32 r fq in
        ground (
          arith,
          after_score-matched found name_only m (λ m'. match_from levenshtein to_u32 r m' fqs)
              (all (is_hit r) fqs) (λ m' k. match_from-matched r m' fqs hb hs hq.1 k) hm,
          is_none-query_score r fq hb hs hq.0,
        )

    -- With an edit distance that is at least the difference of the lengths, on a snapshot whose blob
    -- joins its tokens, and where the tokens and the query lie in the Basic Multilingual Plane (as
    -- many code points as units), a query matches exactly if each of its tokens is hit: as a part of
    -- a token, of the name or of the path, or within the typo budget of a token of any length.
    pub match_tokens-matched :
        (r : SearchRecord) (q : List Text)
        → r.folded_blob ≡ join 32 r.folded_tokens
        → All (λ t. length (to_u32 t) ≡ length t) r.folded_tokens
        → All (λ t. length (to_u32 t) ≡ length t) q
        → (match_tokens levenshtein to_u32 r q).matched ≡ all (is_hit r) q
    unfolding match_tokens
    match_tokens-matched r q hb hs hq = match_from-matched r no_match q hb hs hq refl
