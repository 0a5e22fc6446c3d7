-- ===== src/Tags/Filenames.antt =====
-- Which tags `filenameTags` and `folderTags` give.
use scrub_tub.Base.{
  ℕ, ◌+◌, ◌≡◌, inl, inr, Bool, false, ◌&&◌, ◌||◌, not, List, [], ◌∷◌, arith, if◌then◌else◌,
  Bool-cases, leb, all, length, ◌∙◌, ap, eq_text→eq, Text, eq_text, elem_text, any, append_new,
  DistinctTexts, elem_text-append_new, append_new-DistinctTexts,
}
use scrub_tub.Tags.{
  Unicode, mixed_from, is_meaningful_mixed, normalize, tokenize, is_tag, tags_from, filename_tags,
  is_ignored, append_all, folders_from, folder_tags,
}

module _ (u : Unicode) where
  -- Two letters stand side by side, where `b` says whether a letter precedes.
  abbrev pub has_letter_pair : Bool → Text → Bool
  has_letter_pair b [] = false
  has_letter_pair b (c ∷ cs) = (b && u.is_letter c) || has_letter_pair (u.is_letter c) cs

  mixed_from_lem :
      (run : ℕ) (has_run has_digit : Bool) (t : Text)
      → mixed_from u run has_run has_digit t ≡ (
          (has_run || has_letter_pair (leb 1 run) t)
          && (has_digit || any (λ c. not (u.is_letter c) && u.is_digit c) t))
  unfolding mixed_from
  mixed_from_lem run r d [] = ground arith
  mixed_from_lem run r d (c ∷ cs) = ground (
    arith,
    mixed_from_lem (if u.is_letter c then run + 1 else 0) (r || (u.is_letter c && leb 2 (run + 1)))
        (d || (not (u.is_letter c) && u.is_digit c)) cs,
  )

  -- A token with digits is meaningful exactly if two letters stand side by side in it and it has a
  -- digit that is no letter.
  pub is_meaningful_mixed_lem :
      (t : Text)
      → is_meaningful_mixed u t
        ≡ (has_letter_pair false t && any (λ c. not (u.is_letter c) && u.is_digit c) t)
  unfolding is_meaningful_mixed
  is_meaningful_mixed_lem t = mixed_from_lem 0 false false t

  abbrev gives : Text → Text → Bool
  gives t raw = is_tag u (normalize u raw) && eq_text (normalize u raw) t

  -- The guards of a tag: two units, a letter, something other than digits, with digits also two
  -- letters side by side and a digit that is no letter, and none of the ignored words.
  pub is_admissible : Text → Bool
  is_admissible t =
      leb 2 (length t)
      && (any u.is_letter t
          && (not (all u.is_digit t)
              && ((not (any u.is_digit t)
                    || (has_letter_pair false t
                        && any (λ c. not (u.is_letter c) && u.is_digit c) t))
                  && not (is_ignored t))))

  is_tag_lem : (t : Text) → is_tag u t ≡ is_admissible t
  unfolding is_tag is_admissible
  is_tag_lem t = ground (arith, is_meaningful_mixed_lem t)

  -- One of the tokens is normalized to the text.
  pub is_token_of : Text → Text → Bool
  is_token_of t stem = any (λ raw. eq_text (normalize u raw) t) (tokenize u stem)

  gives_lem : (t raw : Text) → gives t raw ≡ (is_admissible t && eq_text (normalize u raw) t)
  gives_lem t raw = elim (Bool-cases (eq_text (normalize u raw) t)) [
    | inl e ↦
        let same : is_tag u (normalize u raw) ≡ is_tag u t =
          ap (is_tag u) (eq_text→eq (normalize u raw) t e) in
        ground (arith, e, same, is_tag_lem t)
    | inr e ↦ ground (arith, e)
  ]

  any-gives :
      (t : Text) (raws : List Text)
      → any (gives t) raws ≡ (is_admissible t && any (λ raw. eq_text (normalize u raw) t) raws)
  any-gives t [] = ground arith
  any-gives t (raw ∷ raws) = ground (arith, gives_lem t raw, any-gives t raws)

  elem_text-tags_from :
      (t : Text) (tags raws : List Text)
      → elem_text t (tags_from u tags raws) ≡ (elem_text t tags || any (gives t) raws)
  unfolding tags_from
  elem_text-tags_from t tags [] = ground arith
  elem_text-tags_from t tags (raw ∷ raws) = elim (Bool-cases (is_tag u (normalize u raw))) [
    | inl e ↦ ground (
      arith,
      e,
      elem_text-tags_from t (append_new (normalize u raw) tags) raws,
      elem_text-append_new t (normalize u raw) tags,
    )
    | inr e ↦ ground (arith, e, elem_text-tags_from t tags raws)
  ]

  tags_from-DistinctTexts :
      (tags raws : List Text) → DistinctTexts tags → DistinctTexts (tags_from u tags raws)
  unfolding tags_from
  tags_from-DistinctTexts tags [] d = d
  tags_from-DistinctTexts tags (raw ∷ raws) d = elim (Bool-cases (is_tag u (normalize u raw))) [
    | inl e ↦
        rw (e, tags_from)
          (tags_from-DistinctTexts (append_new (normalize u raw) tags) raws
            (append_new-DistinctTexts (normalize u raw) tags d))
    | inr e ↦ rw (e, tags_from) (tags_from-DistinctTexts tags raws d)
  ]

  filename_tags_lem :
      (stem t : Text) → elem_text t (filename_tags u stem) ≡ (is_admissible t && is_token_of t stem)
  unfolding filename_tags is_token_of
  filename_tags_lem stem t =
      elem_text-tags_from t [] (tokenize u stem) ∙ any-gives t (tokenize u stem)

  elem_text-append_all :
      (t : Text) (tags ts : List Text)
      → elem_text t (append_all tags ts) ≡ (elem_text t tags || elem_text t ts)
  unfolding append_all
  elem_text-append_all t tags [] = ground arith
  elem_text-append_all t tags (x ∷ ts) =
      ground (arith, elem_text-append_all t (append_new x tags) ts, elem_text-append_new t x tags)

  append_all-DistinctTexts :
      (tags ts : List Text) → DistinctTexts tags → DistinctTexts (append_all tags ts)
  unfolding append_all
  append_all-DistinctTexts tags [] d = d
  append_all-DistinctTexts tags (x ∷ ts) d =
      append_all-DistinctTexts (append_new x tags) ts (append_new-DistinctTexts x tags d)

  elem_text-folders_from :
      (t : Text) (tags segments : List Text)
      → elem_text t (folders_from u tags segments)
        ≡ (elem_text t tags || any (λ s. elem_text t (filename_tags u s)) segments)
  unfolding folders_from
  elem_text-folders_from t tags [] = ground arith
  elem_text-folders_from t tags (s ∷ ss) = ground (
    arith,
    elem_text-folders_from t (append_all tags (filename_tags u s)) ss,
    elem_text-append_all t tags (filename_tags u s),
  )

  folders_from-DistinctTexts :
      (tags segments : List Text)
      → DistinctTexts tags
      → DistinctTexts (folders_from u tags segments)
  unfolding folders_from
  folders_from-DistinctTexts tags [] d = d
  folders_from-DistinctTexts tags (s ∷ ss) d =
      folders_from-DistinctTexts (append_all tags (filename_tags u s)) ss
        (append_all-DistinctTexts tags (filename_tags u s) d)

  any-filename_tags :
      (t : Text) (segments : List Text)
      → any (λ s. elem_text t (filename_tags u s)) segments
        ≡ (is_admissible t && any (is_token_of t) segments)
  any-filename_tags t [] = ground arith
  any-filename_tags t (s ∷ ss) = ground (arith, filename_tags_lem s t, any-filename_tags t ss)

  -- The tags of a path, given as its segments, are each once exactly the normalized tokens of its
  -- segments that have at least two units, a letter, something other than digits and, where they have
  -- digits, also two letters side by side and a digit that is no letter, and that are none of the
  -- ignored words.
  pub folder_tags_lem :
      (segments : List Text) (t : Text)
      → (elem_text t (folder_tags u segments) ≡ (is_admissible t && any (is_token_of t) segments))
        × DistinctTexts (folder_tags u segments)
  unfolding folder_tags
  folder_tags_lem segments t = (
    elem_text-folders_from t [] segments ∙ any-filename_tags t segments,
    folders_from-DistinctTexts [] segments tt,
  )
