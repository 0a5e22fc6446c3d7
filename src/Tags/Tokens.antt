-- ===== src/Tags/Tokens.antt =====
-- What `tokenize` makes of a text: its letters and digits in order, cut at the other units and at
-- camel-case boundaries.
use mathlib.Core.List.{append_assoc, append-nil}
use scrub_tub.Base.{
  ℕ, ◌≡◌, refl, sym, ap, ◌∙◌, inl, inr, Bool, true, false, ◌&&◌, ◌||◌, not, List, [], ◌∷◌, ◌++◌,
  arith, Bool-cases, Text, is_empty, all, keep_if, All,
}
use scrub_tub.Tags.{Unicode, flush, take_unit, tokenize_from, tokenize}

-- The tokens one after the other.
abbrev pub concat : List Text → Text
concat [] = []
concat (t ∷ ts) = t ++ concat ts

concat-append : (xs : List Text) (y : Text) → concat (xs ++ y ∷ []) ≡ concat xs ++ y
concat-append [] y = append-nil y
concat-append (x ∷ xs) y =
    ap (λ z. x ++ z) (concat-append xs y) ∙ sym (append_assoc x (concat xs) y)

-- The unit before the next one: the last of the current token, or the one given.
abbrev pub last_of : ℕ → Text → ℕ
last_of before [] = before
last_of before (c ∷ cs) = last_of c cs

last_of-append : (before : ℕ) (cs : Text) (c : ℕ) → last_of before (cs ++ c ∷ []) ≡ c
last_of-append before [] c = refl
last_of-append before (d ∷ cs) c = last_of-append d cs c

module _ (u : Unicode) where
  -- No lower-case unit is followed by an upper-case one.
  abbrev pub is_uncut : ℕ → Text → Bool
  is_uncut a [] = true
  is_uncut a (b ∷ cs) = not (u.is_upper b && u.is_lower a) && is_uncut b cs

  -- A token: not empty, of letters and digits, and without a camel-case boundary.
  abbrev pub is_token : Text → Bool
  is_token [] = false
  is_token (c ∷ cs) = all u.is_letter_or_number (c ∷ cs) && is_uncut c cs

  -- What is read of a token so far.
  abbrev is_part : Text → Bool
  is_part t = is_empty t || is_token t

  concat-flush : (cur : Text) (ts : List Text) → concat (flush u cur ts) ≡ concat ts ++ cur
  unfolding flush
  concat-flush [] ts = sym (append-nil (concat ts))
  concat-flush (c ∷ cs) ts = concat-append ts (c ∷ cs)

  concat-take_unit :
      (b : ℕ) (cur : Text) (ts : List Text) (c : ℕ)
      → concat (take_unit u b cur ts c).1 ++ (take_unit u b cur ts c).0
        ≡ (concat ts ++ cur) ++ keep_if u.is_letter_or_number (c ∷ [])
  unfolding take_unit
  concat-take_unit b cur ts c = elim (Bool-cases (u.is_letter_or_number c)) [
    | inl e ↦ elim (Bool-cases (not (is_empty cur) && (u.is_upper c && u.is_lower b))) [
      | inl cut ↦ rw (e, cut, take_unit, concat-flush cur ts) refl
      | inr on ↦ rw (e, on, take_unit) (sym (append_assoc (concat ts) cur (c ∷ [])))
    ]
    | inr e ↦ rw (e, take_unit, concat-flush cur ts) refl
  ]

  concat-tokenize_from :
      (b : ℕ) (cur : Text) (ts : List Text) (t : Text)
      → concat (tokenize_from u b cur ts t) ≡ (concat ts ++ cur) ++ keep_if u.is_letter_or_number t
  unfolding tokenize_from
  concat-tokenize_from b cur ts [] = concat-flush cur ts ∙ sym (append-nil (concat ts ++ cur))
  concat-tokenize_from b cur ts (c ∷ cs) =
      let (cur', ts') = take_unit u b cur ts c in
      concat-tokenize_from c cur' ts' cs
      ∙ ap (λ z. z ++ keep_if u.is_letter_or_number cs) (concat-take_unit b cur ts c)
      ∙ append_assoc (concat ts ++ cur) (keep_if u.is_letter_or_number (c ∷ []))
          (keep_if u.is_letter_or_number cs)
      ∙ ap (λ z. (concat ts ++ cur) ++ z) (kept c cs)
    where
      kept :
          (c : ℕ) (cs : Text)
          → keep_if u.is_letter_or_number (c ∷ []) ++ keep_if u.is_letter_or_number cs
            ≡ keep_if u.is_letter_or_number (c ∷ cs)
      kept c cs = elim (Bool-cases (u.is_letter_or_number c)) [
        | inl e ↦ rw (e) refl
        | inr e ↦ rw (e) refl
      ]

  all-append_one : (p : ℕ → Bool) (cs : Text) (c : ℕ) → all p (cs ++ c ∷ []) ≡ (all p cs && p c)
  all-append_one p [] c = ground arith
  all-append_one p (d ∷ cs) c = ground (arith, all-append_one p cs c)

  is_uncut-append_one :
      (a : ℕ) (cs : Text) (c : ℕ)
      → is_uncut a (cs ++ c ∷ [])
        ≡ (is_uncut a cs && not (u.is_upper c && u.is_lower (last_of a cs)))
  is_uncut-append_one a [] c = ground arith
  is_uncut-append_one a (d ∷ cs) c = ground (arith, is_uncut-append_one d cs c)

  is_token-append_one :
      (b : ℕ) (cs : Text) (c : ℕ)
      → is_part cs ≡ true
      → u.is_letter_or_number c ≡ true
      → (not (is_empty cs) && (u.is_upper c && u.is_lower (last_of b cs))) ≡ false
      → is_token (cs ++ c ∷ []) ≡ true
  is_token-append_one b [] c h l n = ground arith
  is_token-append_one b (d ∷ cs) c h l n =
      ground (arith, all-append_one u.is_letter_or_number cs c, is_uncut-append_one d cs c)

  AreTokens : List Text → Type 0
  AreTokens ts = All (λ t. is_token t ≡ true) ts

  AreTokens-append :
      (ts : List Text) (t : Text) → AreTokens ts → is_token t ≡ true → AreTokens (ts ++ t ∷ [])
  unfolding AreTokens
  AreTokens-append [] t h k = (k, tt)
  AreTokens-append (x ∷ ts) t h k = (h.0, AreTokens-append ts t h.1 k)

  flush-AreTokens :
      (cur : Text) (ts : List Text) → is_part cur ≡ true → AreTokens ts → AreTokens (flush u cur ts)
  unfolding flush
  flush-AreTokens [] ts h k = k
  flush-AreTokens (c ∷ cs) ts h k = AreTokens-append ts (c ∷ cs) k h

  -- What holds between two units of the text.
  abbrev IsCut : ℕ → Text × List Text → Type 0
  IsCut b (cur, ts) = (is_part cur ≡ true) × ((last_of b cur ≡ b) × All (λ t. is_token t ≡ true) ts)

  take_unit-IsCut :
      (b : ℕ) (cur : Text) (ts : List Text) (c : ℕ)
      → IsCut b (cur, ts)
      → IsCut c (take_unit u b cur ts c)
  unfolding take_unit AreTokens
  take_unit-IsCut b cur ts c (h, (l, k)) = elim (Bool-cases (u.is_letter_or_number c)) [
    | inl e ↦ elim (Bool-cases (not (is_empty cur) && (u.is_upper c && u.is_lower b))) [
      | inl cut ↦ rw (e, cut, take_unit) (ground arith, (refl, flush-AreTokens cur ts h k))
      | inr on ↦
          rw (e, on, take_unit)
            (ground (arith, is_token-append_one b cur c h e (rw l on)), (last_of-append c cur c, k))
    ]
    | inr e ↦ rw (e, take_unit) (refl, (refl, flush-AreTokens cur ts h k))
  ]

  tokenize_from-AreTokens :
      (b : ℕ) (cur : Text) (ts : List Text) (t : Text)
      → IsCut b (cur, ts)
      → AreTokens (tokenize_from u b cur ts t)
  unfolding tokenize_from AreTokens
  tokenize_from-AreTokens b cur ts [] (h, (l, k)) = flush-AreTokens cur ts h k
  tokenize_from-AreTokens b cur ts (c ∷ cs) v =
      let (cur', ts') = take_unit u b cur ts c in
      tokenize_from-AreTokens c cur' ts' cs (take_unit-IsCut b cur ts c v)

  -- The tokens of a text, one after the other, are its letters and digits in order: nothing is
  -- lost, added or moved. Each token is not empty, and within it no lower-case unit is followed by
  -- an upper-case one.
  pub tokenize_lem :
      (t : Text)
      → (concat (tokenize u t) ≡ keep_if u.is_letter_or_number t)
        × All (λ x. is_token x ≡ true) (tokenize u t)
  unfolding tokenize AreTokens
  tokenize_lem t =
      (concat-tokenize_from 0 [] [] t, tokenize_from-AreTokens 0 [] [] t (refl, (refl, tt)))
