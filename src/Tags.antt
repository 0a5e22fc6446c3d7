-- ===== src/Tags.antt =====
-- src/catalogue/TagEngine.{h,cpp}: tokens, tags and buckets of file names, over Qt's Unicode tables.
pub mod Tokens
pub mod Filenames
pub mod Technical
mod Tests
use scrub_tub.Base.{
  ℕ, ◌+◌, Bool, true, false, ◌&&◌, ◌||◌, not, List, [], ◌∷◌, ◌++◌, ltb, leb, if◌then◌else◌, Text,
  codes, eq_text, elem_text, append_new, is_empty, any, all, keep_if, length, min, ℤ, pos, leb_ℤ,
  ltb_ℤ,
}

-- QChar's tests of a code unit, and QString's normal forms, case folding and trimming.
pub record Unicode : Type 0 where
  pub is_letter : ℕ → Bool
  pub is_digit : ℕ → Bool
  pub is_upper : ℕ → Bool
  pub is_lower : ℕ → Bool
  pub is_letter_or_number : ℕ → Bool
  pub is_nonspacing_mark : ℕ → Bool
  pub is_spacing_mark : ℕ → Bool
  pub normalized_kd : Text → Text
  pub normalized_kc : Text → Text
  pub to_case_folded : Text → Text
  pub trimmed : Text → Text

abbrev pub builtin_ignore : List Text
builtin_ignore =
    codes "final"
    ∷ codes "copy"
    ∷ codes "test"
    ∷ codes "backup"
    ∷ codes "export"
    ∷ codes "render"
    ∷ codes "output"
    ∷ codes "edit"
    ∷ codes "mp4"
    ∷ codes "m4v"
    ∷ codes "mkv"
    ∷ codes "webm"
    ∷ codes "avi"
    ∷ codes "mov"
    ∷ codes "wmv"
    ∷ codes "flv"
    ∷ codes "mpg"
    ∷ codes "mpeg"
    ∷ codes "ogv"
    ∷ codes "h264"
    ∷ codes "h265"
    ∷ codes "hevc"
    ∷ codes "av1"
    ∷ codes "vp9"
    ∷ codes "vp8"
    ∷ codes "xvid"
    ∷ codes "divx"
    ∷ codes "aac"
    ∷ codes "mp3"
    ∷ codes "opus"
    ∷ codes "vorbis"
    ∷ codes "flac"
    ∷ codes "ac3"
    ∷ codes "dts"
    ∷ codes "1080p"
    ∷ codes "720p"
    ∷ codes "480p"
    ∷ codes "2160p"
    ∷ codes "4k"
    ∷ codes "8k"
    ∷ codes "60fps"
    ∷ codes "30fps"
    ∷ codes "24fps"
    ∷ codes "25fps"
    ∷ codes "50fps"
    ∷ []

pub is_ignored : Text → Bool
is_ignored t = elem_text t builtin_ignore

-- The loop over the tags of one folder.
pub append_all : List Text → List Text → List Text
append_all tags [] = tags
append_all tags (t ∷ ts) = append_all (append_new t tags) ts

module _ (u : Unicode) where
  -- The loop, with the length of the letter run and the two flags so far.
  pub mixed_from : ℕ → Bool → Bool → Text → Bool
  mixed_from run has_run has_digit [] = has_run && has_digit
  mixed_from run has_run has_digit (c ∷ cs) =
      mixed_from (if u.is_letter c then run + 1 else 0)
        (has_run || (u.is_letter c && leb 2 (run + 1)))
        (has_digit || (not (u.is_letter c) && u.is_digit c)) cs

  pub is_meaningful_mixed : Text → Bool
  is_meaningful_mixed t = mixed_from 0 false false t

  pub diacritic_fold : Text → Text
  diacritic_fold t =
      keep_if (λ c. not (u.is_nonspacing_mark c) && not (u.is_spacing_mark c)) (u.normalized_kd t)

  unfoldable pub normalize : Text → Text
  normalize t = u.trimmed (u.to_case_folded (u.normalized_kc t))

  -- `flush`
  pub flush : Text → List Text → List Text
  flush [] tokens = tokens
  flush (c ∷ cs) tokens = tokens ++ (c ∷ cs) ∷ []

  -- The body of the loop: what it leaves of the current token and the tokens. `before` is
  -- `text.at(i - 1)`, which is read only where there is one.
  pub take_unit : ℕ → Text → List Text → ℕ → Text × List Text
  take_unit before current tokens c =
      if u.is_letter_or_number c
      then (if not (is_empty current) && (u.is_upper c && u.is_lower before)
          then (c ∷ [], flush current tokens)
          else (current ++ c ∷ [], tokens))
      else ([], flush current tokens)

  pub tokenize_from : ℕ → Text → List Text → Text → List Text
  tokenize_from before current tokens [] = flush current tokens
  tokenize_from before current tokens (c ∷ cs) =
      let (current', tokens') = take_unit before current tokens c in
      tokenize_from c current' tokens' cs

  pub tokenize : Text → List Text
  tokenize t = tokenize_from 0 [] [] t

  -- The tests of one normalized token, in the order of the `continue`s.
  pub is_tag : Text → Bool
  is_tag norm =
      if ltb (length norm) 2
      then false
      else (if all u.is_digit norm || not (any u.is_letter norm)
          then false
          else (if any u.is_digit norm && not (is_meaningful_mixed norm)
              then false
              else not (is_ignored norm)))

  pub tags_from : List Text → List Text → List Text
  tags_from tags [] = tags
  tags_from tags (raw ∷ raws) =
      tags_from (if is_tag (normalize raw) then append_new (normalize raw) tags else tags) raws

  pub filename_tags : Text → List Text
  filename_tags stem = tags_from [] (tokenize stem)

  pub folders_from : List Text → List Text → List Text
  folders_from tags [] = tags
  folders_from tags (s ∷ ss) = folders_from (append_all tags (filename_tags s)) ss

  pub folder_tags : List Text → List Text
  folder_tags segments = folders_from [] segments

-- `qMin(displayWidth, displayHeight)` for sides above 0, and no bucket for others.
pub resolution_bucket : ℤ → ℤ → Text
resolution_bucket w h =
    let shorter = if ltb_ℤ h w then h else w in
    if leb_ℤ w (pos 0) || leb_ℤ h (pos 0)
    then []
    else (if leb_ℤ (pos 2160) shorter
        then codes "2160"
        else (if leb_ℤ (pos 1440) shorter
            then codes "1440"
            else (if leb_ℤ (pos 1080) shorter
                then codes "1080"
                else (if leb_ℤ (pos 720) shorter
                    then codes "720"
                    else (if leb_ℤ (pos 480) shorter then codes "480" else [])))))

module _ (u : Unicode) where
  pub codec_tags : Text → List Text
  codec_tags codec =
      if is_empty codec || eq_text codec (codes "unknown")
      then []
      else (codes "codec:" ++ codec) ∷ []

  pub resolution_tags : Text → List Text
  resolution_tags bucket = if is_empty bucket then [] else (codes "resolution:" ++ bucket) ∷ []

  pub technical_tags : Text → ℤ → ℤ → List Text
  technical_tags codec w h =
      codec_tags (normalize u codec) ++ resolution_tags (resolution_bucket w h)

pub edit_distance_limit : ℕ → ℕ
edit_distance_limit n = if leb 6 n then 2 else if leb 3 n then 1 else 0
