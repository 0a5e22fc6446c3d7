-- ===== src/Catalogue/Finish/Stale.antt =====
-- src/catalogue/Catalogue.cpp: the rows that the result of a worker leaves alone (finishJob).
use scrub_tub.Base.{
  ℕ, ◌+◌, ◌≡◌, refl, sym, ap, subst, ◌∙◌, Bool, true, false, ◌&&◌, some, List, [], ◌∷◌, ◌==◌,
  if◌then◌else◌, take, arith, Bool-cases, inl, inr, Option-cases,
}
use scrub_tub.Catalogue.{
  State, Entry, Kind, ActiveJob, RowIds, CacheEntry, Signal, emits, emit_row, ProbeStatus, Signal,
  emits, emit_row, Availability, find_video, update_video,
}
use scrub_tub.Catalogue.Jobs.{dispatch_jobs}
use scrub_tub.Catalogue.Jobs.Frame.{dispatch_jobs-videos}
use scrub_tub.Catalogue.Cache.Eviction.{enforce_cache_limit-videos}
use scrub_tub.Probe.{ProbeResult}
use scrub_tub.Catalogue.Finish.{
  ExtractResult, Outcome, probed, extracted, media_of, is_longer, update_revision, queue_missing,
  queue_poster, queue_storyboard, enqueue_preview_jobs, store_probe, failed_status, is_retried,
  fail_probe, apply_probe_result, store_extract, cache_artifact, profile_of, apply_extract_result,
  find_active, remove_active, settle_job, finish_job,
}

module _ (id video revision : ℕ) (v : Entry) (g : Entry → Entry)
    (same_id : (w : Entry) → (g w).id ≡ w.id) where
  abbrev at_revision : Entry → Entry
  at_revision w = if w.revision == revision then g w else w

  update_head :
      (u : Entry) (vs : List Entry)
      → (id == video && u.revision == revision) ≡ false
      → (u.id == id) ≡ true
      → find_video id (update_video video at_revision (u ∷ vs)) ≡ some u
  update_head u vs o e = ground (arith, same_id u)

  update_other :
      (vs : List Entry)
      → (id == video && v.revision == revision) ≡ false
      → find_video id vs ≡ some v
      → find_video id (update_video video at_revision vs) ≡ some v
  update_other [] o h = cc
  update_other (u ∷ vs) o h = elim (Bool-cases (u.id == id)) [
    | inl e ↦
        let q : v ≡ u = ground (arith, e) in
        subst (λ w. find_video id (update_video video at_revision (u ∷ vs)) ≡ some w) (sym q)
          (update_head u vs (subst (λ w. (id == video && w.revision == revision) ≡ false) q o) e)
    | inr e ↦ ground (arith, e, same_id u, update_other vs o)
  ]

-- The jobs and flags behind a probe leave the rows alone.
queue_missing-videos :
    (ids : RowIds) (v : Entry) (kind : Kind) (p : CacheEntry → Bool) (s : State)
    → (queue_missing ids v kind p s).videos ≡ s.videos
queue_missing-videos ids v kind p s = ground arith

queue_poster-videos :
    (ids : RowIds) (v : Entry) (s : State) → (queue_poster ids v s).videos ≡ s.videos
queue_poster-videos ids v s = ground arith

queue_storyboard-videos :
    (ids : RowIds) (t : Bool) (v : Entry) (s : State)
    → (queue_storyboard ids t v s).videos ≡ s.videos
queue_storyboard-videos ids t v s = ground arith

flag_videos :
    (t : Bool) (s : State) → (if t then record s { dispatch_timer = true } else s).videos ≡ s.videos
flag_videos true s = refl
flag_videos false s = refl

enqueue_preview_jobs-videos :
    (ids : RowIds) (video : ℕ) (t : Bool) (s : State)
    → (enqueue_preview_jobs ids video t s).videos ≡ s.videos
unfolding enqueue_preview_jobs
enqueue_preview_jobs-videos ids video t s = elim (Option-cases (find_video video s.videos)) [
  | inl e ↦ ground (arith, e)
  | inr (v, e) ↦
      let q = queue_poster ids v s in
      let r = queue_storyboard ids t v q in
      ground (
        arith,
        e,
        flag_videos (is_longer r s) r,
        queue_storyboard-videos ids t v q,
        queue_poster-videos ids v s,
      )
]

module _ (id : ℕ) (v : Entry) where
  -- The row is still there.
  abbrev Stays : State → State → Type 0
  Stays s t = find_video id s.videos ≡ some v → find_video id t.videos ≡ some v

  same-Stays : (s t : State) → t.videos ≡ s.videos → Stays s t
  same-Stays s t e h = ap (find_video id) e ∙ h

  store_probe-Stays :
      (ids : RowIds) (video revision : ℕ) (r : ProbeResult) (s : State)
      → (id == video && v.revision == revision) ≡ false
      → Stays s (store_probe ids video revision r s)
  unfolding store_probe emit_row
  store_probe-Stays ids video revision r s o h =
      let g = λ (w : Entry). record w {
        probe_status = ProbeStatus.ok;
        availability = Availability.available;
        media = media_of r;
        probe_error = [];
      } in
      let stored = update_revision video revision g s in
      let noted =
        emits (Signal.auto_tags_applied video)
          (emits (Signal.search_record_refreshed video) stored) in
      ap (find_video id) (enqueue_preview_jobs-videos ids video false (emit_row video noted))
      ∙ update_other id video revision v g (λ w. refl) s.videos o h

  fail_probe-Stays :
      (video revision : ℕ) (r : ProbeResult) (s : State)
      → (id == video && v.revision == revision) ≡ false
      → Stays s (fail_probe video revision r s)
  unfolding fail_probe emit_row
  fail_probe-Stays video revision r s o h =
      let g = λ (w : Entry). record w {
        probe_status = failed_status r.fail_kind;
        availability = Availability.unavailable;
        probe_error = take 500 r.error;
      } in
      elim (Bool-cases (is_retried video r s)) [
        | inl e ↦ rw e h
        | inr e ↦ rw e (update_other id video revision v g (λ w. refl) s.videos o h)
      ]

  apply_probe_result-Stays :
      (ids : RowIds) (j : ActiveJob) (r : ProbeResult) (s : State)
      → (id == j.video_id && v.revision == j.revision) ≡ false
      → Stays s (apply_probe_result ids j r s)
  unfolding apply_probe_result
  apply_probe_result-Stays ids j r s o h =
      let counted = record s { probed = s.probed + 1 } in
      let missed = record counted { errors = s.errors + 1 } in
      let good = store_probe-Stays ids j.video_id j.revision r counted o h in
      let bad = fail_probe-Stays j.video_id j.revision r missed o h in ground (arith, good, bad)

  apply_extract_result-videos :
      (j : ActiveJob) (r : ExtractResult) (s : State)
      → (apply_extract_result j r s).videos ≡ s.videos
  unfolding apply_extract_result store_extract emit_row
  apply_extract_result-videos j r s = elim (Bool-cases r.ok) [
    | inl e ↦
        let told =
          emits (Signal.cache_entry_changed j.video_id (profile_of j.kind))
            (cache_artifact j r s) in
        ground (arith, e, enforce_cache_limit-videos (emit_row j.video_id told))
    | inr e ↦ ground (arith, e)
  ]

  settle_job-Stays :
      (ids : RowIds) (j : ActiveJob) (outcome : Outcome) (s : State)
      → (id == j.video_id && v.revision == j.revision) ≡ false
      → Stays s (settle_job ids j outcome s)
  unfolding settle_job
  settle_job-Stays ids j (probed r) s o h = ground (arith, apply_probe_result-Stays ids j r s o h)
  settle_job-Stays ids j (extracted r) s o h =
      ground
        (arith, same-Stays s (apply_extract_result j r s) (apply_extract_result-videos j r s) h)

-- Whatever a worker returns, in whatever state the catalogue is, the end of its job leaves the row of
-- every other video as it was, and also the row of its own video where this has another revision.
pub finish_job-keeps :
    (ids : RowIds) (is_due : Bool) (address : ℕ) (outcome : Outcome) (s : State) (j : ActiveJob)
    (id : ℕ) (v : Entry)
    → find_active address s.active ≡ some j
    → find_video id s.videos ≡ some v
    → (id == j.video_id && v.revision == j.revision) ≡ false
    → find_video id (finish_job ids is_due address outcome s).videos ≡ some v
unfolding finish_job
finish_job-keeps ids is_due address outcome s j id v a h o =
    let without = record s { active = remove_active address s.active } in
    let settled = settle_job ids j outcome without in
    rw (a, finish_job)
      (same-Stays id v settled (dispatch_jobs ids is_due settled)
        (dispatch_jobs-videos ids is_due settled) (settle_job-Stays id v ids j outcome without o h))
