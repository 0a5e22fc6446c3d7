-- ===== src/Catalogue/Scan/Reconcile.antt =====
-- src/catalogue/Catalogue.cpp: the rows of `videos` behind a whole scan.
use scrub_tub.Base.{
  ℕ, ◌+◌, ◌≡◌, refl, sym, subst, ◌∙◌, ap, Bool, true, ◌||◌, Option, none, some, List, [], ◌∷◌, ◌++◌,
  arith, if◌then◌else◌, Distinct, inl, inr, Bool-cases, Text, eq_text, eq_text→eq, leb, length,
}
use scrub_tub.Catalogue.{Entry, find_row, video_ids}
use scrub_tub.Catalogue.Scan.{
  File, Batch, Context, Pass, key_of, scan_file, scan_files, scan_batch, scan_batches, ask,
  flush_rows, commit_if_due,
}
use scrub_tub.Catalogue.Scan.Files.{
  Shows, AreFresh, file_videos, scan_file-videos, file_videos-Distinct, file_videos-own,
  file_videos-other, Retains, Retains-refl, Retains-trans, file_videos-Retains,
}

-- The last file of the list that has this key.
abbrev pub last_file : Context → Text → List File → Option File
last_file c key [] = none
last_file c key (f ∷ fs) = elim (last_file c key fs) [
  | none ↦ if eq_text (key_of c f) key then some f else none
  | some g ↦ some g
]

abbrev pub videos_of : Context → List File → List Entry → List Entry
videos_of c [] vs = vs
videos_of c (f ∷ fs) vs = videos_of c fs (file_videos c f vs)

scan_files-videos :
    (c : Context) (fs : List File) (p : Pass)
    → (scan_files c fs p).state.videos ≡ videos_of c fs p.state.videos
unfolding scan_files
scan_files-videos c [] p = refl
scan_files-videos c (f ∷ fs) p =
    scan_files-videos c fs (scan_file c f p) ∙ ap (videos_of c fs) (scan_file-videos c f p)

videos_of-Distinct :
    (c : Context) (fs : List File) (vs : List Entry)
    → AreFresh c.ids
    → Distinct (video_ids vs)
    → Distinct (video_ids (videos_of c fs vs))
videos_of-Distinct c [] vs h d = d
videos_of-Distinct c (f ∷ fs) vs h d =
    videos_of-Distinct c fs (file_videos c f vs) h (file_videos-Distinct c f vs h d)

-- The row shows the last file of the key; it is the old one where there is none.
abbrev pub Reconciled : ℕ → Option File → Option Entry → Option Entry → Type 0
Reconciled g none old new = new ≡ old
Reconciled g (some f) old new = Shows g f new

extend_last :
    (c : Context) (f : File) (key : Text) (o : Option File) (vs : List Entry) (new : Option Entry)
    → Distinct (video_ids vs)
    → Reconciled c.generation o (find_row c.root_id key (file_videos c f vs)) new
    → Reconciled c.generation
        (elim o [ none ↦ if eq_text (key_of c f) key then some f else none | some g ↦ some g ])
        (find_row c.root_id key vs)
        new
extend_last c f key none vs new d h = elim (Bool-cases (eq_text (key_of c f) key)) [
  | inl e ↦ rw e (
      subst (Shows c.generation f)
        (ap (λ k. find_row c.root_id k (file_videos c f vs)) (eq_text→eq (key_of c f) key e)
          ∙ sym h)
        (file_videos-own c f vs d))
  | inr e ↦ rw e (h ∙ file_videos-other c f vs c.root_id key d (ground (arith, e)))
]
extend_last c f key (some g) vs new d h = h

pub videos_of-Reconciled :
    (c : Context) (key : Text) (fs : List File) (vs : List Entry)
    → AreFresh c.ids
    → Distinct (video_ids vs)
    → Reconciled c.generation
        (last_file c key fs)
        (find_row c.root_id key vs)
        (find_row c.root_id key (videos_of c fs vs))
videos_of-Reconciled c key [] vs h d = refl
videos_of-Reconciled c key (f ∷ fs) vs h d =
    extend_last c f key (last_file c key fs) vs
      (find_row c.root_id key (videos_of c fs (file_videos c f vs))) d
      (videos_of-Reconciled c key fs (file_videos c f vs) h (file_videos-Distinct c f vs h d))

pub videos_of-Retains :
    (c : Context) (root : ℕ) (key : Text) (fs : List File) (vs : List Entry)
    → AreFresh c.ids
    → Distinct (video_ids vs)
    → Retains (find_row root key vs) (find_row root key (videos_of c fs vs))
videos_of-Retains c root key [] vs h d = Retains-refl (find_row root key vs)
videos_of-Retains c root key (f ∷ fs) vs h d =
    Retains-trans (find_row root key vs) (find_row root key (file_videos c f vs))
      (find_row root key (videos_of c fs (file_videos c f vs)))
      (file_videos-Retains c f vs root key d)
      (videos_of-Retains c root key fs (file_videos c f vs) h (file_videos-Distinct c f vs h d))

-- The batch changes no table: the scan is cancelled, or a transaction is open.
abbrev pub is_dropped : Pass → Bool
is_dropped p = p.state.cancel_requested || p.state.in_transaction

abbrev pub taken_files : Context → List Batch → Pass → List File
taken_files c [] p = []
taken_files c (b ∷ bs) p =
    (if is_dropped (ask b p) then [] else b.files) ++ taken_files c bs (scan_batch c b (ask b p))

pub flush_rows-videos : (p : Pass) → (flush_rows p).state.videos ≡ p.state.videos
unfolding flush_rows
flush_rows-videos p = ground arith

commit_if_due-videos : (n : ℕ) (p : Pass) → (commit_if_due n p).state.videos ≡ p.state.videos
unfolding commit_if_due
commit_if_due-videos n p = elim (Bool-cases (leb 250 p.rows_since_commit || leb 100 n)) [
  | inl e ↦ rw (e, flush_rows-videos) refl
  | inr e ↦ rw e refl
]

scan_batch-videos :
    (c : Context) (b : Batch) (p : Pass)
    → (scan_batch c b p).state.videos
      ≡ videos_of c (if is_dropped p then [] else b.files) p.state.videos
unfolding scan_batch
scan_batch-videos c b p = elim (Bool-cases p.state.cancel_requested) [
  | inl e ↦ ground (arith, e)
  | inr e ↦ elim (Bool-cases p.state.in_transaction) [
    | inl t ↦ ground (arith, e, t)
    | inr t ↦
        let q = record p {
          state = record p.state {
            discovered = p.state.discovered + length b.files;
            in_transaction = true;
          };
        } in
        ground (
          arith,
          e,
          t,
          commit_if_due-videos b.elapsed (scan_files c b.files q),
          scan_files-videos c b.files q,
        )
  ]
]

videos_of-append :
    (c : Context) (fs gs : List File) (vs : List Entry)
    → videos_of c (fs ++ gs) vs ≡ videos_of c gs (videos_of c fs vs)
videos_of-append c [] gs vs = refl
videos_of-append c (f ∷ fs) gs vs = videos_of-append c fs gs (file_videos c f vs)

ask-videos : (b : Batch) (p : Pass) → (ask b p).state.videos ≡ p.state.videos
ask-videos b p = ground arith

pub scan_batches-videos :
    (c : Context) (bs : List Batch) (p : Pass)
    → (scan_batches c bs p).state.videos ≡ videos_of c (taken_files c bs p) p.state.videos
unfolding scan_batches
scan_batches-videos c [] p = refl
scan_batches-videos c (b ∷ bs) p =
    let q = ask b p in
    let fs : List File = if is_dropped q then [] else b.files in
    let rest = taken_files c bs (scan_batch c b q) in
    scan_batches-videos c bs (scan_batch c b q)
    ∙ ap (videos_of c rest) (scan_batch-videos c b q ∙ ap (videos_of c fs) (ask-videos b p))
    ∙ sym (videos_of-append c fs rest p.state.videos)
