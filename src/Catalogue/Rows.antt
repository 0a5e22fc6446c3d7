-- ===== src/Catalogue/Rows.antt =====
-- src/catalogue/Catalogue.cpp: what the UPDATE and INSERT statements on `videos` do to the row that a
-- later SELECT finds under a key.
use scrub_tub.Base.{
  ℕ, ◌≡◌, refl, sym, subst, ◌∙◌, Bool, true, false, ◌&&◌, none, some, List, [], ◌∷◌, ◌++◌, arith,
  ◌==◌, if◌then◌else◌, elem, Distinct, elem-append_one, inl, inr, Bool-cases, Text, eq_text,
  eq_text→eq,
}
use scrub_tub.Catalogue.{Entry, find_row, update_video, video_ids}

abbrev pub is_at : ℕ → Text → Entry → Bool
is_at root key v = v.root_id == root && eq_text v.cmp_key key

-- What an UPDATE that sets neither keeps.
pub record Keeps (f : Entry → Entry) : Type 0 where
  pub same_id : (v : Entry) → (f v).id ≡ v.id
  pub same_root : (v : Entry) → (f v).root_id ≡ v.root_id
  pub same_key : (v : Entry) → (f v).cmp_key ≡ v.cmp_key

pub video_ids-update_video :
    (id : ℕ) (f : Entry → Entry) (vs : List Entry)
    → Keeps f
    → video_ids (update_video id f vs) ≡ video_ids vs
video_ids-update_video id f [] k = refl
video_ids-update_video id f (v ∷ vs) k =
    ground (arith, video_ids-update_video id f vs k, k.same_id v)

pub update_video-unused :
    (id : ℕ) (f : Entry → Entry) (vs : List Entry)
    → elem id (video_ids vs) ≡ false
    → update_video id f vs ≡ vs
update_video-unused id f [] h = refl
update_video-unused id f (v ∷ vs) h = ground (arith, update_video-unused id f vs)

is_at-Keeps :
    (root : ℕ) (key : Text) (f : Entry → Entry) (v : Entry)
    → Keeps f
    → is_at root key (f v) ≡ is_at root key v
is_at-Keeps root key f v k = rw (k.same_root v, k.same_key v) refl

-- A row that is found has its key and its id.
pub find_row-is_at :
    (root : ℕ) (key : Text) (vs : List Entry) (v : Entry)
    → find_row root key vs ≡ some v
    → is_at root key v ≡ true
find_row-is_at root key [] v h = cc
find_row-is_at root key (u ∷ vs) v h = elim (Bool-cases (is_at root key u)) [
  | inl e ↦ ground (arith, e)
  | inr e ↦ ground (arith, e, find_row-is_at root key vs v)
]

pub find_row-elem :
    (root : ℕ) (key : Text) (vs : List Entry) (v : Entry)
    → find_row root key vs ≡ some v
    → elem v.id (video_ids vs) ≡ true
find_row-elem root key [] v h = cc
find_row-elem root key (u ∷ vs) v h = elim (Bool-cases (is_at root key u)) [
  | inl e ↦ ground (arith, e)
  | inr e ↦ ground (arith, e, find_row-elem root key vs v)
]

-- The row of a key, behind an update of this row.
pub find_row-update_same :
    (root : ℕ) (key : Text) (f : Entry → Entry) (vs : List Entry) (v : Entry)
    → Keeps f
    → Distinct (video_ids vs)
    → find_row root key vs ≡ some v
    → find_row root key (update_video v.id f vs) ≡ some (f v)
find_row-update_same root key f [] v k d h = cc
find_row-update_same root key f (u ∷ vs) v k d h = elim (Bool-cases (is_at root key u)) [
  | inl e ↦ ground (arith, e, is_at-Keeps root key f u k)
  | inr e ↦
      ground (arith, e, find_row-update_same root key f vs v k d.1, find_row-elem root key vs v)
]

-- An update of another key's row changes nothing.
pub find_row-update_other :
    (root : ℕ) (key : Text) (root' : ℕ) (key' : Text) (f : Entry → Entry) (vs : List Entry)
    (v : Entry)
    → Keeps f
    → Distinct (video_ids vs)
    → find_row root key vs ≡ some v
    → is_at root' key' v ≡ false
    → find_row root' key' (update_video v.id f vs) ≡ find_row root' key' vs
find_row-update_other root key root' key' f [] v k d h o = refl
find_row-update_other root key root' key' f (u ∷ vs) v k d h o =
    elim (Bool-cases (is_at root key u)) [
      | inl e ↦ ground (arith, e, is_at-Keeps root' key' f u k, update_video-unused v.id f vs)
      | inr e ↦ ground (
        arith,
        e,
        find_row-update_other root key root' key' f vs v k d.1,
        find_row-elem root key vs v,
      )
    ]

pub find_row-append_one :
    (root : ℕ) (key : Text) (vs : List Entry) (v : Entry)
    → find_row root key (vs ++ v ∷ []) ≡ (elim (find_row root key vs) [
      | none ↦ if is_at root key v then some v else none
      | some u ↦ some u
    ])
find_row-append_one root key [] v = refl
find_row-append_one root key (u ∷ vs) v = ground (arith, find_row-append_one root key vs v)

pub video_ids-append_one :
    (vs : List Entry) (v : Entry) → video_ids (vs ++ v ∷ []) ≡ video_ids vs ++ v.id ∷ []
video_ids-append_one [] v = refl
video_ids-append_one (u ∷ vs) v = ground (arith, video_ids-append_one vs v)

pub append_one-Distinct :
    (l : List ℕ) (x : ℕ) → Distinct l → elem x l ≡ false → Distinct (l ++ x ∷ [])
append_one-Distinct [] x d h = (refl, tt)
append_one-Distinct (y ∷ l) x d h =
    (ground (arith, elem-append_one y l x, d.0), append_one-Distinct l x d.1 (ground arith))

==→eq : (a b : ℕ) → (a == b) ≡ true → a ≡ b
==→eq a b h = ground arith

-- A row is found under any key that it has.
pub find_row-same :
    (root root' : ℕ) (key key' : Text) (vs : List Entry) (v : Entry)
    → find_row root key vs ≡ some v
    → is_at root' key' v ≡ true
    → find_row root' key' vs ≡ some v
find_row-same root root' key key' vs v h k =
    let own = find_row-is_at root key vs v h in
    let same_key =
      sym (eq_text→eq v.cmp_key key (ground arith)) ∙ eq_text→eq v.cmp_key key' (ground arith) in
    subst (λ z. find_row root' z vs ≡ some v) same_key
      (subst (λ z. find_row z key vs ≡ some v)
        (==→eq root root' (ground (arith, ==→eq v.root_id root))) h)
