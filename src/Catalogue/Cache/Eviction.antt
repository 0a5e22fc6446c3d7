-- ===== src/Catalogue/Cache/Eviction.antt =====
-- src/catalogue/Catalogue.cpp: what the enforcement of the cache's limit leaves (enforceCacheLimit).
use scrub_tub.Base.{
  ℕ, zero, suc, ◌+◌, ◌<◌, ◌≡◌, ◌⊎◌, refl, sym, ap, subst, ◌∙◌, Bool, true, false, not, none, some,
  List, [], ◌∷◌, ltb, if◌then◌else◌, any, keep_if, length, length-keep_if-le, arith, Bool-cases,
  inl, inr, Option-cases, ℤ, pos, ◌-ℤ◌, ◌≤ℤ◌, leb_ℤ, eq_text_refl, eq_text_comm,
}
use scrub_tub.Catalogue.{State, CacheEntry}
use scrub_tub.Catalogue.Cache.{
  total_bytes, oldest, is_entry, delete_entry, evict, counter, evict_loop, known_bytes,
  enforce_cache_limit, purge_cache_for_videos,
}

-- No two entries have the same video and profile.
abbrev pub DistinctEntries : List CacheEntry → Type 0
DistinctEntries [] = Unit {0}
DistinctEntries (c ∷ cs) = (any (is_entry c) cs ≡ false) × DistinctEntries cs

delete_entry-absent :
    (c : CacheEntry) (cs : List CacheEntry) → any (is_entry c) cs ≡ false → delete_entry c cs ≡ cs
delete_entry-absent c [] h = refl
delete_entry-absent c (d ∷ cs) h = ground (arith, delete_entry-absent c cs)

-- Whether an entry is in the list.
abbrev Holds : CacheEntry → List CacheEntry → Type 0
Holds c [] = ⊥
Holds c (d ∷ cs) = (c ≡ d) ⊎ Holds c cs

oldest-Holds : (cs : List CacheEntry) (c : CacheEntry) → oldest cs ≡ some c → Holds c cs
oldest-Holds [] c h = cc
oldest-Holds (d ∷ cs) c h = elim (Option-cases (oldest cs)) [
  | inl e ↦ inl (ground (arith, e))
  | inr (m, e) ↦ elim (Bool-cases (ltb m.last_access_ms d.last_access_ms)) [
    | inl t ↦ inr (oldest-Holds cs c (ground (arith, e, t)))
    | inr t ↦ inl (ground (arith, e, t))
  ]
]

Holds-is_entry :
    (c d : CacheEntry) (cs : List CacheEntry)
    → Holds c cs
    → is_entry d c ≡ true
    → any (is_entry d) cs ≡ true
Holds-is_entry c d [] h e = elim h [ ]
Holds-is_entry c d (x ∷ cs) (inl h) e = ground (arith, subst (λ y. is_entry d y ≡ true) h e)
Holds-is_entry c d (x ∷ cs) (inr h) e = ground (arith, Holds-is_entry c d cs h e)

is_entry_refl : (c : CacheEntry) → is_entry c c ≡ true
is_entry_refl c = ground (arith, eq_text_refl c.profile)

is_entry_comm : (c d : CacheEntry) → is_entry c d ≡ is_entry d c
is_entry_comm c d = ground (arith, eq_text_comm c.profile d.profile)

-- The deletion takes the bytes of one entry away.
delete_entry-total :
    (c : CacheEntry) (cs : List CacheEntry)
    → DistinctEntries cs
    → Holds c cs
    → total_bytes (delete_entry c cs) + c.bytes ≡ total_bytes cs
delete_entry-total c [] d h = elim h [ ]
delete_entry-total c (x ∷ cs) d (inl h) =
    subst (λ y. total_bytes (delete_entry y (x ∷ cs)) + y.bytes ≡ total_bytes (x ∷ cs)) (sym h)
      (ground (arith, is_entry_refl x, delete_entry-absent x cs d.0))
delete_entry-total c (x ∷ cs) d (inr h) =
    let other : is_entry c x ≡ false = elim (Bool-cases (is_entry x c)) [
      | inl e ↦ absurd (ground (arith, Holds-is_entry c x cs h e, d.0))
      | inr e ↦ is_entry_comm c x ∙ e
    ] in
    ground (arith, other, delete_entry-total c cs d.1 h)

any-keep_if :
    (p q : CacheEntry → Bool) (cs : List CacheEntry)
    → any p cs ≡ false
    → any p (keep_if q cs) ≡ false
any-keep_if p q [] h = refl
any-keep_if p q (c ∷ cs) h = ground (arith, any-keep_if p q cs)

keep_if-DistinctEntries :
    (q : CacheEntry → Bool) (cs : List CacheEntry)
    → DistinctEntries cs
    → DistinctEntries (keep_if q cs)
keep_if-DistinctEntries q [] d = tt
keep_if-DistinctEntries q (c ∷ cs) d = elim (Bool-cases (q c)) [
  | inl e ↦ rw e (any-keep_if (is_entry c) q cs d.0, keep_if-DistinctEntries q cs d.1)
  | inr e ↦ rw e (keep_if-DistinctEntries q cs d.1)
]

delete_entry-shorter :
    (c : CacheEntry) (cs : List CacheEntry) → Holds c cs → length (delete_entry c cs) < length cs
delete_entry-shorter c [] h = elim h [ ]
delete_entry-shorter c (x ∷ cs) (inl h) =
    subst (λ y. length (delete_entry y (x ∷ cs)) < length (x ∷ cs)) (sym h)
      (ground (arith, is_entry_refl x, length-keep_if-le (λ d. not (is_entry x d)) cs))
delete_entry-shorter c (x ∷ cs) (inr h) =
    ground (arith, delete_entry-shorter c cs h, length-keep_if-le (λ d. not (is_entry c d)) cs)

-- The counter is unknown, or it says the bytes of the entries.
abbrev pub IsCounted : State → Type 0
IsCounted s = known_bytes s ≡ total_bytes s.cache

-- The counter says the bytes of the entries, and these are within the limit.
abbrev pub IsWithinLimit : State → Type 0
IsWithinLimit s =
    (s.cache_bytes ≡ some (total_bytes s.cache)) × (pos (total_bytes s.cache) ≤ℤ s.cache_limit)

take_away : (a b c : ℕ) → a + b ≡ c → pos c -ℤ pos b ≡ pos a
take_away a b c h = ground arith

no_bytes : (cs : List CacheEntry) → oldest cs ≡ none → total_bytes cs ≡ 0
no_bytes [] h = refl
no_bytes (c ∷ cs) h = absurd (ground arith)

if-IsWithinLimit :
    (t : Bool) (a b : State)
    → (t ≡ true → IsWithinLimit a)
    → IsWithinLimit b
    → IsWithinLimit (if t then a else b)
if-IsWithinLimit true a b f k = f refl
if-IsWithinLimit false a b f k = k

evict_loop-next :
    (n : ℕ) (total : ℤ) (s : State) (c : CacheEntry)
    → leb_ℤ total s.cache_limit ≡ false
    → oldest s.cache ≡ some c
    → evict_loop (suc n) total s ≡ evict_loop n (total -ℤ pos c.bytes) (evict c s)
unfolding evict_loop
evict_loop-next n total s c e o = ground (arith, e, o)

evict_loop-stop :
    (n : ℕ) (total : ℤ) (s : State)
    → leb_ℤ total s.cache_limit ≡ true
    → evict_loop (suc n) total s ≡ record s { cache_bytes = counter total }
unfolding evict_loop
evict_loop-stop n total s e = ground (arith, e)

evict_loop-IsWithinLimit :
    (n : ℕ) (s : State)
    → length s.cache < n
    → DistinctEntries s.cache
    → pos 0 ≤ℤ s.cache_limit
    → IsWithinLimit (evict_loop n (pos (total_bytes s.cache)) s)
evict_loop-IsWithinLimit zero s h d l = absurd (omega arith)
evict_loop-IsWithinLimit (suc n) s h d l =
    elim (Bool-cases (leb_ℤ (pos (total_bytes s.cache)) s.cache_limit)) [
      | inl e ↦
          subst IsWithinLimit (sym (evict_loop-stop n (pos (total_bytes s.cache)) s e))
            (refl, ground arith)
      | inr e ↦ elim (Option-cases (oldest s.cache)) [
        | inl o ↦ absurd (ground (arith, e, no_bytes s.cache o))
        | inr (c, o) ↦
            let k = oldest-Holds s.cache c o in
            let left =
              take_away (total_bytes (delete_entry c s.cache)) c.bytes (total_bytes s.cache)
                (delete_entry-total c s.cache d k) in
            subst IsWithinLimit
              (sym (
                evict_loop-next n (pos (total_bytes s.cache)) s c e o
                ∙ ap (λ z. evict_loop n z (evict c s)) left))
              (evict_loop-IsWithinLimit n (evict c s)
                (omega (arith, delete_entry-shorter c s.cache k))
                (keep_if-DistinctEntries (λ x. not (is_entry c x)) s.cache d) l)
      ]
    ]

-- Let no two entries of the cache share their video and profile, let the counter be unknown or right,
-- and the limit not negative. Then the enforcement of the limit leaves entries whose bytes are within
-- the limit, and a counter that says these bytes.
pub enforce_cache_limit-IsWithinLimit :
    (s : State)
    → DistinctEntries s.cache
    → IsCounted s
    → pos 0 ≤ℤ s.cache_limit
    → IsWithinLimit (enforce_cache_limit s)
unfolding enforce_cache_limit
enforce_cache_limit-IsWithinLimit s d c l =
    let t = record s { cache_bytes = some (total_bytes s.cache) } in
    rw c (
      if-IsWithinLimit (leb_ℤ (pos (total_bytes s.cache)) s.cache_limit) t
        (evict_loop (suc (length s.cache)) (pos (total_bytes s.cache)) t)
        (λ e. (refl, ground arith))
        (evict_loop-IsWithinLimit (suc (length s.cache)) t (omega arith) d l))

evict_loop-videos : (n : ℕ) (total : ℤ) (s : State) → (evict_loop n total s).videos ≡ s.videos
unfolding evict_loop
evict_loop-videos zero total s = refl
evict_loop-videos (suc n) total s = elim (Bool-cases (leb_ℤ total s.cache_limit)) [
  | inl e ↦ ground (arith, e)
  | inr e ↦ elim (Option-cases (oldest s.cache)) [
    | inl o ↦ ground (arith, e, o)
    | inr (c, o) ↦ ground (arith, e, o, evict_loop-videos n (total -ℤ pos c.bytes) (evict c s))
  ]
]

pub enforce_cache_limit-videos : (s : State) → (enforce_cache_limit s).videos ≡ s.videos
unfolding enforce_cache_limit
enforce_cache_limit-videos s =
    let t = record s { cache_bytes = some (known_bytes s) } in
    ground (arith, evict_loop-videos (suc (length s.cache)) (pos (known_bytes s)) t)

pub purge_cache_for_videos-roots :
    (ids : List ℕ) (s : State) → (purge_cache_for_videos ids s).roots ≡ s.roots
unfolding purge_cache_for_videos
purge_cache_for_videos-roots ids s = refl
