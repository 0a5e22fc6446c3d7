-- ===== src/Catalogue/Cache.antt =====
-- src/catalogue/Catalogue.cpp and src/catalogue/CatalogueM4.cpp: the limit of the preview cache
-- (enforceCacheLimit) and its controls.
pub mod Eviction
pub mod Tests
use scrub_tub.Base.{
  ℕ, zero, suc, ◌+◌, Bool, true, false, ◌&&◌, not, Option, none, some, List, [], ◌∷◌, ◌++◌, map,
  ◌==◌, ltb, if◌then◌else◌, elem, keep_if, length, ℤ, pos, negsuc, ◌-ℤ◌, leb_ℤ, eq_text,
}
use scrub_tub.Catalogue.{State, CacheEntry, Signal, emits}

-- `SELECT COALESCE(SUM(bytes),0) FROM cache_entries`
abbrev pub total_bytes : List CacheEntry → ℕ
total_bytes [] = 0
total_bytes (c ∷ cs) = c.bytes + total_bytes cs

-- `ORDER BY last_access_ms ASC LIMIT 1`
abbrev pub oldest : List CacheEntry → Option CacheEntry
oldest [] = none
oldest (c ∷ cs) = elim (oldest cs) [
  | none ↦ some c
  | some d ↦ if ltb d.last_access_ms c.last_access_ms then some d else some c
]

abbrev pub is_entry : CacheEntry → CacheEntry → Bool
is_entry c d = d.video_id == c.video_id && eq_text d.profile c.profile

-- `DELETE FROM cache_entries WHERE video_id=? AND profile=?`
abbrev pub delete_entry : CacheEntry → List CacheEntry → List CacheEntry
delete_entry c cs = keep_if (λ d. not (is_entry c d)) cs

abbrev pub evict : CacheEntry → State → State
evict c s = record s {
  removed_files = s.removed_files ++ c.rel_path ∷ [];
  cache = delete_entry c s.cache;
}

-- A negative number stands for "unknown" in `m_cacheBytes`.
abbrev pub counter : ℤ → Option ℕ
counter (pos n) = some n
counter (negsuc n) = none

-- The loop, on fuel; where no entry is left it returns before it stores the total.
pub evict_loop : ℕ → ℤ → State → State
evict_loop zero total s = s
evict_loop (suc n) total s = elim (leb_ℤ total s.cache_limit) [
  | true ↦ record s { cache_bytes = counter total }
  | false ↦ elim (oldest s.cache) [
    | none ↦ s
    | some c ↦ evict_loop n (total -ℤ pos c.bytes) (evict c s)
  ]
]

abbrev pub known_bytes : State → ℕ
known_bytes s = elim s.cache_bytes [ none ↦ total_bytes s.cache | some n ↦ n ]

-- `enforceCacheLimit`, where `cache_limit` is what the settings say.
pub enforce_cache_limit : State → State
enforce_cache_limit s =
    let total = known_bytes s in
    let t = record s { cache_bytes = some total } in
    if leb_ℤ (pos total) s.cache_limit then t else evict_loop (suc (length s.cache)) (pos total) t

-- The rows of the videos, and their files.
pub purge_cache_for_videos : List ℕ → State → State
purge_cache_for_videos ids s =
    let dropped = keep_if (λ c. elem c.video_id ids) s.cache in
    record s {
      cache = keep_if (λ c. not (elem c.video_id ids)) s.cache;
      removed_files = s.removed_files ++ map CacheEntry.rel_path dropped;
      cache_bytes = elim dropped [ [] ↦ s.cache_bytes | c ∷ cs ↦ none ];
    }

pub request_cache_usage : State → State
request_cache_usage s =
    emits (Signal.cache_usage_ready (total_bytes s.cache))
      (record s { cache_bytes = some (total_bytes s.cache) })

-- The part of `clearPreviews` before the reload of the rows.
pub empty_cache : State → State
empty_cache s = emits (Signal.rows_changed [] true) (record s {
  sparse_pass_queued = false;
  removed_files = s.removed_files ++ map CacheEntry.rel_path s.cache;
  cache = [];
  cache_bytes = some 0;
})
