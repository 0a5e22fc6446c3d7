-- ===== src/Catalogue/Cache/Tests.antt =====
-- src/catalogue/Catalogue.cpp: the limit of the cache at a concrete catalogue.
use scrub_tub.Base.{ℕ, refl, [], ◌∷◌, codes, arith}
use scrub_tub.Catalogue.{State, CacheEntry, Kind, poster_profile}
use scrub_tub.Catalogue.Fixtures.{idle}
use scrub_tub.Catalogue.Cache.{enforce_cache_limit}
use scrub_tub.Catalogue.Cache.Eviction.{IsWithinLimit, enforce_cache_limit-IsWithinLimit}

abbrev poster_entry : ℕ → ℕ → CacheEntry
poster_entry video accessed = record {
  video_id = video;
  revision = 1;
  profile = poster_profile;
  kind = Kind.poster;
  rel_path = codes "x.jpg";
  bytes = 60;
  sample_times = [];
  last_access_ms = accessed;
}

-- 120 bytes where 100 are allowed.
abbrev full : State
full = record idle { cache = poster_entry 1 5 ∷ poster_entry 2 3 ∷ [] }

enforce_cache_limit-IsWithinLimit_example : IsWithinLimit (enforce_cache_limit full)
enforce_cache_limit-IsWithinLimit_example =
    enforce_cache_limit-IsWithinLimit full (refl, (refl, tt)) refl (omega arith)
