-- ===== src/Profile.antt =====
-- src/app/ProfilePaths.cpp: the directories of a profile.
pub mod Confined
mod Tests
use scrub_tub.Base.{
  ℕ, Bool, true, false, ◌&&◌, not, List, [], ◌∷◌, ◌++◌, ◌==◌, if◌then◌else◌, keep_if, Text, codes,
}

-- `clean.remove(c)`
pub remove_unit : ℕ → Text → Text
remove_unit c t = keep_if (λ x. not (x == c)) t

-- `clean.remove("..")` from the left; `held` says that a dot was read and not yet given out.
pub remove_dots : Bool → Text → Text
remove_dots held [] = if held then 46 ∷ [] else []
remove_dots held (c ∷ cs) =
    let rest = remove_dots (c == 46 && not held) cs in
    let kept = if c == 46 then rest else c ∷ rest in
    if held && not (c == 46) then 46 ∷ kept else kept

-- What is left of a profile's id.
pub clean_id : Text → Text
clean_id id = remove_dots false (remove_unit 92 (remove_unit 47 id))

pub join_profile : Text → Text → Text
join_profile base id = (base ++ codes "/profiles/") ++ clean_id id

-- The directories that Qt gives, and whether a directory exists, are parameters.
pub profile_data_dir : (Text → Bool) → Text → Text → Text → Text
profile_data_dir exists base generic id =
    let legacy = generic ++ codes "/itub-project/itub" in
    if not (exists base) && exists legacy then join_profile legacy id else join_profile base id

pub profile_cache_dir : Text → Text → Text
profile_cache_dir base id = join_profile (base ++ codes "/scrubtub") id
