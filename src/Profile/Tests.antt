-- ===== src/Profile/Tests.antt =====
-- The directory of an id that tries to leave the profiles.
use scrub_tub.Base.{◌≡◌, refl, false, elem, codes, contains}
use scrub_tub.Profile.{remove_unit, remove_dots, clean_id, join_profile}
use scrub_tub.Profile.Confined.{clean_id-confined}

program : Unit {0}
unfolding remove_unit remove_dots clean_id join_profile
program = tt

confined : join_profile (codes "/home") (codes "./../a/b") ≡ codes "/home/profiles/.ab"
unfolding program
confined = refl

clean_id-confined_example :
    (elem 47 (clean_id (codes "./../a")) ≡ false)
    × ((elem 92 (clean_id (codes "./../a")) ≡ false)
        × (contains (clean_id (codes "./../a")) (codes "..") ≡ false))
clean_id-confined_example = clean_id-confined (codes "./../a")
