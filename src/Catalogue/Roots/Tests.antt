-- ===== src/Catalogue/Roots/Tests.antt =====
-- src/catalogue/Catalogue.cpp: the roots of a concrete catalogue.
use scrub_tub.Base.{List, ◌∷◌, [], ◌≡◌, refl, true, false, none, codes}
use scrub_tub.Catalogue.Fixtures.{counting, idle}
use scrub_tub.Catalogue.Scan.{Enumeration}
use scrub_tub.Catalogue.Scan.Roots.{root_keys}
use scrub_tub.Catalogue.Roots.{FileInfo, is_nested}
use scrub_tub.Catalogue.Roots.Disjoint.{IsDisjoint}
use scrub_tub.Catalogue.Roots.History.{
  RootChange, added, removed, change_roots, change_roots-IsDisjoint,
}

abbrev clips : FileInfo
clips = record {
  path = codes "/clips";
  absolute = codes "/clips";
  is_directory = true;
  is_link = false;
}

abbrev nothing_found : Enumeration
nothing_found = record { batches = []; is_completed = true; issues = 0; now = 9 }

-- A folder is added, and the first one removed.
abbrev changes : List RootChange
changes = added clips false none nothing_found ∷ removed 1 none true ∷ []

change_roots-IsDisjoint_example :
    IsDisjoint (root_keys (change_roots counting (λ rows. rows) changes idle).roots)
change_roots-IsDisjoint_example =
    change_roots-IsDisjoint counting (λ rows. rows) changes idle refl ((tt, tt), (refl, tt))

-- A folder below a root is rejected, one beside it with the same beginning is not.
nested : is_nested (codes "/films") (codes "/films/old") ≡ true
nested = refl

beside : is_nested (codes "/films") (codes "/films2") ≡ false
beside = refl

-- A root whose path ends in a slash is not seen to hold a folder below it.
missed : is_nested (codes "/") (codes "/home") ≡ false
missed = refl
