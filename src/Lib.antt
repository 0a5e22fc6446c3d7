-- ===== src/Lib.antt =====
-- Verification library of ScrubTub, a desktop catalogue for videos (C++, Qt, SQLite). Paths are
-- from the repository's root.
--
-- The program. The catalogue (src/catalogue) keeps the videos of the chosen folders in a database and
-- answers searches on a thread of its own; the list model of the interface receives its rows and
-- pages; the hover session (src/media) drives one mpv process that decodes frames while the pointer
-- scrubs over a card. The interface sets the order of the list from the ids of a search, asks for the
-- rows that it lacks page by page, and engages, scrubs and leaves a hover session.
--
-- The parts and their files.
--   Row       src/catalogue/VideoRow.h: the row, root and progress records.
--   Model     src/catalogue/CatalogueModel.{h,cpp}: the order, the rows, the index of positions and
--             the pages of details under request (applyRows, setOrder, requestMissingDetails,
--             applyPage). A queued or immediate answer of the catalogue is a function that is passed
--             in; the loop over immediate answers runs on fuel, and Model/Paging/Rounds shows that
--             the fuel given is enough.
--   Hover     src/media/HoverSession.{h,cpp}: every call, timer and socket callback as a function of
--             the session, and a history as a list of events. Hover/Invariant has the invariant,
--             Hover/Steps and Hover/History keep it through every event, Hover/Control is about
--             the targets, and Hover/Left about what comes in after a source was left.
--   Tags      src/catalogue/TagEngine.{h,cpp}: tokens, tags of names and folders, technical tags,
--             resolution buckets and the typo budget.
--   Search    src/catalogue/CatalogueM3.cpp: the snapshots of a search, the matching of a query
--             (matchTokens) and the order of the hits.
--   Query     src/catalogue/CatalogueM3.cpp: the filters as conditions on rows (whereForFilters and
--             the tag filters) and the whole search (Query/Scan). Query/Scan/Admitted says what the
--             filters and the validation mean without the conditions.
--   TagStore  src/catalogue/CatalogueM3.cpp: the transactions on tags (applyAutoTags, addManualTag,
--             removeTag, suppressAutoTag, resetSuppressions).
--   Catalogue src/catalogue/Catalogue.{h,cpp}: the tables, counters and flags of the catalogue's thread
--             with the SQL that is shared. Catalogue/Scan has the rescan of a root, over the batches
--             of the scanner as an argument; Catalogue/Jobs the dispatch of queued jobs, whose loop
--             runs on one round more than there are queued jobs, which Jobs/Progress shows to be
--             enough; Catalogue/Finish the results of the workers; Catalogue/Cache the limit of the
--             preview cache, whose loop runs on one round more than there are entries;
--             Catalogue/Roots the folders; Catalogue/Session ratings, views, the trash and the start
--             of a session (also in src/catalogue/CatalogueM4.cpp).
--   Scanner   src/catalogue/SourceScanner.{h,cpp}: the enumeration of a folder, over the tree that the
--             file system shows.
--   Probe     src/media/Probe.{h,cpp}: what ffprobe's report becomes, over the read document.
--   Backup    src/catalogue/CatalogueM4.cpp, src/catalogue/Database.cpp: export and import of a
--             backup, over the contents of a database. A copy or a restore that reports success was
--             made, or its step was refused unseen, since the source does not look at the result
--             of that step.
--   Settings  src/catalogue/CatalogueM4.cpp: the settings that are saved and restored.
--   Extract   src/media/Extract.cpp: the plan of the sample times of a storyboard.
--   Profile   src/app/ProfilePaths.cpp: the directories of a profile.
--   Base      what the parts share: native numbers, integers, texts as lists of UTF-16 units, lists.
--
-- How code becomes definitions. A member function is a function from the state to the state, its
-- guards in the order of the code; an emitted signal is an element of a list in the state. A timer is
-- whether it runs. -1 for "no request" is `none`. SQL is evaluated on lists of rows, where a test of
-- NULL does not hold. Machine integers are unbounded here: the identifiers, lengths and durations of
-- the program do not come near 2^63.
--
-- Parameters. Qt's character tables, normal forms and conversions, the edit distance of rapidfuzz, the
-- row ids that SQLite gives, the order of texts, and what the platform answers to a write, a clock or
-- a file are arguments of the definitions; what a theorem relies on of them is one of its
-- hypotheses.
--
-- How the parts interact. The scanner's batches are what a rescan reads; a rescan and the load of a
-- session queue jobs, the dispatch hands them to workers, and the end of a job writes its result, may
-- evict cached previews and dispatches again. The calls of the catalogue to the search index and to
-- the tag store are noted in its list of signals.
--
-- Not modelled. The worker threads and the processes of ffmpeg and ffprobe (src/media/Extract.cpp,
-- Probe.cpp), the sweep of cache files without an entry, the SQLite wrapper
-- (src/catalogue/Database.cpp, but for its copies), the forwarding proxy (CatalogueProxy.cpp), image
-- providers and the interface in QML.
pub mod Base
pub mod Row
pub mod Backup
pub mod Catalogue
pub mod Extract
pub mod Hover
pub mod Model
pub mod Probe
pub mod Profile
pub mod Query
pub mod Scanner
pub mod Search
pub mod Settings
pub mod TagStore
pub mod Tags
