-- ===== src/Model/Paging/Tests.antt =====
-- Runs of the list model, and its theorems at concrete models.
use scrub_tub.Base.{
  ℕ, ◌≤◌, ◌≡◌, refl, Bool, true, false, ◌&&◌, ◌||◌, Option, none, some, List, [], ◌∷◌, arith, ltb,
  ◌==◌, Text, codes, elem, is_some, get_elem?, length,
}
use scrub_tub.Row.{VideoRow, default_row}
use scrub_tub.Model.{
  Model, Signal, init, insert_positions, rebuild_positions, name_of, set_of, set_fetch_callback,
  search_from, lower_bound, insert_sorted, sort, store_rows, reset_rows, ready_for, update_row,
  insert_row, apply_row, apply_each, apply_rows, by_name,
}
use scrub_tub.Model.Invariant.{IsConsistent, update_row-signals, apply_rows-IsConsistent}
use scrub_tub.Model.Reset.{apply_rows-reset, IsSorted}
use scrub_tub.Model.Paging.{
  collect, visible_rows, ids_of, remove_row, settle, remove_absent, apply_reply, fetch_page,
  is_pending, request_loop, request_missing_details, set_order, apply_page, is_missing,
}
use scrub_tub.Model.Paging.Replies.{apply_reply-order, apply_reply-details}
use scrub_tub.Model.Paging.Requests.{collect_page}
use scrub_tub.Model.Paging.Rounds.{
  IsSettled, request_missing_details-IsSettled, set_order-IsConsistent, apply_page-IsConsistent,
}

program : Unit {0}
unfolding insert_positions rebuild_positions name_of set_of set_fetch_callback search_from
    lower_bound insert_sorted sort store_rows reset_rows ready_for update_row insert_row apply_row
    apply_each apply_rows collect visible_rows ids_of remove_row settle remove_absent apply_reply
    fetch_page is_pending request_loop request_missing_details set_order apply_page
program = tt

-- The order of the code units.
abbrev before : Text → Text → Bool
before [] [] = false
before [] (b ∷ bs) = true
before (a ∷ as') [] = false
before (a ∷ as') (b ∷ bs) = ltb a b || (a == b && before as' bs)

before_asym : (a b : Text) → before a b ≡ true → before b a ≡ false
before_asym [] [] h = refl
before_asym [] (b ∷ bs) h = refl
before_asym (a ∷ as') [] h = cc
before_asym (a ∷ as') (b ∷ bs) h = ground (arith, before_asym as' bs)

abbrev alpha : VideoRow
alpha = record default_row { id = 7; file_name = codes "alpha.mp4" }

abbrev beta : VideoRow
beta = record default_row { id = 3; file_name = codes "beta.mp4" }

abbrev gamma : VideoRow
gamma = record default_row { id = 5; file_name = codes "gamma.mp4" }

abbrev queued : List ℕ → ℕ → Option (List VideoRow)
queued page generation = none

loaded : Model
unfolding program
loaded = apply_rows before (gamma ∷ alpha ∷ []) true init

-- The rows are shown by name, and a new one is put in its place.
loaded_order : loaded.order ≡ 7 ∷ 5 ∷ []
unfolding program loaded
loaded_order = refl

inserted_order : (apply_rows before (beta ∷ []) false loaded).order ≡ 7 ∷ 3 ∷ 5 ∷ []
unfolding program loaded
inserted_order = refl

-- A search result of three ids, of which 9 has been removed since.
searched : Model
unfolding program loaded
searched = set_order before queued (5 ∷ 9 ∷ 3 ∷ []) (set_fetch_callback true loaded)

shown : Model
unfolding program loaded
shown = set_order before queued (5 ∷ 9 ∷ 3 ∷ []) loaded

searched_fetches : searched.fetches ≡ (9 ∷ 3 ∷ [], 2) ∷ []
unfolding program loaded searched
searched_fetches = refl

paged_order : (apply_page before queued (beta ∷ []) (9 ∷ 3 ∷ []) 2 searched).order ≡ 5 ∷ 3 ∷ []
unfolding program loaded searched
paged_order = refl

loaded-IsConsistent : IsConsistent loaded
unfolding loaded
loaded-IsConsistent =
    (apply_rows-reset before (gamma ∷ alpha ∷ []) init (refl, (refl, tt)) before_asym).0

apply_rows-reset_example :
    let m' = apply_rows before (gamma ∷ alpha ∷ []) true init in
    IsConsistent m'
    × ((id : ℕ) → elem id m'.order ≡ elem id (5 ∷ 7 ∷ []))
    × IsSorted (by_name before m'.rows) m'.order
apply_rows-reset_example =
    apply_rows-reset before (gamma ∷ alpha ∷ []) init (refl, (refl, tt)) before_asym

apply_rows-IsConsistent_example : IsConsistent (apply_rows before (beta ∷ alpha ∷ []) false loaded)
apply_rows-IsConsistent_example =
    apply_rows-IsConsistent before (beta ∷ alpha ∷ []) loaded loaded-IsConsistent

update_row-signals_example :
    (i : ℕ) × (get_elem? loaded.order i ≡ some 5)
    × ((update_row gamma true loaded).0.signals ≡ Signal.data_changed i ∷ loaded.signals)
    × ((update_row gamma true loaded).0.order ≡ loaded.order)
unfolding program loaded
update_row-signals_example =
    update_row-signals gamma true loaded loaded-IsConsistent (λ _. refl) refl

searched-IsConsistent : IsConsistent searched
unfolding program loaded searched
searched-IsConsistent =
    set_order-IsConsistent before queued (5 ∷ 9 ∷ 3 ∷ []) (set_fetch_callback true loaded)
      (refl, (refl, (refl, tt))) (omega arith)

set_order-IsConsistent_example : IsConsistent (set_order before queued (5 ∷ 9 ∷ 3 ∷ []) loaded)
unfolding program loaded
set_order-IsConsistent_example =
    set_order-IsConsistent before queued (5 ∷ 9 ∷ 3 ∷ []) loaded (refl, (refl, (refl, tt)))
      (omega arith)

apply_page-IsConsistent_example :
    IsConsistent (apply_page before queued (beta ∷ []) (9 ∷ 3 ∷ []) 2 searched)
unfolding program loaded searched
apply_page-IsConsistent_example =
    apply_page-IsConsistent before queued (beta ∷ []) (9 ∷ 3 ∷ []) 2 searched searched-IsConsistent
      (omega arith)

apply_reply-order_example :
    elem 9 (apply_reply before (beta ∷ []) (9 ∷ 3 ∷ []) searched).order ≡ false
unfolding program loaded searched
apply_reply-order_example =
    apply_reply-order before (beta ∷ []) (9 ∷ 3 ∷ []) searched searched-IsConsistent 9

apply_reply-details_example :
    is_some ((apply_reply before (beta ∷ []) (9 ∷ 3 ∷ []) searched).rows 3) ≡ true
unfolding program loaded searched
apply_reply-details_example =
    apply_reply-details before (beta ∷ []) (9 ∷ 3 ∷ []) searched searched-IsConsistent 3 refl refl

request_missing_details-IsSettled_example :
    IsConsistent (request_missing_details before queued searched)
    × IsSettled before queued (request_missing_details before queued searched)
unfolding program loaded searched
request_missing_details-IsSettled_example =
    request_missing_details-IsSettled before queued searched searched-IsConsistent (omega arith)
      refl refl

collect_page_example :
    let (page, m') = collect (5 ∷ 9 ∷ 3 ∷ []) [] shown in
    (length page ≤ 200)
    × ((is_missing shown 9 ≡ true) × (elem 9 shown.order ≡ true) × (m'.requested_details 9 ≡ true))
unfolding program loaded shown
collect_page_example = collect_page shown 9 (omega arith) refl
