-- ===== src/Model/Paging/Removal.antt =====
-- A page reply keeps the invariant: rows that did not come leave the order, the others are updated.
use scrub_tub.Base.{
  ℕ, ◌-◌, ◌≡◌, inl, inr, Bool, true, some, List, [], ◌∷◌, arith, ltb, if◌then◌else◌, index_of,
  Bool-cases, Option-cases, remove_at, length-remove_at, elem-remove_at, Distinct-remove_at,
  take-remove_at, All-take-map, index_of-lt, Text,
}
use scrub_tub.Row.{VideoRow}
use scrub_tub.Model.{Model}
use scrub_tub.Model.Invariant.{IsConsistent, is_accounted, apply_rows-IsConsistent}
use scrub_tub.Model.Paging.{remove_row, settle, remove_absent, apply_reply}

remove_row-IsConsistent :
    (id i : ℕ) (m : Model)
    → IsConsistent m
    → index_of id m.order ≡ some i
    → IsConsistent (remove_row id i m)
unfolding remove_row
remove_row-IsConsistent id i m v e = record {
  distinct = Distinct-remove_at i m.order v.distinct;
  mirrored = λ a. ground (arith, v.mirrored a, elem-remove_at i id a m.order v.distinct e);
  placed = λ h. cc;
  bounded = ground (arith, v.bounded, length-remove_at i m.order, index_of-lt id m.order i e);
  accounted =
      All-take-map (λ a. is_accounted m a ≡ true) (λ a. is_accounted (remove_row id i m) a ≡ true)
        (if ltb i m.missing_cursor then m.missing_cursor - 1 else m.missing_cursor)
        (remove_at i m.order)
        (λ a held h. ground (arith, elem-remove_at i id a m.order v.distinct e))
        (take-remove_at (λ a. is_accounted m a ≡ true) i m.missing_cursor m.order v.accounted);
}

pub settle-IsConsistent :
    (received : ℕ → Bool) (id : ℕ) (m : Model)
    → IsConsistent m
    → IsConsistent (settle received id m)
unfolding settle
settle-IsConsistent received id m v = elim (Bool-cases (received id)) [
  | inl here ↦ rw here v
  | inr gone ↦ elim (Option-cases (index_of id m.order)) [
    | inl e ↦ rw (gone, e) v
    | inr (i, e) ↦ rw (gone, e) (remove_row-IsConsistent id i m v e)
  ]
]

pub remove_absent-IsConsistent :
    (received : ℕ → Bool) (ids : List ℕ) (m : Model)
    → IsConsistent m
    → IsConsistent (remove_absent received ids m)
unfolding remove_absent
remove_absent-IsConsistent received [] m v = v
remove_absent-IsConsistent received (id ∷ ids) m v =
    remove_absent-IsConsistent received ids _ (settle-IsConsistent received id m v)

module _ (before : Text → Text → Bool) where
  pub apply_reply-IsConsistent :
      (rows : List VideoRow) (requested : List ℕ) (m : Model)
      → IsConsistent m
      → IsConsistent (apply_reply before rows requested m)
  unfolding apply_reply
  apply_reply-IsConsistent rows requested m v =
      apply_rows-IsConsistent before _ _ (remove_absent-IsConsistent _ requested m v)
