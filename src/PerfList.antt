-- ===== src/PerfList.antt =====
-- PerfList of lnst/RecipeCommon/Perf/Results.py: a list of intervals or of such lists that all have
-- one unit. The items are any type, with the test of `_validate_item_type` and the unit of an item.
-- Positions are not negative.
pub mod Units
pub mod Tests
use lnst.Prelude.{ℕ, zero, suc, Bool, not, List, [], ◌∷◌, ◌++◌, Eq, ◌==◌}
use lnst.Prelude.Exc.{Result, ok, err, guard, lnst_error, index_error, ◌>>=◌, ◌>>◌}

module _ {A U : Type 0} ⦃eq_u : Eq U⦄ (is_perf : A → Bool) (unit : A → U) where
  -- _validate_item of a list; the first test is _validate_item_type
  unfoldable pub validate_item : List A → A → Result (Unit {0})
  validate_item [] item = guard (is_perf item) lnst_error
  validate_item (x ∷ xs) item =
      guard (is_perf item) lnst_error >> guard (unit item == unit x) lnst_error

  -- The loop of __init__ once the unit of the first item is known.
  unfoldable pub check_units : U → List A → Result (Unit {0})
  check_units u [] = ok tt
  check_units u (x ∷ xs) =
      guard (is_perf x) lnst_error >> (guard (unit x == u) lnst_error >> check_units u xs)

  -- PerfList(iterable)
  unfoldable pub perf_list : List A → Result (List A)
  perf_list [] = ok []
  perf_list (x ∷ xs) = check_units (unit x) (x ∷ xs) >>= λ v. ok (x ∷ xs)

  unfoldable pub append : List A → A → Result (List A)
  append xs item = validate_item xs item >>= λ v. ok (xs ++ (item ∷ []))

  -- The loop of extend and of slice assignment: the list does not change while it runs.
  unfoldable pub validate_all : List A → List A → Result (Unit {0})
  validate_all xs [] = ok tt
  validate_all xs (item ∷ items) = validate_item xs item >> validate_all xs items

  unfoldable pub extend : List A → List A → Result (List A)
  extend xs items = validate_all xs items >>= λ v. ok (xs ++ items)

  -- list.insert: past the end, the item is put at the end.
  unfoldable pub insert_at : ℕ → A → List A → List A
  insert_at zero item xs = item ∷ xs
  insert_at (suc i) item [] = item ∷ []
  insert_at (suc i) item (x ∷ xs) = x ∷ insert_at i item xs

  unfoldable pub insert : List A → ℕ → A → Result (List A)
  insert xs i item = validate_item xs item >>= λ v. ok (insert_at i item xs)

  -- list.__setitem__
  unfoldable pub replace_at : ℕ → A → List A → Result (List A)
  replace_at i item [] = err index_error
  replace_at zero item (x ∷ xs) = ok (item ∷ xs)
  replace_at (suc i) item (x ∷ xs) = replace_at i item xs >>= λ ys. ok (x ∷ ys)

  -- __setitem__ with an integer; `is_list` is `isinstance(item, list)`
  unfoldable pub set_item : (A → Bool) → List A → ℕ → A → Result (List A)
  set_item is_list xs i item =
      guard (not (is_list item)) lnst_error >> validate_item xs item >>= λ v. replace_at i item xs
