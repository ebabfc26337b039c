-- ===== src/PerfList/Tests.antt =====
-- PerfList at concrete inputs: an item is a unit with a value.
use lnst.Prelude.{ℕ, String, ◌≡◌, refl, Bool, true, false, List, [], ◌∷◌, string_eq}
use lnst.Prelude.Exc.{ok, err, lnst_error}
use lnst.PerfList.{
  append, extend, insert, insert_at, set_item, replace_at, validate_item, validate_all,
}
use lnst.PerfList.Units.{
  Change, appended, inserted, replaced, changes, IsPerfList, changes-IsPerfList,
}

abbrev Item : Type 0
Item = String × ℕ

abbrev any : Item → Bool
any i = true

abbrev no_list : Item → Bool
no_list i = false

abbrev unit : Item → String
unit i = i.0

abbrev edits : List (Change Item)
edits = appended ("bits", 2) ∷ inserted 0 ("bits", 3) ∷ replaced 1 ("bits", 4) ∷ []

abbrev edited : List Item
edited = ("bits", 3) ∷ ("bits", 4) ∷ ("bits", 2) ∷ []

edits_run : changes any no_list unit (("bits", 1) ∷ []) edits ≡ ok edited
unfolding append insert insert_at set_item replace_at validate_item
edits_run = refl

changes-IsPerfList_example : IsPerfList any no_list unit "bits" edited
changes-IsPerfList_example =
    changes-IsPerfList any no_list unit "bits" (("bits", 1) ∷ []) edits edited (refl, tt) edits_run

-- An empty list takes items of different units from extend.
mixed :
    extend any unit [] (("bits", 1) ∷ ("packets", 2) ∷ []) ≡ ok (("bits", 1) ∷ ("packets", 2) ∷ [])
unfolding extend validate_all validate_item
mixed = refl

-- A list is not put at a position.
list_refused : set_item any unit any (("bits", 1) ∷ []) 0 ("bits", 2) ≡ err lnst_error
unfolding set_item
list_refused = refl
