-- ===== src/Evaluation.antt =====
-- lnst/Controller/RecipeResults.py, RecipeRun of lnst/Controller/Recipe.py and the evaluators of
-- lnst/RecipeCommon: how single results become the result of a run.
pub mod Baseline
pub mod Evaluators
pub mod Severity
pub mod Verdicts
pub mod Compared
pub mod Tests
use lnst.Prelude.{ℕ, Bool, true, false, Option, none, some, List, [], ◌∷◌, ◌||◌, if◌then◌else◌}
use lnst.Prelude.Exc.{Result, ok, err, type_error, not_implemented, ◌>>=◌}

pub data ResultType : Type 0 where
  fail pass warning : ResultType

-- `==` of the enumeration
abbrev pub same_type : ResultType → ResultType → Bool
same_type fail fail = true
same_type pass pass = true
same_type warning warning = true
same_type fail pass = false
same_type fail warning = false
same_type pass fail = false
same_type pass warning = false
same_type warning fail = false
same_type warning pass = false

-- The loop of max_severity over its levels, the most severe first.
abbrev pub first_level : List ResultType → ResultType → ResultType → ResultType
first_level [] first second = pass
first_level (level ∷ levels) first second =
    let rest = first_level levels first second in
    if same_type first level || same_type second level then level else rest

abbrev pub max_severity : ResultType → ResultType → ResultType
max_severity = first_level (fail ∷ warning ∷ pass ∷ [])

-- reduce(ResultType.max_severity, results, initial)
abbrev pub reduce_from : ResultType → List ResultType → ResultType
reduce_from worst [] = worst
reduce_from worst (r ∷ rs) = reduce_from (max_severity worst r) rs

-- reduce(ResultType.max_severity, results): without results it raises TypeError.
unfoldable pub reduce : List ResultType → Result ResultType
reduce [] = err type_error
reduce (r ∷ rs) = ok (reduce_from r rs)

-- `level in results`
abbrev pub among : ResultType → List ResultType → Bool
among level [] = false
among level (r ∷ rs) = same_type r level || among level rs

-- RecipeRun.overall_result: the first argument says whether the run ended with an exception.
unfoldable pub overall_result : Bool → List ResultType → Result ResultType
unfolding reduce
overall_result raised results =
    if among fail results || raised
    then ok fail
    else if among warning results
    then ok warning
    else reduce results >>= λ level. if same_type level pass then ok pass else err not_implemented
