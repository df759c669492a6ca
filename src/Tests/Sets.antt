-- ===== src/Tests/Sets.antt =====
-- Sets of file ids at concrete inputs.
use tx.Base.{◌≡◌, false, ◌||◌, List, [], ◌∷◌}
use tx.IdSet.{IdSet, no_ids, has, all_ids, add, union}
use tx.IdSet.Valid.{IsValid, no_ids-IsValid}
use tx.IdSet.Refines.{
  Adds, add-Adds, Op, add_op, has_op, len_op, all_op, run, run_spec, run-run_spec,
}
use tx.IdSet.Union.{has-union}

abbrev few_calls : List Op
few_calls =
    add_op 3 ∷ add_op 5000 ∷ add_op 3 ∷ has_op 5000 ∷ has_op 4 ∷ add_op 1 ∷ len_op ∷ all_op ∷ []

run-run_spec_example : run no_ids few_calls ≡ run_spec (all_ids no_ids) few_calls
run-run_spec_example = run-run_spec no_ids few_calls no_ids-IsValid

-- A set that a distant id has made sparse.
abbrev two_ids : IdSet
two_ids = (add (add no_ids 3).0 5000).0

two_ids-IsValid : IsValid two_ids
two_ids-IsValid = (add-Adds (add no_ids 3).0 5000 (add-Adds no_ids 3 no_ids-IsValid).valid).valid

add-Adds_example : Adds two_ids 1 (add two_ids 1)
add-Adds_example = add-Adds two_ids 1 two_ids-IsValid

abbrev one_id : IdSet
one_id = (add no_ids 7).0

has-union_example :
    IsValid (union false two_ids one_id)
    × (has (union false two_ids one_id) 7 ≡ has two_ids 7 || has one_id 7)
has-union_example =
    has-union false two_ids one_id 7 two_ids-IsValid (add-Adds no_ids 7 no_ids-IsValid).valid
      (λ e. absurd cc)
