-- ===== src/Core/Pipeline/Ingestion.antt =====
-- core/src/pipeline/ingestion.rs: which events are stored at all.
pub mod Accepts
mod Tests
use nendi.Common.{
  ℕ, Bool, true, false, not, ◌&&◌, ◌||◌, Option, none, some, List, [], ◌∷◌, Text, Dict, lookup,
  insert, text_eq_instance, text_eq, lex_ltb, starts_with, contains, if◌then◌else◌,
}
use nendi.Shared.Event.{OpType, RowData, get_text, qualified, ChangeEvent}

pub data PredicateOp : Type 0 where
  eq neq gt lt gte lte contains_text starts_with_text is_null is_not_null : PredicateOp

pub record ColumnPredicate : Type 0 where
  pub column : Text
  pub op : PredicateOp
  pub value : Text

pub record FilterRule : Type 0 where
  pub ops : List OpType
  pub predicates : List ColumnPredicate

abbrev pub IngestionFilter : Type 0
IngestionFilter = Dict Text FilterRule

abbrev pub new : IngestionFilter
new = []

unfoldable pub add_rule : Text → FilterRule → IngestionFilter → IngestionFilter
add_rule table rule f = insert table rule f

-- The inner match, on a value that is there. Texts are compared by their bytes.
unfoldable pub compare_value : PredicateOp → Text → Text → Bool
compare_value PredicateOp.eq actual expected = text_eq actual expected
compare_value PredicateOp.neq actual expected = not (text_eq actual expected)
compare_value PredicateOp.gt actual expected = lex_ltb expected actual
compare_value PredicateOp.lt actual expected = lex_ltb actual expected
compare_value PredicateOp.gte actual expected = not (lex_ltb actual expected)
compare_value PredicateOp.lte actual expected = not (lex_ltb expected actual)
compare_value PredicateOp.contains_text actual expected = contains actual expected
compare_value PredicateOp.starts_with_text actual expected = starts_with actual expected
compare_value PredicateOp.is_null actual expected = true
compare_value PredicateOp.is_not_null actual expected = true

unfoldable pub evaluate_predicate : Option Text → PredicateOp → Text → Bool
evaluate_predicate none PredicateOp.is_null expected = true
evaluate_predicate (some _) PredicateOp.is_null expected = false
evaluate_predicate none PredicateOp.is_not_null expected = false
evaluate_predicate (some _) PredicateOp.is_not_null expected = true
evaluate_predicate none op expected = false
evaluate_predicate (some actual) op expected = compare_value op actual expected

unfoldable pub same_op : OpType → OpType → Bool
same_op OpType.insert OpType.insert = true
same_op OpType.update OpType.update = true
same_op OpType.delete OpType.delete = true
same_op OpType.truncate OpType.truncate = true
same_op _ _ = false

-- `contains` on the operations of a rule.
unfoldable pub has_op : List OpType → OpType → Bool
has_op [] op = false
has_op (o ∷ ops) op = same_op o op || has_op ops op

-- The loop over the predicates.
unfoldable pub check_predicates : RowData → List ColumnPredicate → Bool
check_predicates row [] = true
check_predicates row (pred ∷ preds) =
    let rest = check_predicates row preds in
    if not (evaluate_predicate (get_text row pred.column) pred.op pred.value) then false else rest

unfoldable pub accept_by : FilterRule → ChangeEvent → Bool
accept_by rule event =
    if not (elim rule.ops [ [] ↦ true | _ ∷ _ ↦ false ]) && not (has_op rule.ops event.op)
    then false
    else elim event.after [ none ↦ true | some row ↦ check_predicates row rule.predicates ]

unfoldable pub accept : IngestionFilter → ChangeEvent → Bool
accept filters event = elim (lookup (qualified event.table) filters) [
  | none ↦ true
  | some rule ↦ accept_by rule event
]
