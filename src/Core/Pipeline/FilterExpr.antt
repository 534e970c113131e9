-- ===== src/Core/Pipeline/FilterExpr.antt =====
-- core/src/pipeline/ingestion.rs, `parse_filter_expr`: filter rules as texts.
pub mod Finding
pub mod Predicates
pub mod Operations
pub mod RoundTrip
mod Tests
use nendi.Common.{
  ℕ, suc, ◌+◌, Bool, true, false, Option, none, some, List, [], ◌∷◌, ◌++◌, Text, Dict,
  text_eq_instance, codes, take, drop, length, starts_with, insert, ◌==◌, if◌then◌else◌,
}
use nendi.Common.Whitespace.{trim, find}
use nendi.Shared.Event.{OpType, from_str_tag}
use nendi.Core.Pipeline.Ingestion.{
  PredicateOp, ColumnPredicate, FilterRule, IngestionFilter, new, add_rule,
}

-- The first part of a split gets one more byte in front.
unfoldable pub before_first : ℕ → List Text → List Text
before_first c [] = []
before_first c (part ∷ parts) = (c ∷ part) ∷ parts

-- `split` at an ASCII character: one part more than there are separators.
unfoldable pub split : ℕ → Text → List Text
split c [] = [] ∷ []
split c (x ∷ s) = let rest = split c s in if x == c then [] ∷ rest else before_first x rest

-- A found operator of `n` bytes; the position is next to an ASCII character, so that the slices are
-- at characters' bounds.
unfoldable pub predicate_at : Text → ℕ → PredicateOp → ℕ → ColumnPredicate
predicate_at expr n op pos = record {
  column = trim (take pos expr);
  op = op;
  value = trim (drop (pos + n) expr);
}

-- The loop over the operators.
unfoldable pub find_operator : List (Text × PredicateOp) → Text → Option ColumnPredicate
find_operator [] expr = none
find_operator ((sym, op) ∷ operators) expr = elim (find expr sym) [
  | some pos ↦ some (predicate_at expr (length sym) op pos)
  | none ↦ find_operator operators expr
]

abbrev pub operators : List (Text × PredicateOp)
operators =
    (codes "!=", PredicateOp.neq)
    ∷ ((codes ">=", PredicateOp.gte)
        ∷ ((codes "<=", PredicateOp.lte)
            ∷ ((codes "==", PredicateOp.eq)
                ∷ ((codes ">", PredicateOp.gt) ∷ ((codes "<", PredicateOp.lt) ∷ [])))))

unfoldable pub parse_predicate : Text → Option ColumnPredicate
parse_predicate expr = find_operator operators expr

-- The loop over the operations' names; unknown ones are left out.
unfoldable pub parse_ops : List Text → List OpType
parse_ops [] = []
parse_ops (op ∷ ops) = elim (from_str_tag (trim op)) [
  | some op_type ↦ op_type ∷ parse_ops ops
  | none ↦ parse_ops ops
]

is_nil : Text → Bool
is_nil [] = true
is_nil (_ ∷ _) = false

unfoldable pub add_predicate : Option ColumnPredicate → FilterRule → FilterRule
add_predicate none rule = rule
add_predicate (some pred) rule = record rule { predicates = rule.predicates ++ (pred ∷ []) }

-- One round of the loop over the parts, on a trimmed part.
unfoldable pub add_part : Text → FilterRule → FilterRule
unfolding is_nil
add_part part rule =
    if is_nil part
    then rule
    else if starts_with part (codes "op:")
    then record rule { ops = rule.ops ++ parse_ops (split b',' (drop 3 part)) }
    else add_predicate (parse_predicate part) rule

unfoldable pub add_parts : List Text → FilterRule → FilterRule
add_parts [] rule = rule
add_parts (part ∷ parts) rule = add_parts parts (add_part (trim part) rule)

unfoldable pub parse_filter_expr : Text → Option FilterRule
parse_filter_expr expr = some (add_parts (split b';' expr) (record { ops = []; predicates = [] }))

-- The loop of `from_config` over the table names and expressions.
unfoldable pub add_rules : List (Text × Text) → IngestionFilter → IngestionFilter
add_rules [] filter = filter
add_rules ((table, expr) ∷ filters) filter =
    add_rules filters
      (elim (parse_filter_expr expr) [ some rule ↦ insert table rule filter | none ↦ filter ])

unfoldable pub from_config : Dict Text Text → IngestionFilter
from_config filters = add_rules filters new
