-- ===== src/Core/Pipeline/FilterExpr/Tests.antt =====
-- A printed rule.
use nendi.Common.{◌≡◌, refl, arith, some, [], ◌∷◌, codes, map, starts_with}
use nendi.Shared.Event.{as_str, insert, update}
use nendi.Core.Pipeline.FilterExpr.{parse_filter_expr}
use nendi.Core.Pipeline.FilterExpr.Predicates.{
  Compared, gte, IsCompared, predicate_of, print_predicate, symbol,
}
use nendi.Core.Pipeline.FilterExpr.Operations.{print_ops}
use nendi.Core.Pipeline.FilterExpr.RoundTrip.{
  print_rule, print_predicates, parse_filter_expr-print_rule,
}

abbrev adults : Compared
adults = record { column = codes "age"; comparison = gte; value = codes "18" }

adults-IsCompared : IsCompared adults
unfolding starts_with
adults-IsCompared = record {
  column = omega arith;
  value = omega arith;
  named = λ e. cc;
  valued = λ e. cc;
  no_op = refl;
}

printed : print_rule (insert ∷ (update ∷ [])) (adults ∷ []) ≡ codes "op:insert,update; age >= 18"
unfolding print_rule print_ops print_predicates print_predicate symbol as_str
printed = refl

parse_filter_expr-print_rule_example :
    parse_filter_expr (print_rule (insert ∷ (update ∷ [])) (adults ∷ []))
    ≡ some (record { ops = insert ∷ (update ∷ []); predicates = map predicate_of (adults ∷ []) })
parse_filter_expr-print_rule_example =
    parse_filter_expr-print_rule (insert ∷ (update ∷ [])) (adults ∷ []) (adults-IsCompared, tt)
