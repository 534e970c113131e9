-- ===== src/Core/Pipeline/Ingestion/Tests.antt =====
-- The ingestion filter at a concrete rule.
use nendi.Common.{◌≡◌, ◌↔◌, ◌⊎◌, true, some, none, [], ◌∷◌, codes, lookup, text_eq_instance}
use nendi.Shared.Event.{OpType, qualified}
use nendi.Shared.Event.Samples.{order_at}
use nendi.Core.Pipeline.Ingestion.{PredicateOp, FilterRule, IngestionFilter, accept}
use nendi.Core.Pipeline.Ingestion.Accepts.{Allows, accept_iff}

abbrev inserts_only : FilterRule
inserts_only = record {
  ops = OpType.insert ∷ [];
  predicates = record { column = codes "id"; op = PredicateOp.is_not_null; value = [] } ∷ [];
}

abbrev orders : IngestionFilter
orders = (codes "public.orders", inserts_only) ∷ []

accept_iff_example : (accept orders (order_at 5 1) ≡ true) ↔ (
    (lookup (qualified (order_at 5 1).table) orders ≡ none)
    ⊎ ((rule : FilterRule) × (lookup (qualified (order_at 5 1).table) orders ≡ some rule)
        × Allows rule (order_at 5 1)))
accept_iff_example = accept_iff orders (order_at 5 1)
