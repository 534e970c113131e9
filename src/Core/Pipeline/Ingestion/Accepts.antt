-- ===== src/Core/Pipeline/Ingestion/Accepts.antt =====
-- Which events a filter accepts.
use nendi.Common.{
  ◌≡◌, ◌↔◌, ◌⊎◌, inl, inr, refl, arith, Bool, true, false, not, ◌&&◌, Option, none, some, List, [],
  ◌∷◌, lookup, All, text_eq_instance, if◌then◌else◌,
}
use nendi.Shared.Event.{OpType, RowData, get_text, qualified, ChangeEvent}
use nendi.Core.Pipeline.Ingestion.{
  ColumnPredicate, FilterRule, IngestionFilter, evaluate_predicate, same_op, has_op,
  check_predicates, accept_by, accept,
}

-- Stands in the list.
abbrev pub IsAmong : OpType → List OpType → Type 0
IsAmong op [] = ⊥
IsAmong op (o ∷ ops) = (o ≡ op) ⊎ IsAmong op ops

abbrev pub Meets : RowData → ColumnPredicate → Type 0
Meets row p = evaluate_predicate (get_text row p.column) p.op p.value ≡ true

abbrev pub MeetsAll : List ColumnPredicate → Option RowData → Type 0
MeetsAll ps none = Unit
MeetsAll ps (some row) = All (Meets row) ps

-- An empty list of operations allows them all.
abbrev pub Allows : FilterRule → ChangeEvent → Type 0
Allows rule event =
    ((rule.ops ≡ []) ⊎ IsAmong event.op rule.ops) × MeetsAll rule.predicates event.after

same_op_iff : (a b : OpType) → (same_op a b ≡ true) ↔ (a ≡ b)
unfolding same_op
same_op_iff OpType.insert OpType.insert = ((λ h. refl), λ h. refl)
same_op_iff OpType.insert OpType.update = ((λ h. cc), λ h. cc)
same_op_iff OpType.insert OpType.delete = ((λ h. cc), λ h. cc)
same_op_iff OpType.insert OpType.truncate = ((λ h. cc), λ h. cc)
same_op_iff OpType.update OpType.insert = ((λ h. cc), λ h. cc)
same_op_iff OpType.update OpType.update = ((λ h. refl), λ h. refl)
same_op_iff OpType.update OpType.delete = ((λ h. cc), λ h. cc)
same_op_iff OpType.update OpType.truncate = ((λ h. cc), λ h. cc)
same_op_iff OpType.delete OpType.insert = ((λ h. cc), λ h. cc)
same_op_iff OpType.delete OpType.update = ((λ h. cc), λ h. cc)
same_op_iff OpType.delete OpType.delete = ((λ h. refl), λ h. refl)
same_op_iff OpType.delete OpType.truncate = ((λ h. cc), λ h. cc)
same_op_iff OpType.truncate OpType.insert = ((λ h. cc), λ h. cc)
same_op_iff OpType.truncate OpType.update = ((λ h. cc), λ h. cc)
same_op_iff OpType.truncate OpType.delete = ((λ h. cc), λ h. cc)
same_op_iff OpType.truncate OpType.truncate = ((λ h. refl), λ h. refl)

has_op_iff : (ops : List OpType) (op : OpType) → (has_op ops op ≡ true) ↔ IsAmong op ops
unfolding has_op
has_op_iff [] op = ((λ h. cc), λ f. absurd f)
has_op_iff (o ∷ ops) op = ground (arith, same_op_iff o op, has_op_iff ops op)

check_predicates_iff :
    (row : RowData) (ps : List ColumnPredicate)
    → (check_predicates row ps ≡ true) ↔ All (Meets row) ps
unfolding check_predicates
check_predicates_iff row [] = ((λ h. tt), λ h. refl)
check_predicates_iff row (p ∷ ps) = ground (arith, check_predicates_iff row ps)

ops_allow_iff :
    (ops : List OpType) (op : OpType)
    → ((not (elim ops [ [] ↦ true | _ ∷ _ ↦ false ]) && not (has_op ops op)) ≡ false)
      ↔ ((ops ≡ []) ⊎ IsAmong op ops)
ops_allow_iff [] op = ((λ h. inl refl), λ h. refl)
ops_allow_iff (o ∷ ops) op =
    let among = has_op_iff (o ∷ ops) op in ((λ h. inr (among.0 (ground arith))), by_reason)
  where
    by_reason : ((o ∷ ops ≡ []) ⊎ IsAmong op (o ∷ ops)) → not (has_op (o ∷ ops) op) ≡ false
    by_reason (inl e) = cc
    by_reason (inr a) = rw ((has_op_iff (o ∷ ops) op).1 a) refl

guarded_iff :
    (b x : Bool) {P Q : Type 0}
    → (b ≡ false) ↔ P
    → (x ≡ true) ↔ Q
    → ((if b then false else x) ≡ true) ↔ (P × Q)
guarded_iff true x hb hx = ((λ h. cc), λ (p, q). let e = hb.1 p in cc)
guarded_iff false x hb hx = ((λ h. (hb.0 refl, hx.0 h)), λ (p, q). hx.1 q)

row_iff :
    (after : Option RowData) (ps : List ColumnPredicate)
    → (elim after [ none ↦ true | some row ↦ check_predicates row ps ] ≡ true) ↔ MeetsAll ps after
row_iff none ps = ((λ h. tt), λ h. refl)
row_iff (some row) ps = check_predicates_iff row ps

accept_by_iff :
    (rule : FilterRule) (event : ChangeEvent) → (accept_by rule event ≡ true) ↔ Allows rule event
unfolding accept_by
accept_by_iff rule event =
    guarded_iff
      (not (elim rule.ops [ [] ↦ true | _ ∷ _ ↦ false ]) && not (has_op rule.ops event.op))
      (elim event.after [ none ↦ true | some row ↦ check_predicates row rule.predicates ])
      (ops_allow_iff rule.ops event.op) (row_iff event.after rule.predicates)

-- An event is accepted exactly if its table has no rule, or a rule that lists no operation or the
-- event's, and whose predicates the row after the change meets, all of them, if there is such a row.
pub accept_iff :
    (filters : IngestionFilter) (event : ChangeEvent)
    → (accept filters event ≡ true) ↔ (
        (lookup (qualified event.table) filters ≡ none)
        ⊎ ((rule : FilterRule) × (lookup (qualified event.table) filters ≡ some rule)
            × Allows rule event))
unfolding accept
accept_iff filters event = by_rule (lookup (qualified event.table) filters)
  where
    by_rule :
        (found : Option FilterRule)
        → (elim found [ none ↦ true | some rule ↦ accept_by rule event ] ≡ true)
          ↔ ((found ≡ none) ⊎ ((rule : FilterRule) × (found ≡ some rule) × Allows rule event))
    by_rule none = ((λ h. inl refl), λ h. refl)
    by_rule (some rule) = ((λ h. inr (rule, refl, (accept_by_iff rule event).0 h)), accepted)
      where
        accepted :
            ((some rule ≡ none) ⊎ ((r : FilterRule) × (some rule ≡ some r) × Allows r event))
            → accept_by rule event ≡ true
        accepted (inl e) = cc
        accepted (inr (r, e, a)) =
            let same : r ≡ rule = cc in (accept_by_iff rule event).1 (rw same at a)
