-- ===== src/Core/Pipeline/FilterExpr/RoundTrip.antt =====
-- Printed rules are parsed back.
use nendi.Common.{
  ℕ, ◌<◌, ◌≡◌, ◌≢◌, refl, sym, ap, ◌∙◌, arith, false, some, List, [], ◌∷◌, ◌++◌, append_assoc,
  append-nil, Text, codes, All, All-append, All-map, map, starts_with,
}
use nendi.Common.Whitespace.{trim}
use nendi.Shared.Event.{OpType, as_str}
use nendi.Core.Pipeline.Ingestion.{ColumnPredicate, FilterRule}
use nendi.Core.Pipeline.FilterExpr.{
  split, parse_predicate, add_predicate, add_part, add_parts, parse_filter_expr,
}
use nendi.Core.Pipeline.FilterExpr.Finding.{Lacks, IsPrintable, trim-word, trim-three_words}
use nendi.Core.Pipeline.FilterExpr.Predicates.{
  Comparison, neq, gte, lte, eq, gt, lt, symbol, IsWordByte, Compared, predicate_of,
  print_predicate, IsCompared, parse_predicate-print_predicate,
}
use nendi.Core.Pipeline.FilterExpr.Operations.{
  split-append, split-whole, print_ops, IsLetter, as_str-letters, parse_ops-split, print_ops-Lacks,
}

unfoldable pub print_predicates : List Compared → Text
print_predicates [] = []
print_predicates (p ∷ ps) = b';' ∷ (32 ∷ (print_predicate p ++ print_predicates ps))

-- `op:insert,update; column == value; other != value`.
unfoldable pub print_rule : List OpType → List Compared → Text
print_rule ops ps = codes "op:" ++ (print_ops ops ++ print_predicates ps)

print_ops-IsPrintable : (ops : List OpType) → IsPrintable (print_ops ops)
unfolding print_ops
print_ops-IsPrintable [] = tt
print_ops-IsPrintable (o ∷ []) =
    All-map IsLetter _ (λ x l. (omega arith, omega arith)) (as_str o) (as_str-letters o)
print_ops-IsPrintable (o ∷ (q ∷ os)) =
    All-append _ (as_str o) (b',' ∷ print_ops (q ∷ os))
      (All-map IsLetter _ (λ x l. (omega arith, omega arith)) (as_str o) (as_str-letters o))
      (omega arith, print_ops-IsPrintable (q ∷ os))

symbol-Lacks : (k : Comparison) → Lacks b';' (symbol k)
unfolding symbol
symbol-Lacks neq = omega arith
symbol-Lacks gte = omega arith
symbol-Lacks lte = omega arith
symbol-Lacks eq = omega arith
symbol-Lacks gt = omega arith
symbol-Lacks lt = omega arith

word-Lacks : (s : Text) → All IsWordByte s → Lacks b';' s
word-Lacks s h = All-map IsWordByte (λ x. x ≢ b';') (λ x w. w.no_semicolon) s h

print_predicate-Lacks : (p : Compared) → IsCompared p → Lacks b';' (32 ∷ print_predicate p)
unfolding print_predicate
print_predicate-Lacks p v = (
  ground arith,
  All-append _ p.column _ (word-Lacks p.column v.column) (
    ground arith,
    All-append _ (symbol p.comparison) (32 ∷ p.value) (symbol-Lacks p.comparison)
        (ground arith, word-Lacks p.value v.value),
  ),
)

part : Compared → Text
part p = 32 ∷ print_predicate p

split-print_predicates :
    (xs : Text) (ps : List Compared)
    → Lacks b';' xs
    → All IsCompared ps
    → split b';' (xs ++ print_predicates ps) ≡ xs ∷ map part ps
unfolding print_predicates part
split-print_predicates xs [] h vs = ap (split b';') (append-nil xs) ∙ split-whole b';' xs h
split-print_predicates xs (p ∷ ps) h (v, vs) =
    split-append b';' xs (32 ∷ (print_predicate p ++ print_predicates ps)) h
    ∙ ap (λ l. xs ∷ l)
        (split-print_predicates (32 ∷ print_predicate p) ps (print_predicate-Lacks p v) vs)

trim-part :
    (column value : Text) (k : Comparison)
    → All IsWordByte column
    → All IsWordByte value
    → column ≢ []
    → value ≢ []
    → trim (32 ∷ (column ++ (32 ∷ (symbol k ++ (32 ∷ value)))))
      ≡ column ++ (32 ∷ (symbol k ++ (32 ∷ value)))
trim-part [] value k hc hv c v = absurd (c refl)
trim-part (a ∷ column) [] k hc hv c v = absurd (v refl)
trim-part (a ∷ column) (b ∷ value) k hc hv c v = by_symbol k
  where
    words : (s : Text) → All IsWordByte s → IsPrintable s
    words s h = All-map IsWordByte (λ c. (32 < c) × (c < 0x80)) (λ x w. w.printable) s h

    three :
        (s : ℕ) (ss : Text)
        → IsPrintable (s ∷ ss)
        → trim (32 ∷ ((a ∷ column) ++ (32 ∷ ((s ∷ ss) ++ (32 ∷ (b ∷ value))))))
          ≡ (a ∷ column) ++ (32 ∷ ((s ∷ ss) ++ (32 ∷ (b ∷ value))))
    three s ss h =
        trim-three_words a s b column ss value (words (a ∷ column) hc) h (words (b ∷ value) hv)

    by_symbol :
        (k : Comparison)
        → trim (32 ∷ ((a ∷ column) ++ (32 ∷ (symbol k ++ (32 ∷ (b ∷ value))))))
          ≡ (a ∷ column) ++ (32 ∷ (symbol k ++ (32 ∷ (b ∷ value))))
    by_symbol neq = unfold symbol in three b'!' (codes "=") (omega arith)
    by_symbol gte = unfold symbol in three b'>' (codes "=") (omega arith)
    by_symbol lte = unfold symbol in three b'<' (codes "=") (omega arith)
    by_symbol eq = unfold symbol in three b'=' (codes "=") (omega arith)
    by_symbol gt = unfold symbol in three b'>' [] (omega arith)
    by_symbol lt = unfold symbol in three b'<' [] (omega arith)

starts_with-blank :
    (xs ys ps : Text) → Lacks 32 ps → starts_with (xs ++ (32 ∷ ys)) ps ≡ starts_with xs ps
unfolding starts_with
starts_with-blank [] ys [] h = refl
starts_with-blank (x ∷ xs) ys [] h = refl
starts_with-blank [] ys (p ∷ ps) h = ground (arith, h.0)
starts_with-blank (x ∷ xs) ys (p ∷ ps) h = rw (starts_with-blank xs ys ps h.1) refl

add_part_predicate :
    (s : Text) (pred : ColumnPredicate) (rule : FilterRule)
    → s ≢ []
    → starts_with s (codes "op:") ≡ false
    → parse_predicate s ≡ some pred
    → add_part s rule ≡ record rule { predicates = rule.predicates ++ (pred ∷ []) }
unfolding add_part add_predicate
add_part_predicate [] pred rule some_text other parsed = absurd (some_text refl)
add_part_predicate (c ∷ s) pred rule some_text other parsed =
    rw (other, add_part) (rw (parsed, add_predicate) refl)

ne-nil_append : (xs ys : Text) → xs ≢ [] → xs ++ ys ≢ []
ne-nil_append [] ys h e = h refl
ne-nil_append (x ∷ xs) ys h e = cc

add_part-print_predicate :
    (p : Compared) (rule : FilterRule)
    → IsCompared p
    → add_part (print_predicate p) rule
      ≡ record rule { predicates = rule.predicates ++ (predicate_of p ∷ []) }
add_part-print_predicate p rule v =
    let rest = symbol p.comparison ++ (32 ∷ p.value) in
    let text : print_predicate p ≡ p.column ++ (32 ∷ rest) = unfold print_predicate in refl in
    add_part_predicate (print_predicate p) (predicate_of p) rule
      (λ e. ne-nil_append p.column (32 ∷ rest) v.named (sym text ∙ e))
      (ap (λ t. starts_with t (codes "op:")) text
        ∙ starts_with-blank p.column rest (codes "op:") (omega arith)
        ∙ v.no_op)
      (parse_predicate-print_predicate p v)

add_parts-predicates :
    (ps : List Compared) (rule : FilterRule)
    → All IsCompared ps
    → add_parts (map part ps) rule
      ≡ record rule { predicates = rule.predicates ++ map predicate_of ps }
unfolding add_parts part
add_parts-predicates [] rule vs =
    λ i. record rule { predicates = sym (append-nil rule.predicates) i }
add_parts-predicates (p ∷ ps) rule (v, vs) =
    let trimmed : trim (32 ∷ print_predicate p) ≡ print_predicate p =
      unfold print_predicate in
      trim-part p.column p.value p.comparison v.column v.value v.named v.valued in
    let next : FilterRule = record rule { predicates = rule.predicates ++ (predicate_of p ∷ []) } in
    ap (λ t. add_parts (map part ps) (add_part t rule)) trimmed
    ∙ ap (add_parts (map part ps)) (add_part-print_predicate p rule v)
    ∙ add_parts-predicates ps next vs
    ∙ λ i. record rule {
      predicates = append_assoc rule.predicates (predicate_of p ∷ []) (map predicate_of ps) i;
    }

-- A rule of any operations and of comparisons of columns with values, printed in the documented form
-- `op:insert,update; column == value; other != value` with columns and values that are words of ASCII
-- without semicolons and characters of operators, not empty, and with no column that begins with
-- `op:`, is parsed back to itself.
pub parse_filter_expr-print_rule :
    (ops : List OpType) (ps : List Compared)
    → All IsCompared ps
    → parse_filter_expr (print_rule ops ps)
      ≡ some (record { ops = ops; predicates = map predicate_of ps })
unfolding parse_filter_expr print_rule add_parts
parse_filter_expr-print_rule ops ps vs =
    let ops_text = codes "op:" ++ print_ops ops in
    let parts : split b';' (ops_text ++ print_predicates ps) ≡ ops_text ∷ map part ps =
      split-print_predicates ops_text ps
        (
          ground arith,
          (ground arith, (ground arith, print_ops-Lacks b';' ops (omega arith) (ground arith))),
        )
        vs in
    let trimmed : trim ops_text ≡ ops_text =
      trim-word ops_text
        ((omega arith), ((omega arith), ((omega arith), print_ops-IsPrintable ops))) in
    let none_yet : FilterRule = record { ops = []; predicates = [] } in
    let first : add_part ops_text none_yet ≡ record { ops = ops; predicates = [] } =
      unfold add_part starts_with in rw (parse_ops-split ops) refl in
    ap some (
      ap (λ l. add_parts l none_yet) parts
      ∙ ap (λ t. add_parts (map part ps) (add_part t none_yet)) trimmed
      ∙ ap (add_parts (map part ps)) first
      ∙ add_parts-predicates ps (record { ops = ops; predicates = [] }) vs)
