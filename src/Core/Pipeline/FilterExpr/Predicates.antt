-- ===== src/Core/Pipeline/FilterExpr/Predicates.antt =====
-- Printed predicates are parsed back.
use nendi.Common.{
  ℕ, ◌+◌, ◌<◌, ◌≡◌, ◌≢◌, refl, sym, ap, ◌∙◌, arith, true, false, none, some, [], ◌∷◌, ◌++◌,
  append_assoc, Text, codes, All, All-append, All-map, length, length-append, take, drop,
  take-append, drop-append, starts_with,
}
use nendi.Common.Whitespace.{trim, find}
use nendi.Core.Pipeline.Ingestion.{PredicateOp, ColumnPredicate}
use nendi.Core.Pipeline.FilterExpr.{predicate_at, find_operator, parse_predicate}
use nendi.Core.Pipeline.FilterExpr.Finding.{
  Lacks, find_here, find_past, find-none, IsPrintable, trim-word_blank, trim-blank_word,
}

-- The operators that expressions have.
pub data Comparison : Type 0 where
  neq gte lte eq gt lt : Comparison

unfoldable pub op_of : Comparison → PredicateOp
op_of neq = PredicateOp.neq
op_of gte = PredicateOp.gte
op_of lte = PredicateOp.lte
op_of eq = PredicateOp.eq
op_of gt = PredicateOp.gt
op_of lt = PredicateOp.lt

unfoldable pub symbol : Comparison → Text
symbol neq = codes "!="
symbol gte = codes ">="
symbol lte = codes "<="
symbol eq = codes "=="
symbol gt = codes ">"
symbol lt = codes "<"

-- No white space, no semicolon, no character of an operator; ASCII.
pub record IsWordByte (c : ℕ) : Type 0 where
  pub printable : (32 < c) × (c < 0x80)
  pub no_semicolon : c ≢ b';'
  pub no_bang : c ≢ b'!'
  pub no_less : c ≢ b'<'
  pub no_equals : c ≢ b'='
  pub no_greater : c ≢ b'>'

-- A comparison of a column with a value, both words that are not empty.
pub record Compared : Type 0 where
  pub column : Text
  pub comparison : Comparison
  pub value : Text

unfoldable pub predicate_of : Compared → ColumnPredicate
predicate_of p = record { column = p.column; op = op_of p.comparison; value = p.value }

unfoldable pub print_predicate : Compared → Text
print_predicate p = p.column ++ (32 ∷ (symbol p.comparison ++ (32 ∷ p.value)))

pub record IsCompared (p : Compared) : Type 0 where
  pub column : All IsWordByte p.column
  pub value : All IsWordByte p.value
  pub named : p.column ≢ []
  pub valued : p.value ≢ []
  pub no_op : starts_with p.column (codes "op:") ≡ false

module _ (p : Compared) (v : IsCompared p) where
  front : Text
  front = p.column ++ (32 ∷ [])

  front-Lacks : (c : ℕ) → 32 ≢ c → ((x : ℕ) → IsWordByte x → x ≢ c) → Lacks c front
  unfolding front
  front-Lacks c blank word =
      All-append (λ x. x ≢ c) p.column (32 ∷ [])
        (All-map IsWordByte (λ x. x ≢ c) word p.column v.column) (blank, tt)

  back-Lacks : (c : ℕ) → 32 ≢ c → ((x : ℕ) → IsWordByte x → x ≢ c) → Lacks c (32 ∷ p.value)
  back-Lacks c blank word = (blank, All-map IsWordByte (λ x. x ≢ c) word p.value v.value)

  with_symbol : Comparison → Text
  unfolding front
  with_symbol k = front ++ (symbol k ++ (32 ∷ p.value))

  absent :
      (k : Comparison) (c : ℕ) (cs : Text)
      → 32 ≢ c
      → ((x : ℕ) → IsWordByte x → x ≢ c)
      → Lacks c (symbol k)
      → find (with_symbol k) (c ∷ cs) ≡ none
  unfolding with_symbol
  absent k c cs blank word sym_lacks = find-none c cs (with_symbol k) (
      All-append (λ x. x ≢ c) front (symbol k ++ (32 ∷ p.value)) (front-Lacks c blank word)
        (All-append (λ x. x ≢ c) (symbol k) (32 ∷ p.value) sym_lacks (back-Lacks c blank word)))

  no_bang : (k : Comparison) → Lacks b'!' (symbol k) → find (with_symbol k) (codes "!=") ≡ none
  no_bang k h = absent k b'!' (codes "=") (ground arith) (λ x w. w.no_bang) h

  no_greater :
      (k : Comparison) (cs : Text) → Lacks b'>' (symbol k) → find (with_symbol k) (b'>' ∷ cs) ≡ none
  no_greater k cs h = absent k b'>' cs (ground arith) (λ x w. w.no_greater) h

  no_less :
      (k : Comparison) (cs : Text) → Lacks b'<' (symbol k) → find (with_symbol k) (b'<' ∷ cs) ≡ none
  no_less k cs h = absent k b'<' cs (ground arith) (λ x w. w.no_less) h

  no_equals : (k : Comparison) → Lacks b'=' (symbol k) → find (with_symbol k) (codes "==") ≡ none
  no_equals k h = absent k b'=' (codes "=") (ground arith) (λ x w. w.no_equals) h

  -- A `>` or `<` with a blank behind it.
  greater_only : find (with_symbol gt) (codes ">=") ≡ none
  unfolding with_symbol symbol
  greater_only =
      find_past b'>' (codes "=") front (b'>' ∷ (32 ∷ p.value))
        (front-Lacks b'>' (ground arith) (λ x w. w.no_greater))
        (unfold find starts_with in
          rw
            (find-none b'>' (codes "=") p.value
              (All-map IsWordByte (λ x. x ≢ b'>') (λ x w. w.no_greater) p.value v.value))
            refl)

  less_only : find (with_symbol lt) (codes "<=") ≡ none
  unfolding with_symbol symbol
  less_only =
      find_past b'<' (codes "=") front (b'<' ∷ (32 ∷ p.value))
        (front-Lacks b'<' (ground arith) (λ x w. w.no_less))
        (unfold find starts_with in
          rw
            (find-none b'<' (codes "=") p.value
              (All-map IsWordByte (λ x. x ≢ b'<') (λ x w. w.no_less) p.value v.value))
            refl)

  here :
      (k : Comparison) (c : ℕ) (cs : Text)
      → symbol k ≡ c ∷ cs
      → 32 ≢ c
      → ((x : ℕ) → IsWordByte x → x ≢ c)
      → starts_with (symbol k ++ (32 ∷ p.value)) (c ∷ cs) ≡ true
      → find (with_symbol k) (c ∷ cs) ≡ some (length front)
  unfolding with_symbol
  here k c cs is blank word at =
      find_here c cs front (symbol k ++ (32 ∷ p.value)) (front-Lacks c blank word) at

  Finds : Comparison → Type 0
  Finds k =
      parse_predicate (with_symbol k)
      ≡ some (predicate_at (with_symbol k) (length (symbol k)) (op_of k) (length front))

  finds : (k : Comparison) → Finds k
  unfolding Finds parse_predicate find_operator symbol op_of
  finds neq =
      rw
        (
          here neq b'!' (codes "=") refl (ground arith) (λ x w. w.no_bang)
              (unfold starts_with in refl),
          find_operator,
        )
        refl
  finds gte =
      rw (no_bang gte (omega arith), find_operator)
        (rw
          (
            here gte b'>' (codes "=") refl (ground arith) (λ x w. w.no_greater)
                (unfold starts_with in refl),
            find_operator,
          )
          refl)
  finds lte =
      rw (no_bang lte (omega arith), find_operator)
        (rw (no_greater lte (codes "=") (omega arith), find_operator)
          (rw
            (
              here lte b'<' (codes "=") refl (ground arith) (λ x w. w.no_less)
                  (unfold starts_with in refl),
              find_operator,
            )
            refl))
  finds eq =
      rw (no_bang eq (omega arith), find_operator)
        (rw (no_greater eq (codes "=") (omega arith), find_operator)
          (rw (no_less eq (codes "=") (omega arith), find_operator)
            (rw
              (
                here eq b'=' (codes "=") refl (ground arith) (λ x w. w.no_equals)
                    (unfold starts_with in refl),
                find_operator,
              )
              refl)))
  finds gt =
      rw (no_bang gt (omega arith), find_operator)
        (rw (greater_only, find_operator)
          (rw (no_less gt (codes "=") (omega arith), find_operator)
            (rw (no_equals gt (omega arith), find_operator)
              (rw
                (
                  here gt b'>' [] refl (ground arith) (λ x w. w.no_greater)
                      (unfold starts_with in refl),
                  find_operator,
                )
                refl))))
  finds lt =
      rw (no_bang lt (omega arith), find_operator)
        (rw (no_greater lt (codes "=") (omega arith), find_operator)
          (rw (less_only, find_operator)
            (rw (no_equals lt (omega arith), find_operator)
              (rw (no_greater lt [] (omega arith), find_operator)
                (rw
                  (
                    here lt b'<' [] refl (ground arith) (λ x w. w.no_less)
                        (unfold starts_with in refl),
                    find_operator,
                  )
                  refl)))))

  column-IsPrintable : IsPrintable p.column
  column-IsPrintable = All-map IsWordByte _ (λ x w. w.printable) p.column v.column

  value-IsPrintable : IsPrintable p.value
  value-IsPrintable = All-map IsWordByte _ (λ x w. w.printable) p.value v.value

  cut :
      (k : Comparison)
      → predicate_at (with_symbol k) (length (symbol k)) (op_of k) (length front)
        ≡ record { column = p.column; op = op_of k; value = p.value }
  unfolding predicate_at with_symbol
  cut k =
      let column : trim (take (length front) (front ++ (symbol k ++ (32 ∷ p.value)))) ≡ p.column =
        ap trim (take-append front (symbol k ++ (32 ∷ p.value)))
        ∙ unfold front in trim-word_blank p.column column-IsPrintable in
      let pos : length front + length (symbol k) ≡ length (front ++ symbol k) =
        sym (length-append front (symbol k)) in
      let back : drop (length front + length (symbol k)) (front ++ (symbol k ++ (32 ∷ p.value)))
          ≡ 32 ∷ p.value =
        rw (pos, sym (append_assoc front (symbol k) (32 ∷ p.value)))
          (drop-append (front ++ symbol k) (32 ∷ p.value)) in
      let value : trim
            (drop (length front + length (symbol k)) (front ++ (symbol k ++ (32 ∷ p.value))))
          ≡ p.value =
        ap trim back ∙ trim-blank_word p.value value-IsPrintable in
      λ i. record { column = column i; op = op_of k; value = value i }

  pub parse_predicate-print_predicate : parse_predicate (print_predicate p) ≡ some (predicate_of p)
  unfolding print_predicate predicate_of Finds
  parse_predicate-print_predicate =
      let text : print_predicate p ≡ with_symbol p.comparison =
        unfold with_symbol front print_predicate in
        sym (append_assoc p.column (32 ∷ []) (symbol p.comparison ++ (32 ∷ p.value))) in
      ap parse_predicate text ∙ finds p.comparison ∙ ap some (cut p.comparison)
