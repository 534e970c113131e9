-- ===== src/Pgsql/Ddl/Parsed.antt =====
-- The parser on printed messages.
use nendi.Common.{
  ℕ, ◌+◌, ◌<◌, ◌≡◌, ◌≢◌, refl, sym, ap, arith, true, some, [], ◌∷◌, ◌++◌, append_assoc, Text, codes,
  All, length, length-append, drop, drop-append, leb, split_once-append, if◌then◌else◌,
}
use nendi.Common.Whitespace.{
  white_len, skip_white, take_word, first_word, trim_end_matches, find, is_boundary, str_from,
}
use nendi.Common.Cursor.{ok}
use nendi.Pgsql.Ddl.{word_behind, extract_column_name, kind_of, parsed, parse_ddl_message}

abbrev pub LacksBar : Text → Type 0
LacksBar s = All (λ x. x ≢ b'|') s

unfoldable pub print : Text → Text → Text → Text
print tag table stmt = tag ++ (b'|' ∷ (table ++ (b'|' ∷ stmt)))

-- A statement may hold bars.
pub parse_ddl_message-print :
    (up : Text → Text) (tag table stmt : Text)
    → LacksBar tag
    → LacksBar table
    → parse_ddl_message up (print tag table stmt) ≡ parsed up table stmt (kind_of up tag stmt)
unfolding parse_ddl_message print
parse_ddl_message-print up tag table stmt ht hb =
    rw (split_once-append b'|' tag (table ++ (b'|' ∷ stmt)) ht, parse_ddl_message)
      (rw (split_once-append b'|' table stmt hb) refl)

-- A character of an unquoted ASCII name, and no semicolon.
abbrev pub IsNameByte : ℕ → Type 0
IsNameByte c = (32 < c) × (c < 0x80) × (c ≢ b';')

white_len-name : (c : ℕ) (s : Text) → IsNameByte c → white_len (c ∷ s) ≡ 0
unfolding white_len
white_len-name c [] h = ground arith
white_len-name c (b ∷ []) h = ground arith
white_len-name c (b ∷ (d ∷ s)) h = ground arith

take_word-name : (name rest : Text) → All IsNameByte name → take_word (name ++ (32 ∷ rest)) ≡ name
unfolding take_word
take_word-name [] rest h = unfold white_len in refl
take_word-name (c ∷ name) rest h =
    rw (white_len-name c (name ++ (32 ∷ rest)) h.0, if◌then◌else◌)
      (ap (λ s. c ∷ s) (take_word-name name rest h.1))

trim_end_matches-name : (name : Text) → All IsNameByte name → trim_end_matches b';' name ≡ name
unfolding trim_end_matches
trim_end_matches-name [] h = refl
trim_end_matches-name (c ∷ name) h = rw (trim_end_matches-name name h.1) (ground (arith, (h.0).2))

first_word-name :
    (c : ℕ) (name rest : Text)
    → All IsNameByte (c ∷ name)
    → first_word ((c ∷ name) ++ (32 ∷ rest)) ≡ some (c ∷ name)
unfolding first_word skip_white
first_word-name c name rest h =
    rw (white_len-name c (name ++ (32 ∷ rest)) h.0, if◌then◌else◌)
      (ap some (take_word-name (c ∷ name) rest h))

-- The column of a statement is the word behind the first `COLUMN `, where upper-casing finds it.
pub extract_column_name_lem :
    (up : Text → Text) (before key name rest : Text)
    → length key ≡ 7
    → All IsNameByte name
    → name ≢ []
    → find (up (before ++ (key ++ (name ++ (32 ∷ rest))))) (codes "COLUMN ") ≡ some (length before)
    → extract_column_name up (before ++ (key ++ (name ++ (32 ∷ rest)))) ≡ ok (some name)
unfolding extract_column_name str_from word_behind
extract_column_name_lem up before key [] rest hk hn some_name at = absurd (some_name refl)
extract_column_name_lem up before key (c ∷ name) rest hk hn some_name at =
    let tail = (c ∷ name) ++ (32 ∷ rest) in
    let stmt = before ++ (key ++ tail) in
    let split : stmt ≡ (before ++ key) ++ tail = sym (append_assoc before key tail) in
    let pos : length before + 7 ≡ length (before ++ key) =
      omega (arith, length-append {0} before key) in
    let after : drop (length before + 7) stmt ≡ tail =
      rw (pos, split) (drop-append (before ++ key) tail) in
    let fits : leb (length before + 7) (length stmt) ≡ true =
      ground (arith, length-append {0} before (key ++ tail), length-append {0} key tail, hk) in
    let boundary : is_boundary tail ≡ true = unfold is_boundary in ground (arith, (hn.0).1) in
    let found : str_from (length before + 7) stmt ≡ some tail =
      rw (fits, str_from) (rw (after, boundary) refl) in
    rw (at, word_behind)
      (rw (found, word_behind)
        (rw (first_word-name c name rest hn, word_behind)
          (ap (λ t. ok (some t)) (trim_end_matches-name (c ∷ name) hn))))
