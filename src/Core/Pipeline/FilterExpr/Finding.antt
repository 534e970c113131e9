-- ===== src/Core/Pipeline/FilterExpr/Finding.antt =====
-- Searching and trimming texts of words and operators.
use nendi.Common.{
  append-nil, ℕ, ◌<◌, ◌≡◌, ◌≢◌, refl, sym, ap, ◌∙◌, arith, true, false, none, some, [], ◌∷◌, ◌++◌,
  Text, All, length, starts_with, if◌then◌else◌,
}
use nendi.Common.Whitespace.{white_len, skip_white, trim_end, trim, find}

-- No white space, no semicolon or comma, no character of an operator; ASCII.
pub record IsWordByte (c : ℕ) : Type 0 where
  pub printable : 32 < c
  pub ascii : c < 0x80
  pub no_semicolon : c ≢ b';'
  pub no_comma : c ≢ b','
  pub no_bang : c ≢ b'!'
  pub no_less : c ≢ b'<'
  pub no_equals : c ≢ b'='
  pub no_greater : c ≢ b'>'

abbrev pub Lacks : ℕ → Text → Type 0
Lacks p s = All (λ c. c ≢ p) s

pub find_here :
    (p : ℕ) (ps xs ys : Text)
    → Lacks p xs
    → starts_with ys (p ∷ ps) ≡ true
    → find (xs ++ ys) (p ∷ ps) ≡ some (length xs)
unfolding find
find_here p ps [] [] h at = unfold starts_with in cc
find_here p ps [] (y ∷ ys) h at = rw at refl
find_here p ps (x ∷ xs) ys h at =
    let not_here : starts_with (x ∷ (xs ++ ys)) (p ∷ ps) ≡ false =
      unfold starts_with in ground (arith, h.0) in
    rw (not_here, if◌then◌else◌) (rw (find_here p ps xs ys h.1 at) refl)

pub find_past :
    (p : ℕ) (ps xs ys : Text)
    → Lacks p xs
    → find ys (p ∷ ps) ≡ none
    → find (xs ++ ys) (p ∷ ps) ≡ none
unfolding find
find_past p ps [] ys h past = past
find_past p ps (x ∷ xs) ys h past =
    let not_here : starts_with (x ∷ (xs ++ ys)) (p ∷ ps) ≡ false =
      unfold starts_with in ground (arith, h.0) in
    rw (not_here, if◌then◌else◌) (rw (find_past p ps xs ys h.1 past) refl)

pub find-none : (p : ℕ) (ps xs : Text) → Lacks p xs → find xs (p ∷ ps) ≡ none
unfolding find starts_with
find-none p ps [] h = refl
find-none p ps (x ∷ xs) h = rw (find-none p ps xs h.1) (ground (arith, h.0))

-- Printable bytes of ASCII.
abbrev pub IsPrintable : Text → Type 0
IsPrintable s = All (λ c. (32 < c) × (c < 0x80)) s

white_len-printable : (c : ℕ) (s : Text) → (32 < c) × (c < 0x80) → white_len (c ∷ s) ≡ 0
unfolding white_len
white_len-printable c [] h = ground arith
white_len-printable c (b ∷ []) h = ground arith
white_len-printable c (b ∷ (d ∷ s)) h = ground arith

skip_white-printable : (c : ℕ) (s : Text) → (32 < c) × (c < 0x80) → skip_white 0 (c ∷ s) ≡ c ∷ s
unfolding skip_white
skip_white-printable c s h = rw (white_len-printable c s h, if◌then◌else◌) refl

trim_end-printable : (c : ℕ) (s : Text) → (32 < c) × (c < 0x80) → trim_end (c ∷ s) ≡ c ∷ trim_end s
unfolding trim_end
trim_end-printable c s h = rw (skip_white-printable c s h, trim_end) refl

skip_white-blank : (s : Text) → skip_white 0 (32 ∷ s) ≡ skip_white 0 s
unfolding skip_white white_len
skip_white-blank s = refl

-- A blank between printable characters stays.
trim_end-blank :
    (c : ℕ) (s : Text) → (32 < c) × (c < 0x80) → trim_end (32 ∷ (c ∷ s)) ≡ 32 ∷ trim_end (c ∷ s)
unfolding trim_end
trim_end-blank c s h = rw (skip_white-blank (c ∷ s) ∙ skip_white-printable c s h, trim_end) refl

pub trim_end-append : (xs ys : Text) → IsPrintable xs → trim_end (xs ++ ys) ≡ xs ++ trim_end ys
trim_end-append [] ys h = refl
trim_end-append (x ∷ xs) ys h =
    trim_end-printable x (xs ++ ys) h.0 ∙ ap (λ s. x ∷ s) (trim_end-append xs ys h.1)

pub trim_end-word : (xs : Text) → IsPrintable xs → trim_end xs ≡ xs
trim_end-word xs h =
    ap trim_end (sym (append-nil xs)) ∙ trim_end-append xs [] h ∙ unfold trim_end in append-nil xs

-- A word with a blank behind it, or in front.
pub trim-word_blank : (xs : Text) → IsPrintable xs → trim (xs ++ (32 ∷ [])) ≡ xs
unfolding trim
trim-word_blank [] h = unfold skip_white trim_end white_len in refl
trim-word_blank (x ∷ xs) h = rw (skip_white-printable x (xs ++ (32 ∷ [])) h.0) (
    trim_end-append (x ∷ xs) (32 ∷ []) h
    ∙ unfold trim_end skip_white white_len in append-nil (x ∷ xs))

pub trim-blank_word : (xs : Text) → IsPrintable xs → trim (32 ∷ xs) ≡ xs
unfolding trim
trim-blank_word [] h = unfold skip_white trim_end white_len in refl
trim-blank_word (x ∷ xs) h =
    rw (skip_white-blank (x ∷ xs) ∙ skip_white-printable x xs h.0) (trim_end-word (x ∷ xs) h)

pub trim-word : (xs : Text) → IsPrintable xs → trim xs ≡ xs
unfolding trim
trim-word [] h = unfold skip_white trim_end in refl
trim-word (x ∷ xs) h = rw (skip_white-printable x xs h.0) (trim_end-word (x ∷ xs) h)

-- Three words with single blanks between them, and one in front.
pub trim-three_words :
    (a b c : ℕ) (as' bs cs : Text)
    → IsPrintable (a ∷ as')
    → IsPrintable (b ∷ bs)
    → IsPrintable (c ∷ cs)
    → trim (32 ∷ ((a ∷ as') ++ (32 ∷ ((b ∷ bs) ++ (32 ∷ (c ∷ cs))))))
      ≡ (a ∷ as') ++ (32 ∷ ((b ∷ bs) ++ (32 ∷ (c ∷ cs))))
unfolding trim
trim-three_words a b c as' bs cs ha hb hc =
    let last : trim_end (32 ∷ (c ∷ cs)) ≡ 32 ∷ (c ∷ cs) =
      trim_end-blank c cs hc.0 ∙ ap (λ s. 32 ∷ s) (trim_end-word (c ∷ cs) hc) in
    let middle : trim_end (32 ∷ ((b ∷ bs) ++ (32 ∷ (c ∷ cs))))
        ≡ 32 ∷ ((b ∷ bs) ++ (32 ∷ (c ∷ cs))) =
      trim_end-blank b (bs ++ (32 ∷ (c ∷ cs))) hb.0
      ∙ ap (λ s. 32 ∷ s)
          (trim_end-append (b ∷ bs) (32 ∷ (c ∷ cs)) hb ∙ ap (λ s. (b ∷ bs) ++ s) last) in
    rw
      (skip_white-blank ((a ∷ as') ++ (32 ∷ ((b ∷ bs) ++ (32 ∷ (c ∷ cs)))))
        ∙ skip_white-printable a (as' ++ (32 ∷ ((b ∷ bs) ++ (32 ∷ (c ∷ cs))))) ha.0)
      (trim_end-append (a ∷ as') (32 ∷ ((b ∷ bs) ++ (32 ∷ (c ∷ cs)))) ha
        ∙ ap (λ s. (a ∷ as') ++ s) middle)
