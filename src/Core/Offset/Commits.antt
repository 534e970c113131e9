-- ===== src/Core/Offset/Commits.antt =====
-- Sequences of commits, and the watermark that they lead to.
use nendi.Common.{
  ◌<◌, ◌≤◌, ◌≡◌, ◌≢◌, refl, arith, Option, none, some, List, [], ◌∷◌, Text, All, ltb, max, ◌==◌,
  ◌∙◌, if◌then◌else◌, lookup, lookup-insert, lookup-All, text_eq_iff, text_eq, text_eq_instance,
  Option-cases, inl, inr,
}
use nendi.Common.Cursor.{ok, err, panic}
use nendi.Shared.Lsn.{Lsn, max_lsn, is_ahead_of}
use nendi.Core.Offset.{OffsetRegistry, get, regression, commit, min_loop, min_offset}

-- The registry after a commit, successful or not.
pub after_commit : Text → Lsn → OffsetRegistry → OffsetRegistry
after_commit c lsn r = elim (commit c lsn r) [ ok r' ↦ r' | err _ ↦ r | panic ↦ r ]

pub run_commits : List (Text × Lsn) → OffsetRegistry → OffsetRegistry
run_commits [] r = r
run_commits ((c, lsn) ∷ cs) r = run_commits cs (after_commit c lsn r)

-- The highest LSN offered for `c`, from an offset that was there before.
pub raise : Option Lsn → Lsn → Option Lsn
raise none lsn = some lsn
raise (some o) lsn = some (max o lsn)

pub highest : Text → List (Text × Lsn) → Option Lsn → Option Lsn
highest c [] o = o
highest c ((d, lsn) ∷ cs) o = highest c cs (if text_eq d c then raise o lsn else o)

get-after_commit :
    (c d : Text) (lsn : Lsn) (r : OffsetRegistry)
    → get c (after_commit d lsn r) ≡ (if text_eq d c then raise (get c r) lsn else get c r)
unfolding after_commit commit regression get raise is_ahead_of
get-after_commit c d lsn r = elim (Option-cases (lookup d r)) [
  | inl e ↦ ground (arith, lookup-insert d c lsn r, text_eq_iff d c)
  | inr (o, e) ↦ ground (arith, lookup-insert d c lsn r, text_eq_iff d c)
]

-- After any commits, in any order and for any consumers, the offset of each consumer is the highest
-- LSN that was offered for it or that it had: rejected commits change nothing, and no accepted one
-- takes an offset back.
pub get-run_commits :
    (c : Text) (cs : List (Text × Lsn)) (r : OffsetRegistry)
    → get c (run_commits cs r) ≡ highest c cs (get c r)
unfolding run_commits highest
get-run_commits c [] r = refl
get-run_commits c ((d, lsn) ∷ cs) r =
    get-run_commits c cs (after_commit d lsn r) ∙ rw get-after_commit

min_loop-le :
    (least : Lsn) (r : OffsetRegistry)
    → (min_loop least r ≤ least) × All (λ p. min_loop least r ≤ p.1) r
unfolding min_loop
min_loop-le least [] = (omega arith, tt)
min_loop-le least ((c, lsn) ∷ r) =
    let (low, all) = min_loop-le (if ltb lsn least then lsn else least) r in
    (ground (arith, low), (ground (arith, low), all))

min_loop-greatest :
    (d least : Lsn) (r : OffsetRegistry) → d ≤ least → All (λ p. d ≤ p.1) r → d ≤ min_loop least r
unfolding min_loop
min_loop-greatest d least [] h all = h
min_loop-greatest d least ((c, lsn) ∷ r) h all =
    min_loop-greatest d (if ltb lsn least then lsn else least) r (ground (arith, all.0)) all.1

min_loop-below :
    (least : Lsn) (r : OffsetRegistry)
    → r ≢ []
    → All (λ p. p.1 < max_lsn) r
    → min_loop least r < max_lsn
min_loop-below least [] h all = absurd (h refl)
min_loop-below least ((c, lsn) ∷ r) h all =
    omega (arith, (min_loop-le least ((c, lsn) ∷ r)).1.0, all.0)

-- The watermark of consumers of which none is at `Lsn::MAX` is the greatest lower bound of their
-- offsets.
pub min_offset_glb :
    (r : OffsetRegistry)
    → r ≢ []
    → All (λ p. p.1 < max_lsn) r
    → All (λ p. min_offset r ≤ p.1) r
      × ((d : Lsn) → d < max_lsn → All (λ p. d ≤ p.1) r → d ≤ min_offset r)
unfolding min_offset
min_offset_glb r some_consumer below =
    let low = min_loop-below max_lsn r some_consumer below in
    let plain : (if min_loop max_lsn r == max_lsn then 0 else min_loop max_lsn r)
        ≡ min_loop max_lsn r =
      ground (arith, low) in
    rw plain ((min_loop-le max_lsn r).1, λ d h all. min_loop-greatest d max_lsn r (omega arith) all)

-- The watermark never passes the offset of a consumer that has one.
pub min_offset-le : (c : Text) (r : OffsetRegistry) {o : Lsn} → get c r ≡ some o → min_offset r ≤ o
unfolding min_offset get
min_offset-le c r {o} h =
    let low : min_loop max_lsn r ≤ o =
      lookup-All (λ p. min_loop max_lsn r ≤ p.1) c r (min_loop-le max_lsn r).1 h in
    ground (arith, low)
