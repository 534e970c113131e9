-- ===== src/Core/Offset/Tests.antt =====
-- The offset registry's theorems at concrete consumers.
use nendi.Common.{◌≡◌, ◌≤◌, ◌<◌, refl, arith, some, [], ◌∷◌, All, Text, codes, lookup}
use nendi.Shared.Lsn.{Lsn, max_lsn}
use nendi.Core.Offset.{OffsetRegistry, get, min_offset}
use nendi.Core.Offset.Commits.{run_commits, highest, get-run_commits, min_offset_glb}
use nendi.Core.Offset.Race.{Shared, Reach, two_commits, answered_ok, two_commits_regress}

abbrev billing : Text
billing = codes "billing"

abbrev audit : Text
audit = codes "audit"

abbrev two_consumers : OffsetRegistry
two_consumers = (billing, 40) ∷ (audit, 70) ∷ []

get-run_commits_example :
    get audit (run_commits ((audit, 60) ∷ (billing, 90) ∷ (audit, 80) ∷ []) two_consumers)
    ≡ highest audit ((audit, 60) ∷ (billing, 90) ∷ (audit, 80) ∷ []) (get audit two_consumers)
get-run_commits_example =
    get-run_commits audit ((audit, 60) ∷ (billing, 90) ∷ (audit, 80) ∷ []) two_consumers

min_offset_glb_example :
    All (λ p. min_offset two_consumers ≤ p.1) two_consumers
    × ((d : Lsn) → d < max_lsn → All (λ p. d ≤ p.1) two_consumers → d ≤ min_offset two_consumers)
min_offset_glb_example = min_offset_glb two_consumers (λ e. cc) (omega arith)

two_commits_regress_example :
    (s : Shared) × Reach (two_commits billing 100 200 []) s
    × (s.threads ≡ answered_ok ∷ answered_ok ∷ [])
    × (get billing s.registry ≡ some 100)
two_commits_regress_example =
    two_commits_regress billing 100 200 [] (omega arith) (unfold get lookup in refl)
