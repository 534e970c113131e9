-- ===== src/Core/Backpressure/Gate/Race.antt =====
-- The gate as several threads use it: their accesses interleave.
use nendi.Common.{ℕ, ◌≡◌, refl, false, none, some, List, [], ◌∷◌, get_elem?, set}
use nendi.Core.Backpressure.Gate.{PauseReason, BackpressureGate, Access, access, close, open_gate}

-- A thread is the accesses that it has still to make.
pub record Shared : Type 0 where
  pub gate : BackpressureGate
  pub threads : List (List Access)

pub data Step (s : Shared) : Shared → Type 0 where
  next_access :
      (i : ℕ) (a : Access) (rest : List Access)
      → get_elem? s.threads i ≡ some (a ∷ rest)
      → Step s (record { gate = access a s.gate; threads = set s.threads i rest })

pub data Reach (s : Shared) : Shared → Type 0 where
  here : Reach s s
  next : {t u : Shared} → Reach s t → Step t u → Reach s u

abbrev pub close_and_open : PauseReason → BackpressureGate → Shared
close_and_open r g = record { gate = g; threads = close r ∷ (open_gate ∷ []) }

-- A close and an opening at the same time can both finish and leave the gate closed with no reason.
pub close_and_open_no_reason :
    (r : PauseReason) (g : BackpressureGate)
    → (s : Shared) × Reach (close_and_open r g) s
      × (s.threads ≡ [] ∷ ([] ∷ []))
      × (s.gate.is_open ≡ false)
      × (s.gate.reason ≡ none)
unfolding close open_gate access
close_and_open_no_reason r g = (
  _,
  next
      (next
        (next (next (next here (next_access 1 _ _ refl)) (next_access 0 _ _ refl))
          (next_access 0 _ _ refl))
        (next_access 0 _ _ refl))
      (next_access 1 _ _ refl),
  refl,
  refl,
  refl,
)
