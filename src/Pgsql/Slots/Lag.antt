-- ===== src/Pgsql/Slots/Lag.antt =====
-- What a lag leads to.
use nendi.Common.{
  false, true, ◌==◌, ℕ, zero, suc, ◌*◌, ◌/◌, ◌^◌, ◌<◌, ◌≤◌, ◌≡◌, inl, inr, refl, ◌∙◌, ap, arith,
  Bool, not, ◌&&◌, Bool-cases, ltb, if◌then◌else◌,
}
use nendi.Common.Float.{to_f64, to_f64-near, to_f64-small, to_f64-below}
use nendi.Pgsql.Slots.{
  can_resume, should_pause, LagStatus, within, warning, critical, new, above_warning, evaluate,
}

-- The status by whole numbers: a warning above 85 percent of the cap.
unfoldable pub status_of : ℕ → ℕ → LagStatus
status_of lag cap =
    if ltb cap lag
    then critical lag cap
    else if ltb (17 * cap) (20 * lag)
    then warning lag cap
    else within lag

-- The product for 85 percent of the cap, `20 * t` bytes, is rounded up to it.
product-exact : (t : ℕ) → 20 * t < 2 ^ 48 → to_f64 (20 * t * 7656119366529843) ≡ 17 * t * 2 ^ 53
product-exact zero h = to_f64-small 0 (omega arith)
product-exact (suc t) h =
    to_f64-below (17 * suc t) (4 * suc t) (20 * suc t * 7656119366529843) (omega arith)
      (omega arith) (omega arith) (omega arith)

-- The comparison in floating point is the one by whole numbers.
above_warning_lem :
    (lag cap : ℕ)
    → cap < 2 ^ 48
    → lag ≤ cap
    → above_warning lag (new cap) ≡ ltb (17 * cap) (20 * lag)
unfolding above_warning new
above_warning_lem lag cap h le =
    let exact = to_f64-small cap (omega arith) in
    let exact_lag = to_f64-small lag (omega arith) in
    let near = to_f64-near (cap * 7656119366529843) in
    rw (exact, exact_lag)
      (elim (Bool-cases (20 * lag == 17 * cap)) [
        | inr apart ↦ ground (arith, near)
        | inl just ↦
            let t : ℕ = cap / 20 in
            let whole : cap ≡ 20 * t = ground arith in
            let product : to_f64 (cap * 7656119366529843) ≡ 17 * t * 2 ^ 53 =
              ap (λ c. to_f64 (c * 7656119366529843)) whole ∙ product-exact t (omega arith) in
            rw product (ground arith)
      ])

pub is_critical : LagStatus → Bool
is_critical (within _) = false
is_critical (warning _ _) = false
is_critical (critical _ _) = true

pub is_within : LagStatus → Bool
is_within (within _) = true
is_within (warning _ _) = false
is_within (critical _ _) = false

-- What the three functions of a policy say of one lag.
pub record Answers (lag cap : ℕ) : Type 0 where
  pub status : evaluate lag (new cap) ≡ status_of lag cap
  pub paused : should_pause lag (new cap) ≡ is_critical (evaluate lag (new cap))
  pub resumed : can_resume lag (new cap) && not (is_within (evaluate lag (new cap))) ≡ false

-- For a cap below 2 ^ 48 bytes, a lag is critical if it is above the cap, a warning if it is not but
-- is above 85 percent of the cap, and within bounds otherwise: the rounding of the threshold and of
-- the comparison in floating point makes no difference. Replication is to pause exactly for a critical
-- lag, and may resume only for one within bounds.
pub evaluate_lem : (lag cap : ℕ) → cap < 2 ^ 48 → Answers lag cap
unfolding evaluate status_of new should_pause can_resume is_critical is_within
evaluate_lem lag cap h = elim (Bool-cases (ltb cap lag)) [
  | inl above ↦ record {
    status = rw above refl;
    paused = rw above refl;
    resumed = rw above (ground arith);
  }
  | inr below ↦
      let same = above_warning_lem lag cap h (ground arith) in
      record {
        status = rw (below, same) refl;
        paused = rw (below, same) (ground arith);
        resumed = rw (below, same) (ground arith);
      }
]
