-- ===== src/Time/Spin.antt =====
-- `spin_for` of src/arch/aarch64/time.rs: when it ends, and what it has waited for.
use rp4os.Base.{
  ℕ, zero, suc, ◌+◌, ◌*◌, ◌%◌, ◌≤◌, ◌<◌, ◌≡◌, refl, ap, false, arith, ltb, ◌==◌, ◌≢◌, Bool-cases,
  inl, inr, u64_mod,
}
use rp4os.Base.Outcome.{ok}
use rp4os.Time.{Duration, try_from, add, wait_until, start_wait, spin_for}

module _ (cntpct : ℕ → ℕ) where
  -- The read of number `last` is the first one from `at` on that is not below the target.
  abbrev pub First : ℕ → ℕ → ℕ → Type 0
  First timer_target at last =
      (at ≤ last)
      × (timer_target ≤ cntpct last)
      × ((i : ℕ) → at ≤ i → i < last → cntpct i < timer_target)

  wait_until-First :
      (timer_target fuel at stop : ℕ)
      → at ≤ stop
      → stop < at + fuel
      → timer_target ≤ cntpct stop
      → (last : ℕ) × (wait_until cntpct timer_target fuel at ≡ (ok tt, suc last))
        × First timer_target at last
  unfolding wait_until
  wait_until-First timer_target zero at stop low high reached = absurd (omega arith)
  wait_until-First timer_target (suc fuel) at stop low high reached =
      elim (Bool-cases (ltb (cntpct at) timer_target)) [
        | inl early ↦
            let apart : at ≢ stop = λ e. ground (arith, ap cntpct e) in
            let (last, e, first) =
              wait_until-First timer_target fuel (suc at) stop (omega arith) (omega arith)
                reached in
            (
              last,
              rw early e,
              (
                omega (arith, first.0),
                first.1,
                λ i from until. elim (Bool-cases (at == i)) [
                  | inl same ↦ let here : at ≡ i = ground arith in ground (arith, ap cntpct here)
                  | inr later ↦ first.2 i (ground arith) until
                ],
              ),
            )
        | inr late ↦
            (at, rw late refl, (omega arith, ground arith, λ i from until. absurd (omega arith)))
      ]

  advanced :
      (period from ticks : ℕ)
      → 0 < period
      → ((i : ℕ) → i < from + ticks * period → cntpct i < cntpct (i + period))
      → cntpct from + ticks ≤ cntpct (from + ticks * period)
  advanced period from zero pos moves =
      let same : from + 0 * period ≡ from = omega arith in rw same (omega arith)
  advanced period from (suc ticks) pos moves =
      let same : from + suc ticks * period ≡ from + ticks * period + period = omega arith in
      let before = advanced period from ticks pos (λ i h. moves i (omega arith)) in
      rw same (omega (arith, before, moves (from + ticks * period) (omega arith)))

  module _ (frequency : ℕ) (duration : Duration) (ticks at : ℕ)
      (converted : try_from frequency duration ≡ ok ticks) where
    -- When the counter moves on at least once in every `period` reads, a wait whose target does not
    -- exceed 64 bits ends, within one period of reads for each tick and one more period: at the
    -- first read that is not below the value read at the start plus the ticks of the duration.
    pub spin_for-First :
        (period fuel : ℕ)
        → 0 < period
        → suc ticks * period ≤ fuel
        → ((i : ℕ) → i < at + suc ticks * period → cntpct i < cntpct (i + period))
        → cntpct at + ticks < u64_mod
        → (last : ℕ) × (spin_for cntpct frequency fuel duration at ≡ (ok tt, suc last))
          × First (cntpct at + ticks) (suc at) last
    unfolding spin_for start_wait add
    spin_for-First period fuel pos enough moves fits =
        let timer_target : (cntpct at + ticks) % u64_mod ≡ cntpct at + ticks = omega arith in
        rw (converted, timer_target)
          (wait_until-First (cntpct at + ticks) fuel (suc at) (at + suc ticks * period)
            (omega arith) (omega arith) (omega (arith, advanced period at (suc ticks) pos moves)))

    -- A wait whose target exceeds 64 bits ends at the first read, whatever the duration: the target
    -- wraps around below the value read at the start.
    pub spin_for-wraps :
        (fuel : ℕ)
        → cntpct at < u64_mod
        → ticks < u64_mod
        → u64_mod ≤ cntpct at + ticks
        → cntpct at ≤ cntpct (suc at)
        → spin_for cntpct frequency (suc fuel) duration at ≡ (ok tt, suc (suc at))
    unfolding spin_for start_wait add wait_until
    spin_for-wraps fuel low short over on =
        let late : ltb (cntpct (suc at)) ((cntpct at + ticks) % u64_mod) ≡ false = ground arith in
        rw (converted, late) refl
