-- ===== src/Time.antt =====
-- The timer of src/arch/aarch64/time.rs: counter ticks, durations, and the wait. The counter's
-- frequency is an argument, which the boot code puts into ARCH_TIMER_COUNTER_FREQUENCY.
pub mod Conversion
pub mod Spin
use rp4os.Base.{
  ℕ, zero, suc, ◌+◌, ◌-◌, ◌*◌, ◌/◌, ◌%◌, ◌^◌, Bool, ltb, ◌==◌, ◌&&◌, ◌||◌, if◌then◌else◌, u64_mod,
  wrapping_add,
}
use rp4os.Base.Outcome.{Outcome, ok, err, panic, ◌>>=◌, unfinished}

-- `core::time::Duration`, with its order and its length in nanoseconds.
pub record Duration : Type 0 where
  pub secs : ℕ
  pub nanos : ℕ

abbrev pub nanosec_per_sec : ℕ
nanosec_per_sec = 1_000_000_000

abbrev pub as_nanos : Duration → ℕ
as_nanos d = d.secs * nanosec_per_sec + d.nanos

abbrev pub duration_lt : Duration → Duration → Bool
duration_lt a b = ltb a.secs b.secs || (a.secs == b.secs && ltb a.nanos b.nanos)

-- `Duration::new`, which carries whole seconds over.
abbrev pub duration_new : ℕ → ℕ → Outcome Duration
duration_new secs nanos =
    let carried = secs + nanos / nanosec_per_sec in
    if ltb nanos nanosec_per_sec
    then ok (record { secs = secs; nanos = nanos })
    else if ltb carried u64_mod
    then ok (record { secs = carried; nanos = nanos % nanosec_per_sec })
    else panic "overflow in Duration::new"

-- `unchecked_mul` on integers of so many bits; an overflow is undefined behaviour.
abbrev pub unchecked_mul : ℕ → ℕ → ℕ → Outcome ℕ
unchecked_mul bits a b = if ltb (a * b) (2 ^ bits) then ok (a * b) else panic "undefined behaviour"

-- `TimerCounter::MAX`.
abbrev pub max_counter : ℕ
max_counter = u64_mod - 1

module _ (frequency : ℕ) where
  -- `From<TimerCounter> for Duration`.
  unfoldable pub to_duration : ℕ → Outcome Duration
  to_duration timer =
      let secs = timer / frequency in
      let sub_second_counter_value = timer % frequency in
      if timer == 0
      then ok (record { secs = 0; nanos = 0 })
      else unchecked_mul 64 sub_second_counter_value nanosec_per_sec >>= λ product.
          duration_new secs (product / frequency % 2 ^ 32)

  unfoldable pub resolution : Outcome Duration
  unfolding to_duration
  resolution = to_duration 1

  -- `TryFrom<Duration> for TimerCounter`.
  unfoldable pub try_from : Duration → Outcome ℕ
  unfolding resolution to_duration
  try_from duration = resolution >>= λ shortest.
      if duration_lt duration shortest
      then ok 0
      else to_duration max_counter >>= λ longest.
          if duration_lt longest duration
          then err "Conversion error. Duration too big"
          else unchecked_mul 128 (as_nanos duration) frequency >>= λ product.
              ok (product / nanosec_per_sec % u64_mod)

-- `Add for TimerCounter`.
unfoldable pub add : ℕ → ℕ → ℕ
add timer other = wrapping_add timer other

-- CNTPCT_EL0 as it is read, read after read, and the number of the next read.
module _ (cntpct : ℕ → ℕ) where
  unfoldable pub uptime : ℕ → ℕ → Outcome Duration × ℕ
  unfolding to_duration
  uptime frequency at = (to_duration frequency (cntpct at), suc at)

  -- `while from_cntpct_direct() < timer_target {}`, for at most so many reads.
  pub wait_until : ℕ → ℕ → ℕ → Outcome (Unit {0}) × ℕ
  wait_until timer_target zero at = (unfinished, at)
  wait_until timer_target (suc fuel) at =
      let later = wait_until timer_target fuel (suc at) in
      if ltb (cntpct at) timer_target then later else (ok tt, suc at)

  start_wait : ℕ → ℕ → Outcome ℕ → ℕ → Outcome (Unit {0}) × ℕ
  start_wait curr_timer fuel (ok duration) at = wait_until (add curr_timer duration) fuel at
  start_wait curr_timer fuel (err e) at = (err e, at)
  start_wait curr_timer fuel (panic e) at = (panic e, at)
  start_wait curr_timer fuel unfinished at = (unfinished, at)

  unfoldable pub spin_for : ℕ → ℕ → Duration → ℕ → Outcome (Unit {0}) × ℕ
  unfolding try_from start_wait wait_until
  spin_for frequency fuel duration at =
      start_wait (cntpct at) fuel (try_from frequency duration) (suc at)
