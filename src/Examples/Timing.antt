-- ===== src/Examples/Timing.antt =====
-- A counter at 54 MHz, and one tick for every third read.
use rp4os.Base.{ℕ, suc, ◌+◌, ◌*◌, ◌/◌, ◌≤◌, ◌≡◌, refl, arith, ltb, if◌then◌else◌}
use rp4os.Base.Outcome.{ok, err}
use rp4os.Time.{Duration, nanosec_per_sec, as_nanos, to_duration, try_from, max_counter, spin_for}
use rp4os.Time.Conversion.{WellFormed, to_duration_lem, try_from_lem, try_from-to_duration}
use rp4os.Time.Spin.{First, spin_for-First, spin_for-wraps}

abbrev frequency : ℕ
frequency = 54_000_000

-- One second and a half.
to_duration_lem_example :
    (d : Duration) × (to_duration frequency 81_000_000 ≡ ok d)
    × WellFormed d
    × (as_nanos d ≡ 1_500_000_000)
to_duration_lem_example = to_duration_lem frequency (omega arith) (omega arith) 81_000_000

abbrev microsecond : Duration
microsecond = record { secs = 0; nanos = 1_000 }

try_from_lem_example :
    (try_from frequency microsecond ≡ (
      if ltb (as_nanos microsecond) (1 * nanosec_per_sec / frequency)
      then ok 0
      else if ltb (max_counter * nanosec_per_sec / frequency) (as_nanos microsecond)
      then err "Conversion error. Duration too big"
      else ok (as_nanos microsecond * frequency / nanosec_per_sec)))
    × (as_nanos microsecond ≤ max_counter * nanosec_per_sec / frequency
        → as_nanos microsecond * frequency / nanosec_per_sec ≤ max_counter)
try_from_lem_example = try_from_lem frequency (omega arith) (omega arith) microsecond (omega arith)

try_from-to_duration_example :
    (d : Duration) × (back : ℕ) × (to_duration frequency 81_000_001 ≡ ok d)
    × (try_from frequency d ≡ ok back)
    × (back ≤ 81_000_001)
    × (81_000_001 ≤ back + 1)
try_from-to_duration_example =
    try_from-to_duration frequency (omega arith) (omega arith) 81_000_001 (omega arith)
      (omega arith)

abbrev every_third : ℕ → ℕ
every_third i = 1_000 + i / 3

one_microsecond : try_from frequency microsecond ≡ ok 54
unfolding try_from
one_microsecond = refl

spin_for-First_example :
    (last : ℕ) × (spin_for every_third frequency 200 microsecond 0 ≡ (ok tt, suc last))
    × First every_third (1_000 + 54) 1 last
spin_for-First_example =
    spin_for-First every_third frequency microsecond 54 0 one_microsecond 3 200 (omega arith)
      (omega arith) (λ i h. omega arith) (omega arith)

-- The longest duration that is accepted, on a counter that has been running.
abbrev longest : Duration
longest = record { secs = 341606371735; nanos = 362066944 }

accepted : try_from frequency longest ≡ ok 18446744073709551614
unfolding try_from
accepted = refl

spin_for-wraps_example : spin_for every_third frequency 1 longest 0 ≡ (ok tt, 2)
spin_for-wraps_example =
    spin_for-wraps every_third frequency longest 18446744073709551614 0 accepted 0 (omega arith)
      (omega arith) (omega arith) (omega arith)
