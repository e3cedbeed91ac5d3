-- ===== src/Time/Conversion.antt =====
-- Ticks and durations, forth and back, without overflow.
use rp4os.Base.{
  ℕ, ◌+◌, ◌*◌, ◌/◌, ◌%◌, ◌^◌, ◌≤◌, ◌<◌, ◌≡◌, refl, ap, ◌∙◌, sym, true, false, arith, ltb, ◌==◌,
  if◌then◌else◌, u64_mod, Bool-cases, inl, inr,
}
use rp4os.Base.Outcome.{ok, err}
use rp4os.Time.{
  Duration, nanosec_per_sec, as_nanos, duration_lt, to_duration, resolution, try_from, max_counter,
}
use native.Mathlib.Nat.{
  zero-div, zero-mod, mul-add-div_right, div-add-mod', mod-lt, div-lt_iff_lt-mul, le-div_iff_mul-le,
  div-mul-le_self, lt-div-mul-add,
}

-- Multiplying before dividing, with the remainder apart.
scaled-div :
    (n f : ℕ)
    → 0 < f
    → n * nanosec_per_sec / f ≡ n / f * nanosec_per_sec + n % f * nanosec_per_sec / f
scaled-div n f pos =
    let split : n * nanosec_per_sec ≡ n / f * nanosec_per_sec * f + n % f * nanosec_per_sec =
      omega (arith, div-add-mod' n f) in
    ap (λ (t : ℕ). t / f) split
    ∙ mul-add-div_right pos (n / f * nanosec_per_sec) (n % f * nanosec_per_sec)

below_second : (n f : ℕ) → 0 < f → n % f * nanosec_per_sec / f < nanosec_per_sec
below_second n f pos =
    (div-lt_iff_lt-mul {k = f} {x = n % f * nanosec_per_sec} {y = nanosec_per_sec} pos).1
      (omega (arith, mod-lt n pos))

abbrev pub WellFormed : Duration → Type 0
WellFormed d = d.nanos < nanosec_per_sec

pub duration_lt_lem :
    (a b : Duration) → WellFormed a → WellFormed b → duration_lt a b ≡ ltb (as_nanos a) (as_nanos b)
duration_lt_lem a b ha hb = ground arith

module _ (f : ℕ) (pos : 0 < f) (narrow : f < 2 ^ 32) where
  abbrev pub duration_of : ℕ → Duration
  duration_of ticks = record { secs = ticks / f; nanos = ticks % f * nanosec_per_sec / f }

  duration_of-WellFormed : (ticks : ℕ) → WellFormed (duration_of ticks)
  duration_of-WellFormed ticks = below_second ticks f pos

  to_duration-exact : (ticks : ℕ) → to_duration f ticks ≡ ok (duration_of ticks)
  unfolding to_duration
  to_duration-exact ticks =
      let bound : ltb (ticks % f * nanosec_per_sec) (2 ^ 64) ≡ true =
        ground (arith, mod-lt ticks pos) in
      let small = below_second ticks f pos in
      let cut : ticks % f * nanosec_per_sec / f % 2 ^ 32 ≡ ticks % f * nanosec_per_sec / f =
        omega (arith, small) in
      let below : ltb (ticks % f * nanosec_per_sec / f) nanosec_per_sec ≡ true = ground arith in
      elim (Bool-cases (ticks == 0)) [
        | inl none ↦
            let start : ticks ≡ 0 = ground arith in
            rw (start, zero-div, zero-mod) (rw zero-div refl)
        | inr some ↦ rw (some, bound, cut, below) refl
      ]

  as_nanos-duration_of : (ticks : ℕ) → as_nanos (duration_of ticks) ≡ ticks * nanosec_per_sec / f
  as_nanos-duration_of ticks = sym (scaled-div ticks f pos)

  -- For a frequency of 1 to 2 ^ 32 - 1, the conversion of a counter value never overflows and gives
  -- a well-formed duration, which in nanoseconds is the value times 10 ^ 9 divided by the
  -- frequency, rounded down.
  pub to_duration_lem :
      (ticks : ℕ)
      → (d : Duration) × (to_duration f ticks ≡ ok d)
        × WellFormed d
        × (as_nanos d ≡ ticks * nanosec_per_sec / f)
  to_duration_lem ticks = (
    duration_of ticks,
    to_duration-exact ticks,
    duration_of-WellFormed ticks,
    as_nanos-duration_of ticks,
  )

  lt-duration_of :
      (d : Duration) (ticks : ℕ)
      → WellFormed d
      → duration_lt d (duration_of ticks) ≡ ltb (as_nanos d) (ticks * nanosec_per_sec / f)
  lt-duration_of d ticks w =
      duration_lt_lem d (duration_of ticks) w (duration_of-WellFormed ticks)
      ∙ ap (ltb (as_nanos d)) (as_nanos-duration_of ticks)

  duration_of-lt :
      (d : Duration) (ticks : ℕ)
      → WellFormed d
      → duration_lt (duration_of ticks) d ≡ ltb (ticks * nanosec_per_sec / f) (as_nanos d)
  duration_of-lt d ticks w =
      duration_lt_lem (duration_of ticks) d (duration_of-WellFormed ticks) w
      ∙ ap (λ (n : ℕ). ltb n (as_nanos d)) (as_nanos-duration_of ticks)

  fits-counter :
      (n : ℕ) → n ≤ max_counter * nanosec_per_sec / f → n * f ≤ max_counter * nanosec_per_sec
  fits-counter n h = (le-div_iff_mul-le {k = f} {x = n} {y = max_counter * nanosec_per_sec} pos).0 h

  -- For a frequency of 1 to 2 ^ 32 - 1, the conversion of a well-formed duration never overflows: one below the
  -- resolution is no tick, one above what the largest counter value stands for is refused, and
  -- any other is its nanoseconds times the frequency divided by 10 ^ 9, rounded down, which fits
  -- 64 bits.
  pub try_from_lem :
      (d : Duration)
      → WellFormed d
      → (try_from f d ≡ (
          if ltb (as_nanos d) (1 * nanosec_per_sec / f)
          then ok 0
          else if ltb (max_counter * nanosec_per_sec / f) (as_nanos d)
          then err "Conversion error. Duration too big"
          else ok (as_nanos d * f / nanosec_per_sec)))
        × (as_nanos d ≤ max_counter * nanosec_per_sec / f
            → as_nanos d * f / nanosec_per_sec ≤ max_counter)
  unfolding try_from resolution
  try_from_lem d w = (
    rw
        (
          to_duration-exact 1,
          to_duration-exact max_counter,
          lt-duration_of d 1 w,
          duration_of-lt d max_counter w,
        )
        (elim (Bool-cases (ltb (max_counter * nanosec_per_sec / f) (as_nanos d))) [
          | inl above ↦ rw above refl
          | inr inside ↦
              let low = fits-counter (as_nanos d) (ground arith) in
              let bound : ltb (as_nanos d * f) (2 ^ 128) ≡ true = ground arith in
              let cut : as_nanos d * f / nanosec_per_sec % u64_mod
                  ≡ as_nanos d * f / nanosec_per_sec =
                omega (arith, low) in
              rw (inside, bound, cut) refl
        ]),
    λ h. omega (arith, fits-counter (as_nanos d) h),
  )

  scaled-monotone : (a b : ℕ) → a ≤ b → a * nanosec_per_sec / f ≤ b * nanosec_per_sec / f
  scaled-monotone a b h =
      (le-div_iff_mul-le {k = f} {x = a * nanosec_per_sec / f} {y = b * nanosec_per_sec} pos).1
        (omega (arith, div-mul-le_self (a * nanosec_per_sec) f))

  -- For a frequency of at most 10 ^ 9, a counter value of 64 bits that goes to a duration and
  -- back comes back as itself or as one tick less.
  pub try_from-to_duration :
      (ticks : ℕ)
      → f ≤ nanosec_per_sec
      → ticks ≤ max_counter
      → (d : Duration) × (back : ℕ) × (to_duration f ticks ≡ ok d)
        × (try_from f d ≡ ok back)
        × (back ≤ ticks)
        × (ticks ≤ back + 1)
  try_from-to_duration ticks slow fits =
      let d = duration_of ticks in
      let converted = (try_from_lem d (duration_of-WellFormed ticks)).0 in
      let length = as_nanos-duration_of ticks in
      let high : ltb (max_counter * nanosec_per_sec / f) (ticks * nanosec_per_sec / f) ≡ false =
        ground (arith, scaled-monotone ticks max_counter fits) in
      let lower = div-mul-le_self (ticks * nanosec_per_sec) f in
      let upper = lt-div-mul-add {a = ticks * nanosec_per_sec} {b = f} pos in
      let short_tick : ltb (ticks * nanosec_per_sec / f) (1 * nanosec_per_sec / f) ≡ true
          → ticks ≤ 1 =
        λ short. elim (Bool-cases (ltb 1 ticks)) [
          | inl more ↦ absurd (ground (arith, scaled-monotone 1 ticks (ground arith)))
          | inr less ↦ ground arith
        ] in
      elim (Bool-cases (ltb (ticks * nanosec_per_sec / f) (1 * nanosec_per_sec / f))) [
        | inl short ↦ (
          d,
          0,
          to_duration-exact ticks,
          rw (converted, length, short) refl,
          omega arith,
          short_tick short,
        )
        | inr long ↦ (
          d,
          ticks * nanosec_per_sec / f * f / nanosec_per_sec,
          to_duration-exact ticks,
          rw (converted, length, long, high) refl,
          omega (arith, lower),
          omega (arith, upper),
        )
      ]
