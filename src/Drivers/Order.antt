-- ===== src/Drivers/Order.antt =====
-- The order in which src/driver.rs brings drivers up.
use mathlib.Core.List.{append-nil, append_assoc}
use rp4os.Base.{
  ℕ, zero, suc, ◌+◌, ◌≡◌, refl, ap, ◌∙◌, none, some, List, [], ◌∷◌, ◌++◌, map, length,
  length-append, get_elem?, set, replicate, arith,
}
use rp4os.Base.Outcome.{Outcome, ok, panic}
use rp4os.Base.Exec.{Exec, pure, ◌>>◌}
use rp4os.Sync.{Machine}
use rp4os.Sync.Locks.{Starting, write-Starting}
use rp4os.Drivers.{
  num_drivers, DeviceDriverDescriptor, DriverManagerInner, new, put_descriptor, register_driver,
  for_each_descriptor, start_up, enable_irq, init_drivers_and_irqs,
}

module _ {W : Type 0} where
  -- The manager with these drivers registered, and `free` slots left.
  abbrev pub holding : List (DeviceDriverDescriptor W) → ℕ → DriverManagerInner W
  holding ds free = record {
    next_index = length ds;
    descriptors = map some ds ++ replicate free none;
  }

  abbrev pub with_drivers :
      DriverManagerInner W → Machine (DriverManagerInner W) → Machine (DriverManagerInner W)
  with_drivers inner m = record m { shared = inner }

  next_slot :
      (ds : List (DeviceDriverDescriptor W)) (free : ℕ)
      → get_elem? (map some ds ++ replicate (suc free) none) (length ds) ≡ some none
  next_slot [] free = refl
  next_slot (d ∷ ds) free = next_slot ds free

  past_end :
      (ds : List (DeviceDriverDescriptor W))
      → get_elem? (map some ds ++ replicate 0 none) (length ds) ≡ none
  past_end [] = refl
  past_end (d ∷ ds) = past_end ds

  set-next_slot :
      (ds : List (DeviceDriverDescriptor W)) (free : ℕ) (d : DeviceDriverDescriptor W)
      → set (map some ds ++ replicate (suc free) none) (length ds) (some d)
        ≡ map some (ds ++ d ∷ []) ++ replicate free none
  set-next_slot [] free d = refl
  set-next_slot (e ∷ ds) free d = ap (λ xs. some e ∷ xs) (set-next_slot ds free d)

  put-free :
      (ds : List (DeviceDriverDescriptor W)) (free : ℕ) (d : DeviceDriverDescriptor W)
      (inner : DriverManagerInner W)
      → length ds + suc free ≡ num_drivers
      → inner ≡ holding ds (suc free)
      → put_descriptor (get_elem? inner.descriptors inner.next_index) d inner
        ≡ (ok tt, holding (ds ++ d ∷ []) free)
  put-free ds free d inner slots e =
      rw (e, next_slot ds free)
        (rw (set-next_slot ds free d) (
          ap
            (λ (n : ℕ). (
              ok tt,
              record {
                next_index = n;
                descriptors = map some (ds ++ d ∷ []) ++ replicate free none;
              },
            ))
            (omega (arith, length-append ds (d ∷ [])))))

  pub register_driver-free :
      (ds : List (DeviceDriverDescriptor W)) (free : ℕ) (d : DeviceDriverDescriptor W)
      (m : Machine (DriverManagerInner W))
      → Starting m
      → length ds + suc free ≡ num_drivers
      → m.shared ≡ holding ds (suc free)
      → register_driver d m ≡ (ok tt, with_drivers (holding (ds ++ d ∷ []) free) m)
  unfolding register_driver
  register_driver-free ds free d m ready slots e =
      write-Starting _ m ready
      ∙ ap (λ (r : Outcome (Unit {0}) × DriverManagerInner W). (r.0, with_drivers r.1 m))
          (put-free ds free d m.shared slots e)

  register_driver-full :
      (ds : List (DeviceDriverDescriptor W)) (d : DeviceDriverDescriptor W)
      (m : Machine (DriverManagerInner W))
      → Starting m
      → m.shared ≡ holding ds 0
      → register_driver d m ≡ (panic "index out of bounds", m)
  unfolding register_driver
  register_driver-full ds d m ready e =
      write-Starting _ m ready
      ∙ ap (λ (r : Outcome (Unit {0}) × DriverManagerInner W). (r.0, with_drivers r.1 m))
          (full m.shared e)
    where
      full :
          (inner : DriverManagerInner W)
          → inner ≡ holding ds 0
          → put_descriptor (get_elem? inner.descriptors inner.next_index) d inner
            ≡ (panic "index out of bounds", inner)
      full inner e = rw (e, past_end ds) refl

  -- Drivers registered one after another.
  pub register_drivers :
      List (DeviceDriverDescriptor W) → Exec (Machine (DriverManagerInner W)) (Unit {0})
  register_drivers [] = pure tt
  register_drivers (d ∷ ds) = register_driver d >> register_drivers ds

  -- Every driver of a list in turn, the first failure ending it.
  unfoldable pub each :
      (DeviceDriverDescriptor W → Exec W (Unit {0}))
      → List (DeviceDriverDescriptor W)
      → Exec W (Unit {0})
  each f [] = pure tt
  each f (d ∷ ds) = f d >> each f ds

  each-slots :
      (f : DeviceDriverDescriptor W → Exec W (Unit {0})) (ds : List (DeviceDriverDescriptor W))
      (free : ℕ)
      → for_each_descriptor f (map some ds ++ replicate free none) ≡ each f ds
  unfolding for_each_descriptor each
  each-slots f [] zero = refl
  each-slots f [] (suc free) = each-slots f [] free
  each-slots f (d ∷ ds) free = ap (λ k. f d >> k) (each-slots f ds free)

  pub registered-holding :
      (ds done : List (DeviceDriverDescriptor W)) (free slots : ℕ)
      (m : Machine (DriverManagerInner W))
      → Starting m
      → slots ≡ length ds + free
      → length done + slots ≡ num_drivers
      → m.shared ≡ holding done slots
      → register_drivers ds m ≡ (ok tt, with_drivers (holding (done ++ ds) free) m)
  unfolding register_drivers
  registered-holding [] done free slots m ready left total e =
      let same : slots ≡ free = omega arith in
      ap (λ (s : DriverManagerInner W). (ok tt, with_drivers s m))
        (e ∙ rw (append-nil done) (ap (λ (n : ℕ). holding done n) same))
  registered-holding (d ∷ ds) done free zero m ready left total e = absurd (omega arith)
  registered-holding (d ∷ ds) done free (suc slots) m ready left total e =
      rw (register_driver-free done slots d m ready total e) (
        registered-holding ds (done ++ d ∷ []) free slots
          (with_drivers (holding (done ++ d ∷ []) slots) m) ready (omega arith)
          (omega (arith, length-append done (d ∷ []))) refl
        ∙ ap (λ (xs : List (DeviceDriverDescriptor W)). (ok tt, with_drivers (holding xs free) m))
            (append_assoc done (d ∷ []) ds))

  -- The manager runs over the drivers that it holds.
  pub init_drivers_and_irqs-holding :
      (ds : List (DeviceDriverDescriptor W)) (free : ℕ)
      → init_drivers_and_irqs (holding ds free) ≡ each start_up ds >> each enable_irq ds
  unfolding init_drivers_and_irqs
  init_drivers_and_irqs-holding ds free =
      rw (each-slots start_up ds free, each-slots enable_irq ds free) refl

  -- A sixth driver is refused by the bounds check of the slots: the call panics, and the five that
  -- are registered stay.
  pub register_drivers-full :
      (ds : List (DeviceDriverDescriptor W)) (d : DeviceDriverDescriptor W)
      (m : Machine (DriverManagerInner W))
      → Starting m
      → m.shared ≡ new
      → length ds ≡ num_drivers
      → (after : Machine (DriverManagerInner W)) × (register_drivers ds m ≡ (ok tt, after))
        × (register_driver d after ≡ (panic "index out of bounds", after))
  unfolding new
  register_drivers-full ds d m ready fresh full =
      let after : Machine (DriverManagerInner W) = with_drivers (holding ds 0) m in
      (
        after,
        registered-holding ds [] 0 num_drivers m ready (omega arith) (omega arith) fresh,
        register_driver-full ds d after ready refl,
      )
