-- ===== src/Drivers.antt =====
-- The driver manager of src/driver.rs. A driver's calls are functions on the state `W` of the rest
-- of the kernel.
pub mod Order
pub mod Calls
use rp4os.Base.{
  ℕ, zero, suc, ◌+◌, Option, none, some, List, [], ◌∷◌, get_elem?, set, replicate, String,
  wrapping_add,
}
use rp4os.Base.Outcome.{Outcome, ok, err, panic, unfinished}
use rp4os.Base.Exec.{Exec, pure, ◌>>=◌, ◌>>◌}
use rp4os.Sync.{Machine, write}

abbrev pub num_drivers : ℕ
num_drivers = 5

pub record DeviceDriver (W : Type 0) : Type 0 where
  pub compatible : String
  pub init : Exec W (Unit {0})
  pub register_and_enable_irq_handler : ℕ → Exec W (Unit {0})

pub record DeviceDriverDescriptor (W : Type 0) : Type 0 where
  pub device_driver : DeviceDriver W
  pub post_init_callback : Option (Exec W (Unit {0}))
  pub irq_number : Option ℕ

pub record DriverManagerInner (W : Type 0) : Type 0 where
  pub next_index : ℕ
  pub descriptors : List (Option (DeviceDriverDescriptor W))

abbrev pub or_panic : String → Outcome (Unit {0}) → Outcome (Unit {0})
or_panic message (ok u) = ok u
or_panic message (err e) = panic message
or_panic message (panic e) = panic e
or_panic message unfinished = unfinished

-- `if let Err(x) = … { panic!(…) }`
abbrev pub expect_ok : {W : Type 0} → String → Exec W (Unit {0}) → Exec W (Unit {0})
expect_ok message f w = let r = f w in (or_panic message r.0, r.1)

module _ {W : Type 0} where
  unfoldable pub new : DriverManagerInner W
  new = record { next_index = 0; descriptors = replicate num_drivers none }

  abbrev pub put_descriptor :
      Option (Option (DeviceDriverDescriptor W))
      → DeviceDriverDescriptor W
      → Exec (DriverManagerInner W) (Unit {0})
  put_descriptor none descriptor inner = (panic "index out of bounds", inner)
  put_descriptor (some slot) descriptor inner = (
    ok tt,
    record {
      next_index = wrapping_add inner.next_index 1;
      descriptors = set inner.descriptors inner.next_index (some descriptor);
    },
  )

  unfoldable pub register_driver :
      DeviceDriverDescriptor W → Exec (Machine (DriverManagerInner W)) (Unit {0})
  register_driver descriptor =
      write
        (λ inner. put_descriptor (get_elem? inner.descriptors inner.next_index) descriptor inner)

  pub for_each_descriptor :
      (DeviceDriverDescriptor W → Exec W (Unit {0}))
      → List (Option (DeviceDriverDescriptor W))
      → Exec W (Unit {0})
  for_each_descriptor f [] = pure tt
  for_each_descriptor f (none ∷ descriptors) = for_each_descriptor f descriptors
  for_each_descriptor f (some descriptor ∷ descriptors) =
      f descriptor >> for_each_descriptor f descriptors

  abbrev pub call_back : Option (Exec W (Unit {0})) → Exec W (Unit {0})
  call_back none = pure tt
  call_back (some callback) = expect_ok "Error during driver post-init callback" callback

  -- Steps 1 and 2.
  abbrev pub start_up : DeviceDriverDescriptor W → Exec W (Unit {0})
  start_up descriptor =
      expect_ok "Error initializing driver" descriptor.device_driver.init
      >> call_back descriptor.post_init_callback

  abbrev pub enable_number : (ℕ → Exec W (Unit {0})) → Option ℕ → Exec W (Unit {0})
  enable_number register none = pure tt
  enable_number register (some irq_number) =
      expect_ok "Error during driver interrupt handler registration" (register irq_number)

  -- Step 3.
  abbrev pub enable_irq : DeviceDriverDescriptor W → Exec W (Unit {0})
  enable_irq descriptor =
      enable_number descriptor.device_driver.register_and_enable_irq_handler descriptor.irq_number

  unfoldable pub init_drivers_and_irqs : DriverManagerInner W → Exec W (Unit {0})
  unfolding for_each_descriptor
  init_drivers_and_irqs inner =
      for_each_descriptor start_up inner.descriptors
      >> for_each_descriptor enable_irq inner.descriptors
