-- ===== src/Drivers/Calls.antt =====
-- The calls that src/driver.rs makes of its drivers, written down one by one.
use mathlib.Core.List.{append_assoc}
use rp4os.Base.{
  ℕ, ◌-◌, ◌≤◌, ◌≡◌, refl, sym, ap, ◌∙◌, Option, none, some, List, [], ◌∷◌, ◌++◌, length, arith,
  String,
}
use rp4os.Base.Outcome.{Outcome, ok, err, panic, unfinished}
use rp4os.Base.Exec.{Exec, bind_outcome, ◌>>◌}
use rp4os.Sync.{Machine}
use rp4os.Sync.Locks.{Starting}
use rp4os.Drivers.{
  num_drivers, DeviceDriver, DeviceDriverDescriptor, DriverManagerInner, new, or_panic, expect_ok,
  call_back, enable_number, start_up, enable_irq, init_drivers_and_irqs,
}
use rp4os.Drivers.Order.{
  holding, with_drivers, register_drivers, registered-holding, each, init_drivers_and_irqs-holding,
}

-- A call with the message of the panic that its error causes.
abbrev pub Call : Type 0 → Type 0
Call W = String × Exec W (Unit {0})

module _ {W : Type 0} where
  -- What the calls after one find: the first that does not succeed is the last.
  unfoldable pub after_call :
      String → Outcome (Unit {0}) → W → Exec W (Unit {0}) → Outcome (Unit {0}) × W
  after_call message (ok u) w next = next w
  after_call message (err e) w next = (panic message, w)
  after_call message (panic e) w next = (panic e, w)
  after_call message unfinished w next = (unfinished, w)

  unfoldable pub in_turn : List (Call W) → Exec W (Unit {0})
  unfolding after_call
  in_turn [] w = (ok tt, w)
  in_turn ((message, call) ∷ calls) w =
      let next = in_turn calls in let r = call w in after_call message r.0 r.1 next

  abbrev pub callback_calls : Option (Exec W (Unit {0})) → List (Call W)
  callback_calls none = []
  callback_calls (some callback) = ("Error during driver post-init callback", callback) ∷ []

  -- The initialization of each driver, followed by its callback if it has one.
  unfoldable pub init_calls : List (DeviceDriverDescriptor W) → List (Call W)
  init_calls [] = []
  init_calls (d ∷ ds) =
      ("Error initializing driver", d.device_driver.init)
      ∷ (callback_calls d.post_init_callback ++ init_calls ds)

  abbrev pub number_calls : DeviceDriver W → Option ℕ → List (Call W)
  number_calls driver none = []
  number_calls driver (some irq_number) =
      (
        "Error during driver interrupt handler registration",
        driver.register_and_enable_irq_handler irq_number,
      )
      ∷ []

  -- The registration of each driver's interrupt, if it has one.
  unfoldable pub irq_calls : List (DeviceDriverDescriptor W) → List (Call W)
  irq_calls [] = []
  irq_calls (d ∷ ds) = number_calls d.device_driver d.irq_number ++ irq_calls ds

  seq_assoc : (a b c : Exec W (Unit {0})) (w : W) → ((a >> b) >> c) w ≡ (a >> (b >> c)) w
  seq_assoc a b c w = by_outcome (a w).0 (a w).1
    where
      by_outcome :
          (o : Outcome (Unit {0})) (s : W)
          → (let r = bind_outcome o s (λ _. b) in bind_outcome r.0 r.1 (λ _. c))
            ≡ bind_outcome o s (λ _. b >> c)
      by_outcome (ok u) s = refl
      by_outcome (err e) s = refl
      by_outcome (panic e) s = refl
      by_outcome unfinished s = refl

  -- One call of the manager, and what comes after it.
  expect_ok-after_call :
      (message : String) (call k : Exec W (Unit {0})) (w : W)
      → (expect_ok message call >> k) w ≡ after_call message (call w).0 (call w).1 k
  unfolding after_call
  expect_ok-after_call message call k w = by_outcome (call w).0 (call w).1
    where
      by_outcome :
          (o : Outcome (Unit {0})) (s : W)
          → bind_outcome (or_panic message o) s (λ _. k) ≡ after_call message o s k
      by_outcome (ok u) s = refl
      by_outcome (err e) s = refl
      by_outcome (panic e) s = refl
      by_outcome unfinished s = refl

  after_call-same :
      (message : String) (o : Outcome (Unit {0})) (s : W) (k l : Exec W (Unit {0}))
      → ((w : W) → k w ≡ l w)
      → after_call message o s k ≡ after_call message o s l
  unfolding after_call
  after_call-same message (ok u) s k l same = same s
  after_call-same message (err e) s k l same = refl
  after_call-same message (panic e) s k l same = refl
  after_call-same message unfinished s k l same = refl

  -- One call before others.
  call-first :
      (message : String) (call k : Exec W (Unit {0})) (calls : List (Call W))
      → ((w : W) → k w ≡ in_turn calls w)
      → (w : W) → (expect_ok message call >> k) w ≡ in_turn ((message, call) ∷ calls) w
  unfolding in_turn
  call-first message call k calls same w =
      expect_ok-after_call message call k w
      ∙ after_call-same message (call w).0 (call w).1 k (in_turn calls) same

  callback-first :
      (callback : Option (Exec W (Unit {0}))) (k : Exec W (Unit {0})) (calls : List (Call W))
      → ((w : W) → k w ≡ in_turn calls w)
      → (w : W) → (call_back callback >> k) w ≡ in_turn (callback_calls callback ++ calls) w
  callback-first none k calls same w = same w
  callback-first (some callback) k calls same w =
      call-first "Error during driver post-init callback" callback k calls same w

  number-first :
      (driver : DeviceDriver W) (irq : Option ℕ) (k : Exec W (Unit {0})) (calls : List (Call W))
      → ((w : W) → k w ≡ in_turn calls w)
      → (w : W)
      → (enable_number driver.register_and_enable_irq_handler irq >> k) w
        ≡ in_turn (number_calls driver irq ++ calls) w
  number-first driver none k calls same w = same w
  number-first driver (some n) k calls same w =
      call-first "Error during driver interrupt handler registration"
        (driver.register_and_enable_irq_handler n) k calls same w

  -- The first pass, before what comes after it.
  each-init_calls :
      (ds : List (DeviceDriverDescriptor W)) (k : Exec W (Unit {0})) (calls : List (Call W))
      → ((w : W) → k w ≡ in_turn calls w)
      → (w : W) → (each start_up ds >> k) w ≡ in_turn (init_calls ds ++ calls) w
  unfolding each init_calls
  each-init_calls [] k calls same w = same w
  each-init_calls (d ∷ ds) k calls same w =
      let init : Exec W (Unit {0}) = expect_ok "Error initializing driver" d.device_driver.init in
      let back : Exec W (Unit {0}) = call_back d.post_init_callback in
      seq_assoc (start_up d) (each start_up ds) k w
      ∙ seq_assoc init back (each start_up ds >> k) w
      ∙ call-first "Error initializing driver" d.device_driver.init
          (back >> (each start_up ds >> k))
          (callback_calls d.post_init_callback ++ (init_calls ds ++ calls))
          (callback-first d.post_init_callback (each start_up ds >> k) (init_calls ds ++ calls)
            (each-init_calls ds k calls same))
          w
      ∙ ap
          (λ (later : List (Call W)).
            in_turn (("Error initializing driver", d.device_driver.init) ∷ later) w)
          (sym (append_assoc (callback_calls d.post_init_callback) (init_calls ds) calls))

  -- The second pass.
  each-irq_calls :
      (ds : List (DeviceDriverDescriptor W)) (w : W)
      → each enable_irq ds w ≡ in_turn (irq_calls ds) w
  unfolding each irq_calls in_turn
  each-irq_calls [] w = refl
  each-irq_calls (d ∷ ds) w =
      number-first d.device_driver d.irq_number (each enable_irq ds) (irq_calls ds)
        (each-irq_calls ds) w

  -- In the init phase with IRQs masked, up to five drivers are registered one after another with a
  -- new manager. The manager then makes exactly these calls in turn, and the first that does not
  -- succeed is the last, an error becoming a panic: driver by driver in the order of their
  -- registration the driver's initialization and, if it has one, its callback; only after all of
  -- these, in the same order, the registration of the interrupt of each driver that has one.
  pub init_drivers_and_irqs-order :
      (ds : List (DeviceDriverDescriptor W)) (m : Machine (DriverManagerInner W)) (w : W)
      → Starting m
      → m.shared ≡ new
      → length ds ≤ num_drivers
      → (after : Machine (DriverManagerInner W)) × (register_drivers ds m ≡ (ok tt, after))
        × (init_drivers_and_irqs after.shared w ≡ in_turn (init_calls ds ++ irq_calls ds) w)
  unfolding new
  init_drivers_and_irqs-order ds m w ready fresh room = (
    with_drivers (holding ds (num_drivers - length ds)) m,
    registered-holding ds [] (num_drivers - length ds) num_drivers m ready (omega arith)
        (omega arith) fresh,
    ap (λ (run : Exec W (Unit {0})). run w)
          (init_drivers_and_irqs-holding ds (num_drivers - length ds))
        ∙ each-init_calls ds (each enable_irq ds) (irq_calls ds) (each-irq_calls ds) w,
  )
