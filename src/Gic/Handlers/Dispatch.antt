-- ===== src/Gic/Handlers/Dispatch.antt =====
-- Registering handlers and dispatching a pending interrupt, in src/bsp/drivers/gicv2/mod.rs.
use rp4os.Base.{
  ℕ, zero, suc, ◌+◌, ◌≤◌, ◌<◌, ◌≡◌, refl, ap, sym, ◌∙◌, false, leb, le→leb, Option, none, some,
  List, [], ◌∷◌, get_elem?, set, get_elem?-set_ne, get_elem?-set_present, arith,
}
use rp4os.Base.Outcome.{Outcome, ok, err, panic, unfinished}
use rp4os.Base.Exec.{Exec, pure, seq_ok, bind_outcome, ◌>>◌}
use rp4os.Registers.{Tock}
use rp4os.Sync.{Machine, on_shared}
use rp4os.Sync.Locks.{Starting, write-Starting}
use rp4os.Gic.Gicc.{pending_irq_number, mark_comleted}
use rp4os.Gic.Handlers.{
  IrqHandlerDescriptor, HandlerTable, Gicv2, max_irq_number, put_handler, put_entry,
  register_handler, on_table, call_handler, handle_pending_irqs, expect_handled, on_gicc,
}

module _ {W : Type 0} where
  abbrev pub with_table : HandlerTable W → Machine (Gicv2 W) → Machine (Gicv2 W)
  with_table table m = record m { shared = record m.shared { handler_table = table } }

  abbrev pub registered :
      Option (Option (IrqHandlerDescriptor W))
      → IrqHandlerDescriptor W
      → Machine (Gicv2 W)
      → Outcome (Unit {0}) × Machine (Gicv2 W)
  registered none d m = (panic "index out of bounds", m)
  registered (some (some e)) d m = (err "IRQ handler already registered", m)
  registered (some none) d m = (ok tt, with_table (set m.shared.handler_table d.number (some d)) m)

  -- In the init phase with IRQs masked, a handler goes into the entry of its number when that
  -- entry is free; when it is taken the call fails and changes nothing.
  pub register_handler_lem :
      (d : IrqHandlerDescriptor W) (m : Machine (Gicv2 W))
      → Starting m
      → register_handler d m ≡ registered (get_elem? m.shared.handler_table d.number) d m
  unfolding register_handler put_handler
  register_handler_lem d m ready =
      write-Starting (on_table (put_handler d)) m ready
      ∙ by_entry (get_elem? m.shared.handler_table d.number)
    where
      by_entry :
          (o : Option (Option (IrqHandlerDescriptor W)))
          → on_shared (on_table (put_entry o d)) m ≡ registered o d m
      by_entry none = refl
      by_entry (some none) = refl
      by_entry (some (some e)) = refl

  -- Registrations one after another, the first failure ending them.
  unfoldable pub register_all : List (IrqHandlerDescriptor W) → Exec (Machine (Gicv2 W)) (Unit {0})
  register_all [] = pure tt
  register_all (d ∷ ds) = register_handler d >> register_all ds

  -- Either a registration fails, or the entry was free and the handler is in it.
  registered_ok :
      (d : IrqHandlerDescriptor W) (m m' : Machine (Gicv2 W))
      → Starting m
      → register_handler d m ≡ (ok tt, m')
      → (get_elem? m.shared.handler_table d.number ≡ some none)
        × (m' ≡ with_table (set m.shared.handler_table d.number (some d)) m)
  registered_ok d m m' ready h =
      by_entry (get_elem? m.shared.handler_table d.number) refl
        (sym (register_handler_lem d m ready) ∙ h)
    where
      by_entry :
          (o : Option (Option (IrqHandlerDescriptor W)))
          → get_elem? m.shared.handler_table d.number ≡ o
          → registered o d m ≡ (ok tt, m')
          → (get_elem? m.shared.handler_table d.number ≡ some none)
            × (m' ≡ with_table (set m.shared.handler_table d.number (some d)) m)
      by_entry none e h = absurd (ground (arith, ap (λ r. r.0) h))
      by_entry (some none) e h = (e, sym (ap (λ r. r.1) h))
      by_entry (some (some x)) e h = absurd (ground (arith, ap (λ r. r.0) h))

  -- A step that succeeds is followed by the rest.
  register_all_cons :
      (d : IrqHandlerDescriptor W) (ds : List (IrqHandlerDescriptor W)) (m m' : Machine (Gicv2 W))
      → register_all (d ∷ ds) m ≡ (ok tt, m')
      → (m1 : Machine (Gicv2 W)) × (register_handler d m ≡ (ok tt, m1))
        × (register_all ds m1 ≡ (ok tt, m'))
  unfolding register_all
  register_all_cons d ds m m' h = seq_ok (register_handler d) (register_all ds) tt m m' h

  stays :
      (ds : List (IrqHandlerDescriptor W)) (m m' : Machine (Gicv2 W)) (n : ℕ)
      (e : IrqHandlerDescriptor W)
      → Starting m
      → register_all ds m ≡ (ok tt, m')
      → get_elem? m.shared.handler_table n ≡ some (some e)
      → get_elem? m'.shared.handler_table n ≡ some (some e)
  unfolding register_all
  stays [] m m' n e ready h there = rw (sym (ap (λ r. r.1) h)) there
  stays (d ∷ ds) m m' n e ready h there =
      let (m1, one, rest) = register_all_cons d ds m m' h in
      let (free, is) = registered_ok d m m1 ready one in
      stays ds m1 m' n e (rw is ready) rest (
        rw is (
          get_elem?-set_ne m.shared.handler_table d.number n (some d) (λ p. differs p free there)
          ∙ there))
    where
      differs :
          d.number ≡ n
          → get_elem? m.shared.handler_table d.number ≡ some none
          → get_elem? m.shared.handler_table n ≡ some (some e)
          → ⊥
      differs p free there =
          ground (arith, sym free ∙ ap (λ (i : ℕ). get_elem? m.shared.handler_table i) p ∙ there)

  -- Every registration of a list that succeeds is in the table at the end.
  registered_all :
      (ds : List (IrqHandlerDescriptor W)) (m m' : Machine (Gicv2 W)) (i : ℕ)
      (d : IrqHandlerDescriptor W)
      → Starting m
      → register_all ds m ≡ (ok tt, m')
      → get_elem? ds i ≡ some d
      → get_elem? m'.shared.handler_table d.number ≡ some (some d)
  registered_all [] m m' i d ready h at = absurd (ground arith)
  registered_all (e ∷ ds) m m' zero d ready h at =
      let (m1, one, rest) = register_all_cons e ds m m' h in
      let (free, is) = registered_ok e m m1 ready one in
      let same : e ≡ d = ground arith in
      rw same at (
        stays ds m1 m' e.number e (rw is ready) rest
          (rw is (get_elem?-set_present m.shared.handler_table e.number (some e) none free)))
  registered_all (e ∷ ds) m m' (suc i) d ready h at =
      let (m1, one, rest) = register_all_cons e ds m m' h in
      let (free, is) = registered_ok e m m1 ready one in
      registered_all ds m1 m' i d (rw is ready) rest at

module _ {W : Type 0} (tock : Tock) where
  open tock use {val, read, read_lem, write}

  -- After the handling of an interrupt that succeeds: the devices are as the handler left them and
  -- the number is written to EOIR.
  abbrev pub completed : ℕ → W → Machine (Gicv2 W) → Machine (Gicv2 W)
  completed n w m = record m {
    shared = record m.shared { devices = w; gicc = mark_comleted tock n m.shared.gicc };
  }

  -- What handling comes to when the registered handler returns `o`.
  abbrev pub handled :
      Outcome (Unit {0}) → W → Machine (Gicv2 W) → Outcome (Unit {0}) × Machine (Gicv2 W)
  handled (ok u) w m = (ok u, completed (pending_irq_number tock m.shared.gicc) w m)
  handled (err e) w m =
      (panic "Error handling IRQ", record m { shared = record m.shared { devices = w } })
  handled (panic e) w m = (panic e, record m { shared = record m.shared { devices = w } })
  handled unfinished w m = (unfinished, record m { shared = record m.shared { devices = w } })

  call_handler_lem :
      (n : ℕ) (o : Outcome (Unit {0})) (w : W) (g : Gicv2 W) (d : IrqHandlerDescriptor W)
      → get_elem? g.handler_table n ≡ some (some d)
      → d.handler g.devices ≡ (o, w)
      → call_handler n g ≡ (expect_handled o, record g { devices = w })
  unfolding call_handler
  call_handler_lem n o w g d there e = rw (there, e) refl

  pub handle-outcome :
      (o : Outcome (Unit {0})) (w : W) (m : Machine (Gicv2 W)) (d : IrqHandlerDescriptor W)
      → leb (max_irq_number + 1) (pending_irq_number tock m.shared.gicc) ≡ false
      → get_elem? m.shared.handler_table (pending_irq_number tock m.shared.gicc) ≡ some (some d)
      → d.handler m.shared.devices ≡ (o, w)
      → handle_pending_irqs tock m ≡ handled o w m
  unfolding handle_pending_irqs
  handle-outcome o w m d low there e = rw low (
      ap
        (λ (r : Outcome (Unit {0}) × Gicv2 W).
          bind_outcome r.0 (record m { shared = r.1 })
            (λ _. on_gicc (mark_comleted tock (pending_irq_number tock m.shared.gicc))))
        (call_handler_lem (pending_irq_number tock m.shared.gicc) o w m.shared d there e)
      ∙ by_outcome o)
    where
      by_outcome :
          (o : Outcome (Unit {0}))
          → bind_outcome
              (expect_handled o)
              (record m { shared = record m.shared { devices = w } })
              (λ _. on_gicc (mark_comleted tock (pending_irq_number tock m.shared.gicc)))
            ≡ handled o w m
      by_outcome (ok u) = refl
      by_outcome (err x) = refl
      by_outcome (panic x) = refl
      by_outcome unfinished = refl

  -- After a list of registrations has succeeded in the init phase with IRQs masked, a pending
  -- interrupt with the number of any of them, at most 300, runs that registration's handler,
  -- however the rest of the kernel has changed since (the table being the same): when the
  -- handler succeeds, the devices are as it left them and the number is signalled as completed;
  -- when it fails, the kernel panics and the interrupt is not completed.
  pub handle_pending_irqs-registered :
      (ds : List (IrqHandlerDescriptor W)) (m m' now : Machine (Gicv2 W)) (i : ℕ)
      (d : IrqHandlerDescriptor W)
      → Starting m
      → register_all ds m ≡ (ok tt, m')
      → get_elem? ds i ≡ some d
      → d.number ≤ max_irq_number
      → now.shared.handler_table ≡ m'.shared.handler_table
      → pending_irq_number tock now.shared.gicc ≡ d.number
      → handle_pending_irqs tock now
        ≡ handled (d.handler now.shared.devices).0 (d.handler now.shared.devices).1 now
  handle_pending_irqs-registered ds m m' now i d ready h at small same pending =
      handle-outcome (d.handler now.shared.devices).0 (d.handler now.shared.devices).1 now d
        (ground arith) (rw (same, pending) (registered_all ds m m' i d ready h at)) refl

  -- A spurious interrupt (a number above the largest that is supported) changes nothing.
  handle_pending_irqs-spurious :
      (m : Machine (Gicv2 W))
      → max_irq_number < pending_irq_number tock m.shared.gicc
      → handle_pending_irqs tock m ≡ (ok tt, m)
  unfolding handle_pending_irqs
  handle_pending_irqs-spurious m large = rw (le→leb _ _ large) refl
