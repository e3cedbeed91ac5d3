-- ===== src/Gic/Gicd/Routing.antt =====
-- Which interrupts `boot_core_init` of src/bsp/drivers/gicv2/gicd.rs routes to the boot core.
use rp4os.Base.{
  ℕ, zero, suc, ◌+◌, ◌-◌, ◌*◌, ◌/◌, ◌%◌, ◌^◌, ◌≤◌, ◌<◌, ◌≡◌, refl, sym, ◌∙◌, bit_or, true, Option,
  none, some, ltb, List, [], ◌∷◌, length, get_elem?, if◌then◌else◌, arith, Bool-cases, inl, inr,
}
use rp4os.Base.Bits.{bit_or-zero, zero-bit_or}
use rp4os.Base.Outcome.{ok}
use rp4os.Registers.{Field, field, Tock}
use rp4os.Registers.Fields.{read-write-plus, read-write-val}
use rp4os.Sync.{Machine, state, is_init}
use rp4os.Sync.Locks.{lock_lem}
use rp4os.Gic.Gicd.{
  Gicd, SharedRegisters, write_slice, on_shared_registers, route_all, num_irqs,
  implemented_itargets_slice, local_gic_target_mask, targets, boot_core_init, offset0, offset1,
  offset2, offset3, ctlr_enable, it_lines_number,
}

get_elem?-write_slice :
    (count value : ℕ) (registers : List ℕ) (i : ℕ)
    → i < length registers
    → get_elem? (write_slice count value registers) i
      ≡ (if ltb i count then some value else get_elem? registers i)
unfolding write_slice
get_elem?-write_slice zero value registers i h = ground arith
get_elem?-write_slice (suc count) value [] i h = absurd (omega arith)
get_elem?-write_slice (suc count) value (r ∷ registers) zero h = ground arith
get_elem?-write_slice (suc count) value (r ∷ registers) (suc i) h =
    get_elem?-write_slice count value registers i (omega arith) ∙ ground arith

-- The part of the byte of one field that shows in another.
abbrev byte_part : Field → Field → ℕ → ℕ
byte_part f g mask = mask % 2 ^ g.numbits * 2 ^ g.offset / 2 ^ f.offset % 2 ^ f.numbits

-- The field of a target register for the interrupts `k` with `k % 4` equal to `j`.
abbrev pub target_field : ℕ → Field
target_field j = field (8 * j) 8

abbrev pub target_byte : ℕ → ℕ → ℕ
target_byte j r = r / 2 ^ (8 * j) % 2 ^ 8

-- What a field shows of the bytes of all four.
abbrev Shows : Field → ℕ → ℕ → ℕ → ℕ → ℕ → Type 0
Shows f mask b3 b2 b1 b0 =
    (byte_part f offset3 mask ≡ b3)
    × (byte_part f offset2 mask ≡ b2)
    × (byte_part f offset1 mask ≡ b1)
    × (byte_part f offset0 mask ≡ b0)

shows0 : (mask : ℕ) → Shows offset0 mask 0 0 0 (mask % 256)
shows0 mask = (omega arith, omega arith, omega arith, omega arith)

shows1 : (mask : ℕ) → Shows offset1 mask 0 0 (mask % 256) 0
shows1 mask = (omega arith, omega arith, omega arith, omega arith)

shows2 : (mask : ℕ) → Shows offset2 mask 0 (mask % 256) 0 0
shows2 mask = (omega arith, omega arith, omega arith, omega arith)

shows3 : (mask : ℕ) → Shows offset3 mask (mask % 256) 0 0 0
shows3 mask = (omega arith, omega arith, omega arith, omega arith)

abbrev target_of : Option ℕ → ℕ → ℕ
target_of none j = 0
target_of (some r) j = target_byte j r

-- The architecture's target byte of a shared interrupt: byte `k % 4` of GICD_ITARGETSR`k / 4`, the
-- first eight of which are banked.
abbrev pub target : SharedRegisters → ℕ → ℕ
target regs k = target_of (get_elem? regs.itargetsr (k / 4 - 8)) (k % 4)

is_init_lem : {D : Type 0} (m : Machine D) → m.kernel_state ≡ 0 → is_init m ≡ ok true
unfolding is_init state
is_init_lem m starting = rw starting refl

module _ (tock : Tock) where
  open tock use {val, read, read_lem}

  read-targets :
      (f : Field) (mask b3 b2 b1 b0 : ℕ)
      → Shows f mask b3 b2 b1 b0
      → read f (targets tock mask) ≡ bit_or (bit_or (bit_or b3 b2) b1) b0
  unfolding targets
  read-targets f mask b3 b2 b1 b0 (e3, e2, e1, e0) =
      rw
        (
          read-write-plus tock f,
          read-write-plus tock f,
          read-write-plus tock f,
          read-write-val tock f offset3 mask,
          read-write-val tock f offset2 mask,
          read-write-val tock f offset1 mask,
          read-write-val tock f offset0 mask,
          e3,
          e2,
          e1,
          e0,
        )
        refl

  -- All four fields of the value that is written hold the mask.
  read-targets_field :
      (j mask : ℕ) → j < 4 → mask < 256 → read (target_field j) (targets tock mask) ≡ mask
  read-targets_field zero mask h small =
      read-targets offset0 mask 0 0 0 (mask % 256) (shows0 mask)
      ∙ rw (zero-bit_or (mask % 256)) (omega arith)
  read-targets_field (suc zero) mask h small =
      read-targets offset1 mask 0 0 (mask % 256) 0 (shows1 mask)
      ∙ rw (zero-bit_or (mask % 256), bit_or-zero (mask % 256)) (omega arith)
  read-targets_field (suc (suc zero)) mask h small =
      read-targets offset2 mask 0 (mask % 256) 0 0 (shows2 mask)
      ∙ rw (zero-bit_or (mask % 256), bit_or-zero (mask % 256), bit_or-zero (mask % 256))
          (omega arith)
  read-targets_field (suc (suc (suc zero))) mask h small =
      read-targets offset3 mask (mask % 256) 0 0 0 (shows3 mask)
      ∙ rw (bit_or-zero (mask % 256), bit_or-zero (mask % 256), bit_or-zero (mask % 256))
          (omega arith)
  read-targets_field (suc (suc (suc (suc j)))) mask h small = absurd (omega arith)

  target_byte-targets : (j mask : ℕ) → j < 4 → mask < 256 → target_byte j (targets tock mask) ≡ mask
  target_byte-targets j mask h small =
      sym (read_lem (target_field j) (targets tock mask)) ∙ read-targets_field j mask h small

  abbrev pub routed : ℕ → SharedRegisters → SharedRegisters
  routed mask regs = record regs {
    itargetsr = write_slice ((num_irqs tock regs - 32) / 4 - 1) (targets tock mask) regs.itargetsr;
    ctlr = tock.write (val ctlr_enable 1);
  }

  num_irqs_bound : (regs : SharedRegisters) → num_irqs tock regs ≤ 1024
  unfolding num_irqs
  num_irqs_bound regs = omega (arith, read_lem it_lines_number regs.typer)

  slice_lem :
      (regs : SharedRegisters)
      → 36 ≤ num_irqs tock regs
      → length regs.itargetsr ≡ 248
      → implemented_itargets_slice tock regs ≡ ok ((num_irqs tock regs - 32) / 4 - 1)
  unfolding implemented_itargets_slice
  slice_lem regs enough whole = ground (arith, num_irqs_bound regs)

  route_all_lem :
      (mask : ℕ) (regs : SharedRegisters)
      → 36 ≤ num_irqs tock regs
      → length regs.itargetsr ≡ 248
      → route_all tock (targets tock mask) regs ≡ (ok tt, routed mask regs)
  unfolding route_all
  route_all_lem mask regs enough whole = rw (slice_lem regs enough whole) refl

  local_gic_target_mask_lem :
      (x : ℕ) (g : Gicd)
      → get_elem? g.banked_registers.itargetsr 0 ≡ some x
      → local_gic_target_mask tock g ≡ ok (read offset0 x)
  unfolding local_gic_target_mask
  local_gic_target_mask_lem x g own = rw (local_gic_target_mask, own) refl

  pub boot_core_init-routed :
      (x : ℕ) (m : Machine Gicd)
      → m.kernel_state ≡ 0
      → get_elem? m.shared.banked_registers.itargetsr 0 ≡ some x
      → 36 ≤ num_irqs tock m.shared.shared_registers
      → length m.shared.shared_registers.itargetsr ≡ 248
      → boot_core_init tock m ≡ (
        ok tt,
        record m {
          shared = record m.shared {
            shared_registers = routed (read offset0 x) m.shared.shared_registers;
          };
        },
      )
  unfolding boot_core_init
  boot_core_init-routed x m starting own enough whole =
      let inner = route_all_lem (read offset0 x) m.shared.shared_registers enough whole in
      rw (is_init_lem m starting, local_gic_target_mask_lem x m.shared own)
        (lock_lem (on_shared_registers (route_all tock (targets tock (read offset0 x)))) m
            (rw inner tt)
          ∙ rw inner refl)

  routed-target :
      (mask : ℕ) (regs : SharedRegisters) (k : ℕ)
      → mask < 256
      → length regs.itargetsr ≡ 248
      → 32 ≤ k
      → k < 1024
      → target (routed mask regs) k
        ≡ (if ltb (k / 4 - 8) ((num_irqs tock regs - 32) / 4 - 1) then mask else target regs k)
  routed-target mask regs k small whole low high =
      rw
        (get_elem?-write_slice ((num_irqs tock regs - 32) / 4 - 1) (targets tock mask)
          regs.itargetsr (k / 4 - 8) (omega arith))
        (elim (Bool-cases (ltb (k / 4 - 8) ((num_irqs tock regs - 32) / 4 - 1))) [
          | inl e ↦ rw e (target_byte-targets (k % 4) mask (omega arith) small)
          | inr e ↦ rw e refl
        ])

  num_irqs_whole : (regs : SharedRegisters) → num_irqs tock regs % 32 ≡ 0
  unfolding num_irqs
  num_irqs_whole regs = omega arith

  last_routed :
      (regs : SharedRegisters) (k : ℕ)
      → 36 ≤ num_irqs tock regs
      → 32 ≤ k
      → ltb (k / 4 - 8) ((num_irqs tock regs - 32) / 4 - 1) ≡ ltb (k + 4) (num_irqs tock regs)
  last_routed regs k enough low = ground (arith, num_irqs_whole regs)

  own_mask : (x : ℕ) → read offset0 x ≡ x % 256
  own_mask x = omega (arith, read_lem offset0 x)

  -- In the init phase, with the 248 target registers and at least 36 interrupts implemented,
  -- `boot_core_init` succeeds, enables the distributor and targets at the executing core (whose mask
  -- is the first banked target field) every shared interrupt but the last four that are
  -- implemented: those, and the unimplemented ones, keep the target they had.
  pub boot_core_init_lem :
      (x : ℕ) (m : Machine Gicd)
      → m.kernel_state ≡ 0
      → get_elem? m.shared.banked_registers.itargetsr 0 ≡ some x
      → 36 ≤ num_irqs tock m.shared.shared_registers
      → length m.shared.shared_registers.itargetsr ≡ 248
      → ((boot_core_init tock m).0 ≡ ok tt)
        × (read ctlr_enable (boot_core_init tock m).1.shared.shared_registers.ctlr ≡ 1)
        × ((k : ℕ)
            → 32 ≤ k
            → k < 1024
            → target (boot_core_init tock m).1.shared.shared_registers k ≡ (
                if ltb (k + 4) (num_irqs tock m.shared.shared_registers)
                then x % 256
                else target m.shared.shared_registers k))
  boot_core_init_lem x m starting own enough whole =
      rw (boot_core_init-routed x m starting own enough whole) (
        refl,
        read-write-val tock ctlr_enable ctlr_enable 1,
        λ k low high.
            routed-target (read offset0 x) m.shared.shared_registers k (omega (arith, own_mask x))
              whole low high
            ∙ rw (last_routed m.shared.shared_registers k enough low, own_mask x) refl,
      )
