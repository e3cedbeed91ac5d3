-- ===== src/Mmu/Table/Translation.antt =====
-- From `map_at` of src/arch/aarch64/mmu/translation_table.rs to what the hardware then translates.
use rp4os.Base.{
  ℕ, ◌+◌, ◌-◌, ◌*◌, ◌%◌, ◌<◌, ◌≡◌, ◌∙◌, refl, true, Bool-cases, inl, inr, some, none, if◌then◌else◌,
}
use rp4os.Registers.{Tock}
use rp4os.Memory.Address.{ms_kernel, ms_512_mib}
use rp4os.Mmu.Region.{MemoryRegion, IsRegion}
use rp4os.Mmu.Descriptor.{AttributeFields}
use rp4os.Mmu.Table.{TranslationTable, phys_base_address, map_at}
use rp4os.Mmu.Table.Mapping.{Written, Unmapped, within}
use rp4os.Mmu.Table.Space.{Space, claim_region, map_at-Refines, Represents-is_valid}
use rp4os.Mmu.Table.Safety.{map_at-Fixed}
use rp4os.Mmu.Table.Walk.{Running, walk, walk_lem, target}

module _ (tock : Tock) (num_tables : ℕ) (pos : 0 < num_tables)
    (virt_region phys_region : MemoryRegion) (v : IsRegion virt_region) (p : IsRegion phys_region)
    (attr : AttributeFields) where
  -- Every call of `map_at` keeps the tables in step with the space.
  pub map_at-Running :
      (base : ℕ) (space : Space) (table : TranslationTable)
      → Running tock num_tables base space table
      → Running tock num_tables base
          (claim_region (num_tables * ms_512_mib) virt_region phys_region attr space).1
          (map_at tock num_tables virt_region phys_region attr table).1
  map_at-Running base space table run =
      let fixed = map_at-Fixed tock num_tables pos virt_region phys_region attr table in
      record {
        base_aligned = run.base_aligned;
        base_fits = run.base_fits;
        linked = fixed.0 ∙ run.linked;
        ready = fixed.1 ∙ run.ready;
        holds =
            (map_at-Refines tock num_tables pos virt_region phys_region v p attr space table
              run.ready run.holds).1;
      }

  -- Tables that `init` linked and that hold a space translate, after any call of `map_at` for
  -- two well-formed regions, also one that fails half way, each address that they cover as the
  -- hardware finds it by walking them from the kernel's TTBR0_EL1 value: as the space says in
  -- which the specification of the call has claimed its pages.
  pub map_at-walk :
      (base : ℕ) (space : Space) (table : TranslationTable)
      → Running tock num_tables base space table
      → (va : ℕ) → va < num_tables * ms_512_mib
      → walk tock num_tables
          (phys_base_address num_tables base)
          base
          (map_at tock num_tables virt_region phys_region attr table).1
          va
        ≡ target tock num_tables
            ((claim_region (num_tables * ms_512_mib) virt_region phys_region attr space).1
              (va - va % ms_kernel))
            va
  map_at-walk base space table run va low =
      walk_lem tock num_tables base
        (claim_region (num_tables * ms_512_mib) virt_region phys_region attr space).1
        (map_at tock num_tables virt_region phys_region attr table).1
        (map_at-Running base space table run) va low

-- `n` pages from `virt` on, to those from `phys` on.
abbrev pub with_run : ℕ → ℕ → ℕ → AttributeFields → Space → Space
with_run n phys virt attr space page =
    if within virt n page then some (phys + (page - virt), attr) else space page

module _ (tock : Tock) (num_tables base : ℕ) where
  -- Pages that were written are in the space.
  pub Written-Running :
      (attr : AttributeFields) (n phys virt : ℕ) (space : Space) (before after : TranslationTable)
      → Running tock num_tables base space before
      → Written tock num_tables attr n phys virt before after
      → Running tock num_tables base (with_run n phys virt attr space) after
  Written-Running attr n phys virt space before after run w = record {
    base_aligned = run.base_aligned;
    base_fits = run.base_fits;
    linked = w.lvl2_same ∙ run.linked;
    ready = w.initialized_same ∙ run.ready;
    holds = λ page a. rw (w.pages_of page a) (elim (Bool-cases (within virt n page)) [
      | inl hit ↦ rw hit refl
      | inr miss ↦ rw miss (run.holds page a)
    ]);
  }

  -- A space is what it says of each page.
  pub same-Running :
      (space space' : Space) (table : TranslationTable)
      → ((page : ℕ) → space' page ≡ space page)
      → Running tock num_tables base space table
      → Running tock num_tables base space' table
  same-Running space space' table same run = record {
    base_aligned = run.base_aligned;
    base_fits = run.base_fits;
    linked = run.linked;
    ready = run.ready;
    holds = λ page a. rw (same page) (run.holds page a);
  }

  -- Pages that are not in the space are not mapped.
  pub Running-Unmapped :
      (n virt : ℕ) (space : Space) (table : TranslationTable)
      → Running tock num_tables base space table
      → ((page : ℕ) → within virt n page ≡ true → space page ≡ none)
      → Unmapped tock n virt table
  Running-Unmapped n virt space table run free page aligned inside =
      rw (Represents-is_valid tock space table page aligned run.holds, free page inside) refl
