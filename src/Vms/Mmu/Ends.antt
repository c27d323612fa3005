-- ===== src/Vms/Mmu/Ends.antt =====
-- The loop of mmu in vms/src/mmu.c ends.
use ece344_operating_system.Common.{
  ℕ, zero, suc, ◌+◌, ◌*◌, ◌≤◌, ◌≡◌, ◌≢◌, refl, ap, Bool, true, false, Option, none, arith,
}
use ece344_operating_system.Vms.Machine.{Machine, ok, exited, M, get_entry}
use ece344_operating_system.Vms.Machine.Runs.{bind-ok}
use ece344_operating_system.Vms.PageTable.{vms_ppn_to_page, vms_page_table_pte_entry}
use ece344_operating_system.Vms.Fault.{page_fault_handler}
use ece344_operating_system.Vms.Pte.{vms_pte_get_ppn}
use ece344_operating_system.Vms.Mmu.{
  should_generate_fault, fatal_page_fault, mmu_loop, mmu, on_fault, on_entry, efault,
}

-- The second round at a level is one less.
abbrev tried : Bool → ℕ
tried true = 1
tried false = 0

tried_few : (b : Bool) → tried b ≤ 1
tried_few true = omega arith
tried_few false = omega arith

fatal_page_fault-stops :
    {A : Type 0} (va level pt : ℕ) (s t : Machine) (a : A) → fatal_page_fault va level pt s ≢ ok a t
unfolding fatal_page_fault
fatal_page_fault-stops va level pt s t a h =
    let (_, _, _, stop) =
      bind-ok (get_entry (vms_page_table_pte_entry pt va level) s) (λ _ _. exited efault) a t h in
    ground (arith, stop)

module _ (va : ℕ) (t : Machine) where
  on_fault-ends :
      (again : M (Option ℕ)) (level pt : ℕ) (faulted : Bool) (s : Machine)
      → (faulted ≡ false → (u : Machine) → again u ≢ ok none t)
      → on_fault again va level pt faulted s ≢ ok none t
  unfolding on_fault
  on_fault-ends again level pt false s ends h =
      let (_, u, _, rest) = bind-ok (page_fault_handler va level pt s) (λ _. again) none t h in
      ends refl u rest
  on_fault-ends again level pt true s ends h = fatal_page_fault-stops va level pt s t none h

  on_entry-ends :
      (down : ℕ → ℕ → M (Option ℕ)) (level entry e : ℕ) (s : Machine)
      → ((lower table : ℕ) → suc lower ≡ level → down lower table s ≢ ok none t)
      → on_entry down level entry e s ≢ ok none t
  unfolding on_entry
  on_entry-ends down zero entry e s ends h = ground (arith, h)
  on_entry-ends down (suc lower) entry e s ends h =
      ends lower (vms_ppn_to_page (vms_pte_get_ppn e)) refl h

  either_ends :
      (b : Bool) (x y : M (Option ℕ)) (u : Machine)
      → x u ≢ ok none t
      → y u ≢ ok none t
      → (elim b as (λ _. M (Option ℕ)) [ true ↦ x | false ↦ y ]) u ≢ ok none t
  either_ends true x y u p q h = p h
  either_ends false x y u p q h = q h

  mmu_loop-ends :
      (n level pt : ℕ) (faulted : Bool) (s : Machine)
      → 2 * (level + 1) ≤ n + tried faulted
      → mmu_loop n va level pt faulted s ≢ ok none t
  unfolding mmu_loop
  mmu_loop-ends zero level pt true s le h = omega (arith, le)
  mmu_loop-ends zero level pt false s le h = omega (arith, le)
  mmu_loop-ends (suc n) level pt faulted s le h =
      let (e, u, _, round) = bind-ok (get_entry entry s) next none t h in
      either_ends (should_generate_fault level e) (on_fault again va level pt faulted)
        (on_entry down level entry e) u
        (on_fault-ends again level pt faulted u
          (λ first v. mmu_loop-ends n level pt true v (omega (arith, le, ap tried first))))
        (on_entry-ends down level entry e u (λ lower table below.
          mmu_loop-ends n lower table false u (omega (arith, le, below, few))))
        round
    where
      entry : ℕ
      entry = vms_page_table_pte_entry pt va level

      again : M (Option ℕ)
      again = mmu_loop n va level pt true

      down : ℕ → ℕ → M (Option ℕ)
      down lower table = mmu_loop n va lower table false

      next : ℕ → M (Option ℕ)
      next e = elim (should_generate_fault level e) [
        | true ↦ on_fault again va level pt faulted
        | false ↦ on_entry down level entry e
      ]

      few : tried faulted ≤ 1
      few = tried_few faulted

-- Whatever the tables and the memory hold, the walk of `mmu` ends within the rounds that it is given
-- here: with an entry, with a bad access, with a failed `assert`, or with the exit of the process.
pub mmu-ends : (va : ℕ) (s t : Machine) → mmu va s ≢ ok none t
unfolding mmu
mmu-ends va s t = mmu_loop-ends va t 6 2 s.root_page_table false s (omega arith)
