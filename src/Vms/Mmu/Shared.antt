-- ===== src/Vms/Mmu/Shared.antt =====
-- vms_write of vms/src/mmu.c at an address whose page is shared: the writer gets a page of its own.
use Prim.Native.Nat.{bit_and, bit_or}
use ece344_operating_system.Common.{
  ℕ, suc, ◌+◌, ◌*◌, ◌/◌, ◌%◌, ◌^◌, ◌≤◌, ◌<◌, ◌≡◌, ◌≢◌, refl, ap, ◌∙◌, ◌⊎◌, inl, inr, true, false,
  some, arith, dec_lt,
}
use ece344_operating_system.Common.Family.{update}
use ece344_operating_system.Common.Masks.{bit_and-low, bit_and-hole, bit_or-disjoint}
use ece344_operating_system.Vms.Machine.{
  page_size, max_pages, Machine, ok, exited, is_mapped, load_bytes, store_bytes,
}
use ece344_operating_system.Vms.Machine.Bytes.{
  IsSeparate, store_bytes-outside, load_bytes-store_bytes, store-mapped,
}
use ece344_operating_system.Vms.Pte.{vms_pte_write, vms_pte_custom, vms_pte_get_ppn}
use ece344_operating_system.Vms.Pte.Flags.{write}
use ece344_operating_system.Vms.Pages.{vms_get_page_pointer, enomem}
use ece344_operating_system.Vms.Pages.Valid.{IsValid}
use ece344_operating_system.Vms.PageTable.{vms_page_table_pte_entry, vms_ppn_to_page}
use ece344_operating_system.Vms.PageTable.Fields.{entry-bounds}
use ece344_operating_system.Vms.Fault.{page_fault_handler}
use ece344_operating_system.Vms.Fault.Cow.{page_start, IsInTable, OwnPage, page-IsSeparate}
use ece344_operating_system.Vms.Fault.Handler.{page_fault_handler-copies}
use ece344_operating_system.Vms.Mmu.{translate_address, get_base_page, require, write_at, vms_write}
use ece344_operating_system.Vms.Mmu.Walk.{Walk, last_entry, mmu-Walk, get_entry-Holds}

-- The page of an entry in a table.
base_page-entry :
    (table va level : ℕ)
    → table % page_size ≡ 0
    → table < 2 ^ 63
    → level < 3
    → get_base_page (vms_page_table_pte_entry table va level) ≡ table
unfolding get_base_page
base_page-entry table va level aligned low lt =
    let bounds = entry-bounds table va level lt in
    bit_and-hole 52 0 12 (vms_page_table_pte_entry table va level) (omega arith)
      (omega (arith, bounds, low))
    ∙ omega (arith, bounds, aligned)

-- The physical address is the page with the offset.
translate_address-offset :
    (va entry page : ℕ)
    → vms_ppn_to_page (vms_pte_get_ppn entry) ≡ page
    → page % page_size ≡ 0
    → translate_address va entry ≡ page + va % page_size
unfolding translate_address
translate_address-offset va entry page leads aligned =
    ap (λ x. bit_or x (bit_and va 0xFFF)) (leads ∙ whole)
    ∙ ap (bit_or (page / 2 ^ 12 * 2 ^ 12)) (bit_and-low 12 va)
    ∙ bit_or-disjoint 12 (page / 2 ^ 12) (va % 2 ^ 12) (omega arith)
    ∙ omega (arith, aligned)
  where
    whole : page ≡ page / 2 ^ 12 * 2 ^ 12
    whole = omega (arith, aligned)

mapped-upto :
    (s : Machine) (a n : ℕ)
    → is_mapped s a n ≡ true
    → a + n ≤ s.base_pointer + max_pages * page_size
mapped-upto s a n h = ground (arith, h)

module _ (s : Machine) (va value i references : ℕ) (k : IsValid s) (index : i < max_pages)
    (low : s.base_pointer + max_pages * page_size ≤ 2 ^ 56) (w : Walk s va)
    (locked : vms_pte_write w.value0 ≡ false) where
  abbrev entry : ℕ
  entry = last_entry w

  entry-base : get_base_page entry ≡ w.l0
  unfolding vms_ppn_to_page
  entry-base =
      let bounds = entry-bounds w.l0 va 0 (omega arith) in
      let upto = mapped-upto s entry 8 w.holds0.mapped in
      base_page-entry w.l0 va 0 (omega (arith, w.next1)) (omega (arith, bounds, upto, low))
        (omega arith)

  -- Without a free page the write ends the process.
  write-full : page_fault_handler va 0 w.l0 s ≡ exited enomem → vms_write va value s ≡ exited enomem
  unfolding vms_write write_at require
  write-full full = rw (mmu-Walk s va w, get_entry-Holds w.holds0, locked, entry-base, full) refl

  module _ (j : ℕ) (t : Machine) (run : page_fault_handler va 0 w.l0 s ≡ ok tt t)
      (below : j < max_pages) (own : OwnPage s entry w.value0 i references j t)
      (within : va % page_size + 4 ≤ page_size) where
    abbrev place : ℕ
    place = page_start s j + va % page_size

    abbrev stored : Machine
    stored = record t { memory = store_bytes 4 place value t.memory }

    can_write : vms_pte_write own.value ≡ true
    can_write = own.flags write

    require-shared : require vms_pte_write va entry s ≡ ok tt t
    unfolding require
    require-shared =
        rw (get_entry-Holds w.holds0, locked, entry-base, run, get_entry-Holds own.holds, can_write)
          refl

    place-offset : translate_address va own.value ≡ place
    place-offset =
        translate_address-offset va own.value (page_start s j) own.leads (omega (arith, k.aligned))

    write-stored : is_mapped t place 4 ≡ true → vms_write va value s ≡ ok (some tt) stored
    unfolding vms_write write_at
    write-stored mapped =
        rw
          (
            mmu-Walk s va w,
            require-shared,
            get_entry-Holds own.holds,
            place-offset,
            store-mapped t 4 place value mapped,
          )
          refl

    place-is_mapped : is_mapped t place 4 ≡ true
    place-is_mapped = ground (arith, own.base_pointer, below, within)

    -- Bytes outside of the value, the entry and the new page stay.
    stored-others :
        (x : ℕ)
        → IsSeparate entry 8 x 1
        → IsSeparate (page_start s j) page_size x 1
        → stored.memory x ≡ s.memory x
    stored-others x out far =
        store_bytes-outside 4 place value x t.memory (ground (arith, far, within))
        ∙ own.others x out far

pages-IsSeparate :
    (s : Machine) (i j offset : ℕ)
    → offset < page_size
    → i ≢ j
    → IsSeparate (page_start s j) page_size (page_start s i + offset) 1
pages-IsSeparate s i j offset q other = elim (dec_lt i j) [
  | yes below ↦ inr (omega (arith, below, q))
  | no above ↦ inl (omega (arith, above, other))
]

-- A write at a mapped address whose page is shared with other entries and marked so: the writer's entry
-- gets the first page that was free, which holds the value at the address and the bytes of the shared page
-- around it; the shared page is as it was and has one reference less. Without a free page the process
-- exits with ENOMEM.
pub vms_write-shared :
    (s : Machine) (va value i references : ℕ) (w : Walk s va)
    → IsValid s
    → i < max_pages
    → s.allocated i ≡ true
    → s.base_pointer + max_pages * page_size ≤ 2 ^ 56
    → w.value0 < 2 ^ 64
    → vms_pte_write w.value0 ≡ false
    → vms_pte_custom w.value0 ≡ true
    → vms_ppn_to_page (vms_pte_get_ppn w.value0) ≡ vms_get_page_pointer s i
    → IsInTable s (last_entry w) i
    → s.ref_track i ≡ suc references
    → va % page_size + 4 ≤ page_size
    → value < 2 ^ 32
    → ((vms_write va value s ≡ exited enomem) × ((j : ℕ) → j < max_pages → s.allocated j ≡ true))
      ⊎ ((j : ℕ) × (u : Machine) × (vms_write va value s ≡ ok (some tt) u)
          × (j < max_pages)
          × (s.allocated j ≡ false)
          × ((m : ℕ) → m < j → s.allocated m ≡ true)
          × (load_bytes 4 (page_start s j + va % page_size) u.memory ≡ value)
          × ((offset : ℕ)
              → offset < page_size
              → IsSeparate (va % page_size) 4 offset 1
              → u.memory (page_start s j + offset) ≡ s.memory (page_start s i + offset))
          × ((offset : ℕ)
              → offset < page_size
              → u.memory (page_start s i + offset) ≡ s.memory (page_start s i + offset))
          × (u.ref_track ≡ update s.ref_track i references))
vms_write-shared s va value i references w k index used low fits locked shared page inside more
      within small =
    elim (page_fault_handler-copies s va 0 w.l0 i w.value0 references k index low fits w.holds0
      shared page inside more) [
        | inl (full, all) ↦ inl (write-full s va value i references k index low w locked full, all)
        | inr (j, t, run, below, free, first, own) ↦ inr (
          j,
          stored s va value i references k index low w locked j t run below own within,
          write-stored s va value i references k index low w locked j t run below own within (
              place-is_mapped s va value i references k index low w locked j t run below own
                within),
          below,
          free,
          first,
          load_bytes-store_bytes 4 (page_start s j + va % page_size) value t.memory
              (omega (arith, small)),
          λ offset q out.
              store_bytes-outside 4 (page_start s j + va % page_size) value
                (page_start s j + offset) t.memory (ground (arith, out))
              ∙ own.bytes offset q,
          λ offset q.
              stored-others s va value i references k index low w locked j t run below own within
                (page_start s i + offset)
                (let apart = page-IsSeparate inside i inside.other in ground (arith, apart, q))
                (pages-IsSeparate s i j offset q (λ same. ground (arith, same, used, free))),
          own.ref_track,
        )
      ]
