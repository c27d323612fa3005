-- ===== src/Vms/Mmu/Walk.antt =====
-- vms/src/mmu.c: reads and writes at an address that the page tables map.
use ece344_operating_system.Common.{
  ℕ, suc, ◌^◌, ◌<◌, ◌≡◌, refl, ap, ◌∙◌, sym, Bool, true, false, Option, some, arith,
}
use ece344_operating_system.Vms.Machine.{
  Machine, Outcome, ok, M, is_mapped, load_bytes, store_bytes, get_entry,
}
use ece344_operating_system.Vms.Machine.Bytes.{
  IsSeparate, load_bytes-store_apart, load_bytes-store_bytes, load-mapped, store-mapped,
}
use ece344_operating_system.Vms.Pte.{vms_pte_read, vms_pte_write, vms_pte_get_ppn}
use ece344_operating_system.Vms.PageTable.{vms_page_table_pte_entry, vms_ppn_to_page}
use ece344_operating_system.Vms.Mmu.{
  should_generate_fault, on_entry, on_fault, mmu_loop, mmu, translate_address, require, write_at,
  vms_write, read_at, vms_read,
}

-- The entry with this address can be read, and holds `value`.
pub record Holds (s : Machine) (entry value : ℕ) : Type 0 where
  pub mapped : is_mapped s entry 8 ≡ true
  pub loads : load_bytes 8 entry s.memory ≡ value

-- The tables lead from an address to an entry at level 0, with no fault on the way.
pub record Walk (s : Machine) (va : ℕ) : Type 0 where
  pub value2 : ℕ
  pub value1 : ℕ
  pub value0 : ℕ
  pub l1 : ℕ
  pub l0 : ℕ
  pub holds2 : Holds s (vms_page_table_pte_entry s.root_page_table va 2) value2
  pub good2 : should_generate_fault 2 value2 ≡ false
  pub next2 : vms_ppn_to_page (vms_pte_get_ppn value2) ≡ l1
  pub holds1 : Holds s (vms_page_table_pte_entry l1 va 1) value1
  pub good1 : should_generate_fault 1 value1 ≡ false
  pub next1 : vms_ppn_to_page (vms_pte_get_ppn value1) ≡ l0
  pub holds0 : Holds s (vms_page_table_pte_entry l0 va 0) value0
  pub good0 : should_generate_fault 0 value0 ≡ false

-- The entry that the walk ends at, and the physical address.
abbrev pub last_entry : {s : Machine} {va : ℕ} → Walk s va → ℕ
last_entry {s} {va} w = vms_page_table_pte_entry w.l0 va 0

abbrev pub physical : {s : Machine} {va : ℕ} → Walk s va → ℕ
physical {s} {va} w = translate_address va w.value0

pub get_entry-Holds :
    {s : Machine} {entry value : ℕ} → Holds s entry value → get_entry entry s ≡ ok value s
get_entry-Holds {s} {entry} h = load-mapped s 8 entry h.mapped ∙ ap (λ v. ok v s) h.loads

mmu_loop-good :
    (n va level pt value : ℕ) (f : Bool) (s : Machine)
    → Holds s (vms_page_table_pte_entry pt va level) value
    → should_generate_fault level value ≡ false
    → mmu_loop (suc n) va level pt f s
      ≡ on_entry
          (λ lower table. mmu_loop n va lower table false)
          level
          (vms_page_table_pte_entry pt va level)
          value
          s
unfolding mmu_loop
mmu_loop-good n va level pt value f s h good = rw (get_entry-Holds h) (ap branch good)
  where
    branch : Bool → Outcome (Option ℕ)
    branch b =
        (elim b as (λ _. M (Option ℕ)) [
          | true ↦ on_fault (mmu_loop n va level pt true) va level pt f
          | false ↦
              on_entry (λ lower table. mmu_loop n va lower table false) level
                (vms_page_table_pte_entry pt va level) value
        ])
          s

-- Where the tables map an address, `mmu` gives its entry and changes nothing.
pub mmu-Walk : (s : Machine) (va : ℕ) (w : Walk s va) → mmu va s ≡ ok (some (last_entry w)) s
unfolding mmu on_entry
mmu-Walk s va w =
    mmu_loop-good 5 va 2 s.root_page_table w.value2 false s w.holds2 w.good2
    ∙ ap (λ table. mmu_loop 5 va 1 table false s) w.next2
    ∙ mmu_loop-good 4 va 1 w.l1 w.value1 false s w.holds1 w.good1
    ∙ ap (λ table. mmu_loop 4 va 0 table false s) w.next1
    ∙ mmu_loop-good 3 va 0 w.l0 w.value0 false s w.holds0 w.good0

require-has_flag :
    (flag : ℕ → Bool) (va entry value : ℕ) (s : Machine)
    → Holds s entry value
    → flag value ≡ true
    → require flag va entry s ≡ ok tt s
unfolding require
require-has_flag flag va entry value s h on = rw (get_entry-Holds h, on) refl

-- The state after a write.
abbrev pub written : {s : Machine} {va : ℕ} → Walk s va → ℕ → Machine
written {s} w value = record s { memory = store_bytes 4 (physical w) value s.memory }

pub vms_write-Walk :
    (s : Machine) (va value : ℕ) (w : Walk s va)
    → vms_pte_write w.value0 ≡ true
    → is_mapped s (physical w) 4 ≡ true
    → vms_write va value s ≡ ok (some tt) (written w value)
unfolding vms_write write_at
vms_write-Walk s va value w can m =
    rw
      (
        mmu-Walk s va w,
        require-has_flag vms_pte_write va (last_entry w) w.value0 s w.holds0 can,
        get_entry-Holds w.holds0,
        store-mapped s 4 (physical w) value m,
      )
      refl

pub vms_read-Walk :
    (s : Machine) (va : ℕ) (w : Walk s va)
    → vms_pte_read w.value0 ≡ true
    → is_mapped s (physical w) 4 ≡ true
    → vms_read va s ≡ ok (some (load_bytes 4 (physical w) s.memory)) s
unfolding vms_read read_at
vms_read-Walk s va w can m =
    rw
      (
        mmu-Walk s va w,
        require-has_flag vms_pte_read va (last_entry w) w.value0 s w.holds0 can,
        get_entry-Holds w.holds0,
        load-mapped s 4 (physical w) m,
      )
      refl

-- `n` bytes from `a` on hold none of the entries that the walk reads.
pub record IsOutside (n a : ℕ) {s : Machine} {va : ℕ} (w : Walk s va) : Type 0 where
  pub entry2 : IsSeparate (vms_page_table_pte_entry s.root_page_table va 2) 8 a n
  pub entry1 : IsSeparate (vms_page_table_pte_entry w.l1 va 1) 8 a n
  pub entry0 : IsSeparate (vms_page_table_pte_entry w.l0 va 0) 8 a n

pub Holds-store :
    {s : Machine} {entry value : ℕ} (n a v : ℕ)
    → Holds s entry value
    → IsSeparate entry 8 a n
    → Holds (record s { memory = store_bytes n a v s.memory }) entry value
Holds-store {s} {entry} n a v h apart = record {
  mapped = h.mapped;
  loads = load_bytes-store_apart 8 entry n a v s.memory apart ∙ h.loads;
}

-- A write outside of the entries keeps the walk.
abbrev pub after_store :
    {s : Machine} {va : ℕ} (w : Walk s va) (n a v : ℕ)
    → IsOutside n a w
    → Walk (record s { memory = store_bytes n a v s.memory }) va
after_store w n a v out = record {
  value2 = w.value2;
  value1 = w.value1;
  value0 = w.value0;
  l1 = w.l1;
  l0 = w.l0;
  holds2 = Holds-store n a v w.holds2 out.entry2;
  good2 = w.good2;
  next2 = w.next2;
  holds1 = Holds-store n a v w.holds1 out.entry1;
  good1 = w.good1;
  next1 = w.next1;
  holds0 = Holds-store n a v w.holds0 out.entry0;
  good0 = w.good0;
}

-- A write at one mapped address, then a read at another whose tables lie elsewhere: the read gives the
-- value if both addresses lead to the same bytes, and what it gave before if their bytes are apart.
pub vms_read-vms_write :
    (s : Machine) (va vb value : ℕ) (w : Walk s va) (r : Walk s vb)
    → vms_pte_write w.value0 ≡ true
    → vms_pte_read r.value0 ≡ true
    → is_mapped s (physical w) 4 ≡ true
    → is_mapped s (physical r) 4 ≡ true
    → IsOutside 4 (physical w) r
    → value < 2 ^ 32
    → (t : Machine) × (vms_write va value s ≡ ok (some tt) t)
      × (physical w ≡ physical r → vms_read vb t ≡ ok (some value) t)
      × (IsSeparate (physical r) 4 (physical w) 4
          → (v : ℕ) × (vms_read vb s ≡ ok (some v) s) × (vms_read vb t ≡ ok (some v) t))
vms_read-vms_write s va vb value w r can_write can_read mw mr out fits =
    let t = written w value in
    let reads : vms_read vb t ≡ ok (some (load_bytes 4 (physical r) t.memory)) t =
      vms_read-Walk t vb (after_store r 4 (physical w) value out) can_read mr in
    (
      t,
      vms_write-Walk s va value w can_write mw,
      λ same.
          reads
          ∙ ap (λ a. ok (some (load_bytes 4 a t.memory)) t) (sym same)
          ∙ ap (λ v. ok (some v) t)
              (load_bytes-store_bytes 4 (physical w) value s.memory (omega (arith, fits))),
      λ apart. (
        load_bytes 4 (physical r) s.memory,
        vms_read-Walk s vb r can_read mr,
        reads
            ∙ ap (λ v. ok (some v) t)
                (load_bytes-store_apart 4 (physical r) 4 (physical w) value s.memory apart),
      ),
    )
