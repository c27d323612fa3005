-- ===== src/Vms/Copy/Shares.antt =====
-- copy of vms/src/vms.c at one entry, in the mode that shares pages.
use ece344_operating_system.Common.{
  ℕ, suc, ◌+◌, ◌*◌, ◌≤◌, ◌^◌, ◌<◌, ◌≡◌, refl, ◌∙◌, ap, ◌⊎◌, inl, inr, true, false, not, ◌&&◌, arith,
}
use ece344_operating_system.Common.Family.{update}
use ece344_operating_system.Common.Int.{pos}
use ece344_operating_system.Vms.Machine.{page_size, max_pages, Machine, ok, store_bytes}
use ece344_operating_system.Vms.Machine.Bytes.{
  IsSeparate, store_bytes-outside, load_bytes-store_apart, load_bytes-store_bytes, store-mapped,
}
use ece344_operating_system.Vms.Pte.{
  vms_pte_write, vms_pte_custom, vms_pte_write_clear, vms_pte_custom_set, vms_pte_get_ppn,
}
use ece344_operating_system.Vms.Pte.Flags.{write, custom, set_flag-Turns, clear_flag-Turns}
use ece344_operating_system.Vms.Pages.{vms_get_page_pointer, array_index}
use ece344_operating_system.Vms.Pages.Valid.{page_index-page_pointer}
use ece344_operating_system.Vms.PageTable.{vms_ppn_to_page}
use ece344_operating_system.Vms.Mmu.Walk.{Holds, get_entry-Holds}
use ece344_operating_system.Vms.Fault.Own.{put_entry-Holds, Holds-put}
use ece344_operating_system.Vms.Copy.{share_page, copy_cow}

-- The value of an entry that is shared: it cannot be written, and is marked.
abbrev pub as_shared : ℕ → ℕ
as_shared e = vms_pte_custom_set (vms_pte_write_clear e)

abbrev stored : (entry v : ℕ) → Machine → Machine
stored entry v s = record s { memory = store_bytes 8 entry v s.memory }

-- A write beside an entry.
Holds-apart :
    {s : Machine} {entry value : ℕ} (other v : ℕ)
    → Holds s entry value
    → IsSeparate entry 8 other 8
    → Holds (stored other v s) entry value
Holds-apart {s} {entry} {value} other v h apart = record {
  mapped = h.mapped;
  loads = load_bytes-store_apart 8 entry 8 other v s.memory apart ∙ h.loads;
}

as_shared-bound : (e : ℕ) → e < 2 ^ 64 → as_shared e < 2 ^ 64
as_shared-bound e h =
    (set_flag-Turns custom (vms_pte_write_clear e) (clear_flag-Turns write e h).bound).bound

pub as_shared-ppn : (e : ℕ) → e < 2 ^ 64 → vms_pte_get_ppn (as_shared e) ≡ vms_pte_get_ppn e
as_shared-ppn e h =
    let cleared = clear_flag-Turns write e h in
    (set_flag-Turns custom (vms_pte_write_clear e) cleared.bound).ppn ∙ cleared.ppn

pub as_shared-locked : (e : ℕ) → e < 2 ^ 64 → vms_pte_write (as_shared e) ≡ false
as_shared-locked e h =
    let cleared = clear_flag-Turns write e h in
    (set_flag-Turns custom (vms_pte_write_clear e) cleared.bound).flags write ∙ cleared.flags write

pub as_shared-marked : (e : ℕ) → e < 2 ^ 64 → vms_pte_custom (as_shared e) ≡ true
as_shared-marked e h =
    (set_flag-Turns custom (vms_pte_write_clear e) (clear_flag-Turns write e h).bound).flags custom

-- What the copy of an entry of page `i` leaves: both entries hold `value`, which leads to the page, and
-- the page has `references`; other memory and the pages in use stay.
pub record Shares (s : Machine) (original forked i value references : ℕ) (t : Machine)
    : Type 0 where
  pub original_holds : Holds t original value
  pub forked_holds : Holds t forked value
  pub same_page : vms_ppn_to_page (vms_pte_get_ppn value) ≡ vms_get_page_pointer s i
  pub counted : (j : ℕ) → t.ref_track j ≡ update s.ref_track i references j
  pub others :
      (x : ℕ) → IsSeparate original 8 x 1 → IsSeparate forked 8 x 1 → t.memory x ≡ s.memory x
  pub allocated : t.allocated ≡ s.allocated
  pub same_base : t.base_pointer ≡ s.base_pointer
  pub same_used : t.used_pages ≡ s.used_pages
  pub same_root : t.root_page_table ≡ s.root_page_table

module _ (s : Machine) (original forked i e f : ℕ)
    (space : s.base_pointer + max_pages * page_size ≤ 2 ^ 64) (index : i < max_pages)
    (fits : e < 2 ^ 64) (fits_forked : f < 2 ^ 64) (ho : Holds s original e) (hf : Holds s forked f)
    (apart : IsSeparate original 8 forked 8)
    (page : vms_ppn_to_page (vms_pte_get_ppn e) ≡ vms_get_page_pointer s i) where
  -- With the flags of both entries written.
  abbrev flagged : Machine
  flagged = stored original (as_shared e) (
      stored original (vms_pte_write_clear e)
        (stored forked (as_shared f) (stored forked (vms_pte_write_clear f) s)))

  abbrev shared : Machine
  shared =
      stored forked (as_shared e)
        (record flagged { ref_track = update s.ref_track i (suc (s.ref_track i)) })

  original-kept :
      Holds (stored forked (as_shared f) (stored forked (vms_pte_write_clear f) s)) original e
  original-kept =
      Holds-apart forked (as_shared f) (Holds-apart forked (vms_pte_write_clear f) ho apart) apart

  original-cleared :
      Holds
        (stored original
          (vms_pte_write_clear e)
          (stored forked (as_shared f) (stored forked (vms_pte_write_clear f) s)))
        original
        (vms_pte_write_clear e)
  original-cleared =
      Holds-put (vms_pte_write_clear e) original-kept (clear_flag-Turns write e fits).bound

  original-flagged : Holds flagged original (as_shared e)
  original-flagged = Holds-put (as_shared e) original-cleared (as_shared-bound e fits)

  same_page : vms_ppn_to_page (vms_pte_get_ppn (as_shared e)) ≡ vms_get_page_pointer flagged i
  unfolding vms_get_page_pointer
  same_page = ap vms_ppn_to_page (as_shared-ppn e fits) ∙ page

  in_array : array_index (pos i) flagged ≡ ok i flagged
  unfolding array_index
  in_array = ground (arith, index)

  share_page-shared : share_page original forked s ≡ ok tt shared
  unfolding share_page
  share_page-shared =
      rw
        (
          put_entry-Holds vms_pte_write_clear hf,
          put_entry-Holds vms_pte_custom_set
              (Holds-put (vms_pte_write_clear f) hf (clear_flag-Turns write f fits_forked).bound),
          put_entry-Holds vms_pte_write_clear original-kept,
          put_entry-Holds vms_pte_custom_set original-cleared,
          get_entry-Holds original-flagged,
          same_page,
          page_index-page_pointer flagged i index space,
          in_array,
        )
        (store-mapped (record flagged { ref_track = update s.ref_track i (suc (s.ref_track i)) }) 8
          forked (as_shared e) hf.mapped)

  shared-Shares : Shares s original forked i (as_shared e) (suc (s.ref_track i)) shared
  shared-Shares = record {
    original_holds = record {
      mapped = ho.mapped;
      loads =
          load_bytes-store_apart 8 original 8 forked (as_shared e) flagged.memory apart
          ∙ original-flagged.loads;
    };
    forked_holds = record {
      mapped = hf.mapped;
      loads =
          load_bytes-store_bytes 8 forked (as_shared e) flagged.memory
            (omega (arith, as_shared-bound e fits));
    };
    same_page = ap vms_ppn_to_page (as_shared-ppn e fits) ∙ page;
    counted = λ j. refl;
    others = λ x p q.
        store_bytes-outside 8 forked (as_shared e) x _ q
        ∙ store_bytes-outside 8 original (as_shared e) x _ p
        ∙ store_bytes-outside 8 original (vms_pte_write_clear e) x _ p
        ∙ store_bytes-outside 8 forked (as_shared f) x _ q
        ∙ store_bytes-outside 8 forked (vms_pte_write_clear f) x s.memory q;
    allocated = refl;
    same_base = refl;
    same_used = refl;
    same_root = refl;
  }

  shares_page :
      (vms_pte_write e ≡ true) ⊎ (vms_pte_custom e ≡ true)
      → not (vms_pte_write e) && not (vms_pte_custom e) ≡ false
  shares_page (inl w) = rw w refl
  shares_page (inr c) = ground (arith, c)

  -- The copy in the mode that shares pages, at an entry of a page that could be written, or that is
  -- marked as shared already, where the address of the page is that of page `i`: it returns, both
  -- entries then hold one value and lead to the page, which has a reference more, neither can be
  -- written and both are marked. Memory outside the two entries, and the pages in use, stay.
  pub copy_cow-Shares :
      (vms_pte_write e ≡ true) ⊎ (vms_pte_custom e ≡ true)
      → (t : Machine) × (copy_cow original forked s ≡ ok tt t)
        × Shares s original forked i (as_shared e) (suc (s.ref_track i)) t
        × (vms_pte_write (as_shared e) ≡ false)
        × (vms_pte_custom (as_shared e) ≡ true)
  unfolding copy_cow
  copy_cow-Shares may = (
    shared,
    rw (get_entry-Holds ho, shares_page may) share_page-shared,
    shared-Shares,
    as_shared-locked e fits,
    as_shared-marked e fits,
  )

  -- An entry that could not be written and is not marked is copied as it is, and counts no reference.
  pub copy_cow-locked :
      vms_pte_write e ≡ false
      → vms_pte_custom e ≡ false
      → (t : Machine) × (copy_cow original forked s ≡ ok tt t)
        × Shares s original forked i e (s.ref_track i) t
  unfolding copy_cow
  copy_cow-locked no_write no_custom = (
    stored forked e s,
    rw (get_entry-Holds ho, no_write, no_custom) (store-mapped s 8 forked e hf.mapped),
    record {
      original_holds = Holds-apart forked e ho apart;
      forked_holds = Holds-put e hf fits;
      same_page = page;
      counted = λ j. ground arith;
      others = λ x p q. store_bytes-outside 8 forked e x s.memory q;
      allocated = refl;
      same_base = refl;
      same_used = refl;
      same_root = refl;
    },
  )
