-- ===== src/Vms/Copy/Loop.antt =====
-- The whole loop of copy in vms/src/vms.c over a table of level 0, in the mode that shares pages.
use ece344_operating_system.Common.{
  ℕ, zero, suc, ◌+◌, ◌*◌, ◌^◌, ◌<◌, ◌≤◌, ◌≡◌, refl, ◌∙◌, sym, ap, inl, inr, arith, dec_lt,
}
use ece344_operating_system.Vms.Machine.{page_size, max_pages, Machine, ok}
use ece344_operating_system.Vms.Machine.Bytes.{IsSeparate, load_bytes-same}
use ece344_operating_system.Vms.Pages.{vms_get_page_pointer}
use ece344_operating_system.Vms.Copy.{cow, for_each, copy_l0}
use ece344_operating_system.Vms.Copy.Table.{
  slot, entry_of, after_copy, references, IsReady, IsCopied, Step,
}
use ece344_operating_system.Vms.Copy.Entry.{copy_l0-Step}

-- What the loop over `n` entries from `i` on leaves.
pub record Copies (s : Machine) (original forked n i : ℕ) (t : Machine) : Type 0 where
  pub entries : (k : ℕ) → i ≤ k → k < i + n → IsCopied s original forked k t
  pub counted : (j : ℕ) → t.ref_track j ≡ s.ref_track j + references n i original s j
  pub others :
      (x : ℕ)
      → IsSeparate (slot original i) (n * 8) x 1
      → IsSeparate (slot forked i) (n * 8) x 1
      → t.memory x ≡ s.memory x
  pub allocated : t.allocated ≡ s.allocated
  pub same_base : t.base_pointer ≡ s.base_pointer
  pub same_used : t.used_pages ≡ s.used_pages
  pub same_root : t.root_page_table ≡ s.root_page_table

module _ (original forked : ℕ) (apart : IsSeparate original page_size forked page_size) where
  module _ {s t : Machine} {i : ℕ} (step : Step s original forked i t) (inside : i < 512) where
    module _ (k : ℕ) (above : i < k) (upto : k < 512) where
      original-later : entry_of original k t ≡ entry_of original k s
      original-later = load_bytes-same 8 (slot original k) t.memory s.memory (λ x p q.
          step.others x (inl (omega (arith, p, above))) (ground (arith, p, q, apart, upto, inside)))

      forked-later : entry_of forked k t ≡ entry_of forked k s
      forked-later = load_bytes-same 8 (slot forked k) t.memory s.memory (λ x p q.
          step.others x (ground (arith, p, q, apart, upto, inside)) (inl (omega (arith, p, above))))

      IsReady-later : IsReady s original forked k → IsReady t original forked k
      unfolding vms_get_page_pointer
      IsReady-later h = record {
        original_mapped = rw step.same_base h.original_mapped;
        forked_mapped = rw step.same_base h.forked_mapped;
        fits = rw original-later h.fits;
        fits_forked = rw forked-later h.fits_forked;
        page = rw (original-later, step.same_base) h.page;
      }

    references-later :
        (n m j : ℕ)
        → i < m
        → m + n ≤ 512
        → references n m original t j ≡ references n m original s j
    unfolding vms_get_page_pointer
    references-later zero m j above upto = refl
    references-later (suc n) m j above upto =
        rw
          (
            references-later n (suc m) j (omega (arith, above)) (omega (arith, upto)),
            original-later m above (omega (arith, upto)),
            step.same_base,
          )
          refl

    module _ {n : ℕ} (upto : suc i + n ≤ 512) {u : Machine}
        (rest : Copies t original forked n (suc i) u) where
      original-kept : entry_of original i u ≡ entry_of original i t
      original-kept = load_bytes-same 8 (slot original i) u.memory t.memory (λ x p q.
          rest.others x (inr (omega (arith, q))) (ground (arith, p, q, apart, upto, inside)))

      forked-kept : entry_of forked i u ≡ entry_of forked i t
      forked-kept = load_bytes-same 8 (slot forked i) u.memory t.memory (λ x p q.
          rest.others x (ground (arith, p, q, apart, upto, inside)) (inr (omega (arith, q))))

      first-IsCopied : IsCopied s original forked i u
      first-IsCopied = record {
        original_entry = original-kept ∙ step.entry.original_entry;
        forked_entry = forked-kept ∙ step.entry.forked_entry;
        same_page = rw original-kept step.entry.same_page;
        locked = rw original-kept step.entry.locked;
        marked = rw original-kept step.entry.marked;
      }

      later-IsCopied : (k : ℕ) → i < k → k < suc i + n → IsCopied s original forked k u
      later-IsCopied k above inner =
          let h = rest.entries k above inner in
          let now = original-later k above (omega (arith, inner, upto)) in
          record {
            original_entry = h.original_entry ∙ ap after_copy now;
            forked_entry =
                rw (sym now, sym (forked-later k above (omega (arith, inner, upto))))
                  h.forked_entry;
            same_page = rw (sym now) h.same_page;
            locked = rw (sym now) h.locked;
            marked = rw (sym now) h.marked;
          }

      Copies-first : Copies s original forked (suc n) i u
      Copies-first = record {
        entries = λ k p q. elim (dec_lt i k) [
          | yes above ↦ later-IsCopied k above (omega (arith, q))
          | no here ↦ let same : k ≡ i = omega (arith, p, here) in rw same first-IsCopied
        ];
        counted = λ j. omega (
          arith,
          rest.counted j,
          step.counted j,
          references-later n (suc i) j (omega arith) upto,
        );
        others = λ x p q.
            rest.others x (ground (arith, p)) (ground (arith, q))
            ∙ step.others x (ground (arith, p)) (ground (arith, q));
        allocated = rest.allocated ∙ step.allocated;
        same_base = rest.same_base ∙ step.same_base;
        same_used = rest.same_used ∙ step.same_used;
        same_root = rest.same_root ∙ step.same_root;
      }

  -- The loop of copy over `n` entries of a table of level 0, in the mode that shares pages, where the
  -- tables are apart, the entries of both can be read, and a valid entry of the original leads to a page
  -- of the mapping: it returns. A valid entry is then the same in both tables, has its page number and
  -- cannot be written; one that could be written, or was marked, is marked, and its page has a reference
  -- more for each such entry. An entry that is not valid stays as it is in both tables, and so do memory
  -- outside of the entries, the pages in use, their number, the mapping and the root table.
  pub for_each-Copies :
      (n i : ℕ) (s : Machine)
      → s.base_pointer + max_pages * page_size ≤ 2 ^ 64
      → i + n ≤ 512
      → ((k : ℕ) → i ≤ k → k < i + n → IsReady s original forked k)
      → (t : Machine) × (for_each n i (copy_l0 cow original forked) s ≡ ok tt t)
        × Copies s original forked n i t
  unfolding for_each
  for_each-Copies zero i s space upto ready = (
    s,
    refl,
    record {
      entries = λ k p q. absurd (omega (arith, p, q));
      counted = λ j. omega arith;
      others = λ x p q. refl;
      allocated = refl;
      same_base = refl;
      same_used = refl;
      same_root = refl;
    },
  )
  for_each-Copies (suc n) i s space upto ready =
      let (t, first, step) =
        copy_l0-Step s original forked i space apart (omega (arith, upto))
          (ready i (omega arith) (omega arith)) in
      let inside : i < 512 = omega (arith, upto) in
      let (u, returns, rest) =
        for_each-Copies n (suc i) t (rw step.same_base space) (omega (arith, upto)) (λ k p q.
          IsReady-later step inside k p (omega (arith, q, upto))
            (ready k (omega (arith, p)) (omega (arith, q)))) in
      (u, rw first returns, Copies-first step inside (omega (arith, upto)) rest)
