-- ===== src/Vms/Tests/Copied.antt =====
-- The loop of copy in vms/src/vms.c over a table with one valid entry.
use ece344_operating_system.Common.{
  ℕ, ◌+◌, ◌*◌, ◌<◌, ◌≡◌, ◌≢◌, refl, ◌∙◌, inl, true, false, arith, ap,
}
use native.Mathlib.Decide.{ℕ_discrete}
use ece344_operating_system.Vms.Machine.{Machine, ok, load_bytes}
use ece344_operating_system.Vms.Machine.Bytes.{load_bytes-same, store_bytes-outside}
use ece344_operating_system.Vms.Pte.{vms_pte_valid}
use ece344_operating_system.Vms.Copy.{cow, for_each, copy_l0, num_pte_entries}
use ece344_operating_system.Vms.Copy.Table.{slot, entry_of, IsReady}
use ece344_operating_system.Vms.Copy.Loop.{Copies, for_each-Copies}
use ece344_operating_system.Vms.Tests.{base, tables}
use ece344_operating_system.Vms.Tests.Sharing.{sharing, shared_entry, shared_entry-page}

abbrev original : ℕ
original = base + 2 * 4096

-- A page of zeros.
abbrev forked : ℕ
forked = base + 4 * 4096

zero_entry : (k a : ℕ) → k < 512 → a ≡ slot forked k → load_bytes 8 a (sharing 1).memory ≡ 0
unfolding load_bytes
zero_entry k a inside same =
    load_bytes-same 8 a (sharing 1).memory (λ _. 0)
      (λ x p q.
        store_bytes-outside 8 (original + 188 * 8) shared_entry x _ (inl (omega (arith, p, same)))
        ∙ store_bytes-outside 8 (base + 4096 + 5 * 8) (258 * 1024 + 1) x _
            (inl (omega (arith, p, same)))
        ∙ store_bytes-outside 8 base (257 * 1024 + 1) x (λ _. 0) (inl (omega (arith, p, same))))

other_entry : (k : ℕ) → k < 512 → k ≢ 188 → entry_of original k (sharing 1) ≡ 0
unfolding load_bytes
other_entry k inside other =
    load_bytes-same 8 (slot original k) (sharing 1).memory (λ _. 0)
      (λ x p q.
        store_bytes-outside 8 (original + 188 * 8) shared_entry x _ (ground (arith, p, q, other))
        ∙ store_bytes-outside 8 (base + 4096 + 5 * 8) (258 * 1024 + 1) x _ (inl (omega (arith, p)))
        ∙ store_bytes-outside 8 base (257 * 1024 + 1) x (λ _. 0) (inl (omega (arith, p))))

valid_entry : entry_of original 188 (sharing 1) ≡ shared_entry
unfolding tables
valid_entry = refl

invalid : vms_pte_valid 0 ≡ false
unfolding vms_pte_valid
invalid = refl

zero-invalid : (e : ℕ) → e ≡ 0 → vms_pte_valid e ≢ true
zero-invalid e none valid =
    let off : vms_pte_valid e ≡ false = ap vms_pte_valid none ∙ invalid in
    ground (arith, off, valid)

sharing-IsReady : (k : ℕ) → k < 512 → IsReady (sharing 1) original forked k
sharing-IsReady k inside = record {
  original_mapped = ground (arith, inside);
  forked_mapped = ground (arith, inside);
  fits = elim (ℕ_discrete k 188) [
    | yes here ↦ omega (arith, ap (λ i. entry_of original i (sharing 1)) here, valid_entry)
    | no other ↦ omega (arith, other_entry k inside other)
  ];
  fits_forked = omega (arith, zero_entry k (slot forked k) inside refl);
  page = λ valid. elim (ℕ_discrete k 188) [
    | yes here ↦
        rw (ap (λ i. entry_of original i (sharing 1)) here ∙ valid_entry)
          (3, omega arith, shared_entry-page 1)
    | no other ↦
        absurd (zero-invalid (entry_of original k (sharing 1)) (other_entry k inside other) valid)
  ];
}

for_each-Copies_example :
    (t : Machine) × (for_each num_pte_entries 0 (copy_l0 cow original forked) (sharing 1) ≡ ok tt t)
    × Copies (sharing 1) original forked num_pte_entries 0 t
for_each-Copies_example =
    for_each-Copies original forked (inl (omega arith)) num_pte_entries 0 (sharing 1) (omega arith)
      (omega arith) (λ k p q. sharing-IsReady k (omega (arith, q)))
