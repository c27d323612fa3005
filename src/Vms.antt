-- ===== src/Vms.antt =====
-- The virtual memory of vms/src: entries of page tables, physical pages, the MMU and copies.
pub mod Word
pub mod Pte
pub mod Machine
pub mod Pages
pub mod PageTable
pub mod Fault
pub mod Mmu
pub mod Copy
pub mod Demonstration
mod Tests
