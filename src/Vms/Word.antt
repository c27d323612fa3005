-- ===== src/Vms/Word.antt =====
-- The operators of C on uint64_t, as vms/src uses them.
use ece344_operating_system.Common.{ℕ, ◌-◌, ◌*◌, ◌/◌, ◌%◌, ◌^◌}

abbrev pub ones : ℕ
ones = 2 ^ 64 - 1

-- ~a
abbrev pub bit_not : ℕ → ℕ
bit_not a = ones - a

-- a << k
abbrev pub shift_left : ℕ → ℕ → ℕ
shift_left a k = a * 2 ^ k % 2 ^ 64

-- a >> k
abbrev pub shift_right : ℕ → ℕ → ℕ
shift_right a k = a / 2 ^ k
