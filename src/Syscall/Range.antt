-- ===== src/Syscall/Range.antt =====
-- The check of user pointers in kernel/syscall/syscall.c.
use dev_os.Prelude.{ℕ, ◌+◌, ◌^◌, ◌≤◌, ◌<◌, ◌≡◌, ◌↔◌, true, arith}
use dev_os.Syscall.{uptr_ok, user_end}

-- For 64-bit numbers, `uptr_ok` accepts exactly the ranges that are not empty, do not start at
-- NULL and end, counted without wrap-around, at or below the end of user space.
pub uptr_ok_iff :
    (addr len : ℕ)
    → addr < 2 ^ 64
    → len < 2 ^ 64
    → (uptr_ok addr len ≡ true) ↔ ((0 < addr) × (0 < len) × (addr + len ≤ user_end))
unfolding uptr_ok
uptr_ok_iff addr len ha hl = ground arith
