-- ===== src/Mouse.antt =====
-- kernel/drivers/mouse.c: packets of three bytes, and the ring buffer of events. The waiting
-- tasks are woken through the scheduler. Setting up the controller is port input and output.
pub mod Packet
pub mod Queue
mod Tests
use dev_os.Prelude.{
  ℕ, ◌+◌, ◌-◌, ◌/◌, ◌%◌, ◌^◌, ◌==◌, ◌!=◌, ltb, if◌then◌else◌, Bool, true, false, not, Option, none,
  some, List, [], ◌∷◌, update, bit_and, bit_or,
}
use dev_os.Prelude.Int.{ℤ, pos, negsuc}
use dev_os.Word.{u8, u32}
use dev_os.Sched.{Sched, sched_unblock}

-- `mouse_event_t` without `valid`, which is always set.
pub record MouseEvent : Type 0 where
  pub dx : ℤ
  pub dy : ℤ
  pub buttons : ℕ
  pub overflow_x : Bool
  pub overflow_y : Bool

abbrev pub mouse_buf_size : ℕ
mouse_buf_size = 64

-- The static variables; `packet` is the bytes of the packet so far, the first one first, and
-- `mouse_waiters` those up to `mouse_waiter_count`.
pub record Mouse : Type 0 where
  pub mouse_buf : ℕ → MouseEvent
  pub mouse_head : ℕ
  pub mouse_tail : ℕ
  pub packet : List ℕ
  pub mouse_waiters : List ℕ

-- `(int8_t)n`
abbrev pub int8 : ℕ → ℤ
int8 n = if ltb (u8 n) 128 then pos (u8 n) else negsuc (255 - u8 n)

-- `-n`, stored in an int8_t.
abbrev pub negated : ℤ → ℤ
negated (pos n) = if n == 0 then pos 0 else negsuc (n - 1)
negated (negsuc n) = if n == 127 then negsuc 127 else pos (n + 1)

unfoldable pub decode : ℕ → ℕ → ℕ → MouseEvent
decode flags raw_x raw_y = record {
  dx = if bit_and flags 0x10 != 0 then int8 (bit_or raw_x 0x100) else int8 raw_x;
  dy = negated (if bit_and flags 0x20 != 0 then int8 (bit_or raw_y 0x100) else int8 raw_y);
  buttons = bit_and flags 0x07;
  overflow_x = bit_and (flags / 2 ^ 6) 1 != 0;
  overflow_y = bit_and (flags / 2 ^ 7) 1 != 0;
}

unfoldable pub store_event : MouseEvent → Mouse → Mouse
store_event ev m =
    let following = u32 (m.mouse_head + 1) % mouse_buf_size in
    if following == m.mouse_tail
    then m
    else record m { mouse_buf = update m.mouse_buf m.mouse_head ev; mouse_head = following }

-- The loop that wakes the waiting tasks.
unfoldable pub wake_waiters : List ℕ → Sched → Option Sched
wake_waiters [] s = some s
wake_waiters (t ∷ ts) s = elim (t == 0) [
  | true ↦ wake_waiters ts s
  | false ↦ elim (sched_unblock t s) [ none ↦ none | some s1 ↦ wake_waiters ts s1 ]
]

-- One byte: what the handler does to the driver's variables, and whether a packet is complete.
unfoldable pub mouse_byte : ℕ → Mouse → Mouse × Bool
mouse_byte b m = elim m.packet [
  | [] ↦ if bit_and b 0x08 == 0 then (m, false) else (record m { packet = b ∷ [] }, false)
  | x ∷ [] ↦ (record m { packet = x ∷ b ∷ [] }, false)
  | x ∷ y ∷ zs ↦ (store_event (decode x y b) (record m { packet = [] }), true)
]

-- `status` and `b` are what the two ports give.
unfoldable pub mouse_irq_handler : ℕ → ℕ → Mouse → Sched → Option (Mouse × Sched)
mouse_irq_handler status b m s =
    let (m1, complete) = mouse_byte b m in
    if bit_and status 1 == 0
    then some (m, s)
    else if not complete
    then some (m1, s)
    else elim (wake_waiters m1.mouse_waiters s) [
      | none ↦ none
      | some s1 ↦ some (record m1 { mouse_waiters = [] }, s1)
    ]

-- `none` when there is no event.
unfoldable pub mouse_get_event : Mouse → Option MouseEvent × Mouse
mouse_get_event m = if m.mouse_head == m.mouse_tail then (none, m) else (
  some (m.mouse_buf m.mouse_tail),
  record m { mouse_tail = u32 (m.mouse_tail + 1) % mouse_buf_size },
)
