-- ===== src/Keyboard.antt =====
-- kernel/drivers/keyboard.c: the translation of scancodes, the buffer of characters, and the tasks
-- that wait for one. Reading the port is the argument `sc`; a read that blocks is not modelled.
pub mod Queue
pub mod Keys
pub mod Typed
mod Tests
use dev_os.Prelude.{
  ℕ, zero, suc, ◌+◌, ◌%◌, ◌/◌, Bool, true, false, not, ◌==◌, ◌!=◌, ltb, leb, ◌||◌, if◌then◌else◌,
  Option, none, some, List, [], ◌∷◌, get_or, update, bit_and,
}
use dev_os.Prelude.Int.{ℤ, pos, negsuc}
use dev_os.Word.{u32}
use dev_os.Sched.{Sched, sched_unblock, ◌>>=◌}

abbrev pub kb_buf_size : ℕ
kb_buf_size = 256

pub record Keyboard : Type 0 where
  pub kb_buf : ℕ → ℕ
  pub kb_head : ℕ
  pub kb_tail : ℕ
  pub kb_waiters : List ℕ
  pub shift_state : Bool
  pub caps_state : Bool

-- The characters' codes, from scancode 0 on; the rest of the tables is 0.
abbrev pub scancode_map : List ℕ
scancode_map =
    0 ∷ 27 ∷ 49 ∷ 50 ∷ 51 ∷ 52 ∷ 53 ∷ 54 ∷ 55 ∷ 56 ∷ 57 ∷ 48 ∷ 45 ∷ 61 ∷ 8 ∷ 9 ∷ 113 ∷ 119 ∷ 101
    ∷ 114 ∷ 116 ∷ 121 ∷ 117 ∷ 105 ∷ 111 ∷ 112 ∷ 91 ∷ 93 ∷ 10 ∷ 0 ∷ 97 ∷ 115 ∷ 100 ∷ 102 ∷ 103 ∷ 104
    ∷ 106 ∷ 107 ∷ 108 ∷ 59 ∷ 39 ∷ 96 ∷ 0 ∷ 92 ∷ 122 ∷ 120 ∷ 99 ∷ 118 ∷ 98 ∷ 110 ∷ 109 ∷ 44 ∷ 46 ∷ 47
    ∷ 0 ∷ 42 ∷ 0 ∷ 32 ∷ []

abbrev pub scancode_shift_map : List ℕ
scancode_shift_map =
    0 ∷ 27 ∷ 33 ∷ 64 ∷ 35 ∷ 36 ∷ 37 ∷ 94 ∷ 38 ∷ 42 ∷ 40 ∷ 41 ∷ 95 ∷ 43 ∷ 8 ∷ 9 ∷ 81 ∷ 87 ∷ 69 ∷ 82
    ∷ 84 ∷ 89 ∷ 85 ∷ 73 ∷ 79 ∷ 80 ∷ 123 ∷ 125 ∷ 10 ∷ 0 ∷ 65 ∷ 83 ∷ 68 ∷ 70 ∷ 71 ∷ 72 ∷ 74 ∷ 75 ∷ 76
    ∷ 58 ∷ 34 ∷ 126 ∷ 0 ∷ 124 ∷ 90 ∷ 88 ∷ 67 ∷ 86 ∷ 66 ∷ 78 ∷ 77 ∷ 60 ∷ 62 ∷ 63 ∷ 0 ∷ 42 ∷ 0 ∷ 32
    ∷ []

-- The character of a key, 0 for none.
unfoldable pub translate : ℕ → Keyboard → ℕ
translate sc k =
    if k.shift_state || k.caps_state
    then get_or scancode_shift_map sc 0
    else get_or scancode_map sc 0

-- Stores a character, unless the buffer is full.
unfoldable pub store_char : ℕ → Keyboard → Keyboard
store_char c k =
    let next = u32 (k.kb_head + 1) % kb_buf_size in
    if next != k.kb_tail
    then record k { kb_buf = update k.kb_buf k.kb_head c; kb_head = next }
    else k

-- The loop over the waiting tasks.
unfoldable pub unblock_all : List ℕ → Sched → Option Sched
unblock_all [] s = some s
unblock_all (t ∷ ts) s =
    let after = (if t == 0 then some s else sched_unblock t s) in after >>= unblock_all ts

-- What the handler does to the keyboard, and whether it goes on to the waiting tasks.
unfoldable pub kb_update : ℕ → Keyboard → Keyboard × Bool
kb_update sc k =
    let low = bit_and sc 0x7F in
    let c = translate sc k in
    if bit_and sc 0x80 != 0
    then (if low == 0x2A || low == 0x36
        then (record k { shift_state = false }, false)
        else (k, false))
    else if sc == 0x2A || sc == 0x36
    then (record k { shift_state = true }, false)
    else if sc == 0x3A
    then (record k { caps_state = not k.caps_state }, false)
    else if leb 128 sc
    then (k, false)
    else if c == 0
    then (k, false)
    else (record (store_char c k) { kb_waiters = [] }, true)

unfoldable pub kb_irq_handler : ℕ → Keyboard → Sched → Option (Keyboard × Sched)
kb_irq_handler sc k s =
    let (k', wakes) = kb_update sc k in
    if wakes then unblock_all k.kb_waiters s >>= (λ s'. some (k', s')) else some (k', s)

unfoldable pub keyboard_poll : Keyboard → ℤ × Keyboard
keyboard_poll k =
    if k.kb_head == k.kb_tail
    then (negsuc 0, k)
    else (pos (k.kb_buf k.kb_tail), record k { kb_tail = u32 (k.kb_tail + 1) % kb_buf_size })
