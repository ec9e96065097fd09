-- ===== src/Keyboard/Tests.antt =====
-- kernel/drivers/keyboard.c on an empty buffer near its end.
use dev_os.Prelude.{refl, ◌≡◌, arith, true, false, []}
use dev_os.Keyboard.{Keyboard, kb_update}
use dev_os.Keyboard.Queue.{IsValid}
use dev_os.Keyboard.Keys.{character, shifted}
use dev_os.Keyboard.Typed.{IsTyped, kb_update-IsTyped}

abbrev empty : Keyboard
empty = record {
  kb_buf = λ i. 65;
  kb_head = 255;
  kb_tail = 255;
  kb_waiters = [];
  shift_state = true;
  caps_state = false;
}

empty-IsValid : IsValid empty
empty-IsValid = record { head_in = omega arith; tail_in = omega arith }

kb_update-IsTyped_example : IsTyped 0x1E empty (kb_update 0x1E empty).0
kb_update-IsTyped_example = kb_update-IsTyped 0x1E empty (omega arith) empty-IsValid

-- An upper-case A.
upper_a : character true 0x1E ≡ 65
unfolding character shifted
upper_a = refl
