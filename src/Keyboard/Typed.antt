-- ===== src/Keyboard/Typed.antt =====
-- What a scancode types: `kb_irq_handler` against the rows of a US keyboard.
use dev_os.Prelude.{
  sym, subst, not, Bool, bit_and, ℕ, ◌<◌, ◌≡◌, ◌∙◌, arith, true, false, ◌==◌, ◌!=◌, leb, ◌||◌,
  if◌then◌else◌, [], ◌∷◌, ◌++◌, bit_and, Bool-cases, inl, inr,
}
use dev_os.Keyboard.{Keyboard, translate, store_char, kb_update}
use dev_os.Keyboard.Queue.{IsValid, size, queued, stored_char, store_char_states}
use dev_os.Keyboard.Keys.{
  character, silent, low_bits, high_bit, plain_map, shift_map, silent-character,
}

translate-character :
    (sc : ℕ) (k : Keyboard)
    → sc < 256
    → translate sc k ≡ character (k.shift_state || k.caps_state) sc
unfolding translate
translate-character sc k lt = elim (Bool-cases (k.shift_state || k.caps_state)) [
  | inl e ↦ rw e (shift_map sc lt)
  | inr e ↦ rw e (plain_map sc lt)
]

-- The keyboard after a scancode. The character of the key is behind the characters that wait, if
-- it has one and fewer than 255 wait; the left or right shift key is held from its press to its
-- release; and the caps lock changes at its press.
pub record IsTyped (sc : ℕ) (k k' : Keyboard) : Type 0 where
  pub chars : queued k' ≡ (
      let c = character (k.shift_state || k.caps_state) sc in
      if c == 0 || size k == 255 then queued k else queued k ++ (c ∷ []))
  pub shift : k'.shift_state ≡ (
      if sc == 0x2A || sc == 0x36
      then true
      else if sc == 0xAA || sc == 0xB6
      then false
      else k.shift_state)
  pub caps : k'.caps_state ≡ (if sc == 0x3A then not k.caps_state else k.caps_state)
  pub valid : IsValid k'

-- A scancode without a character changes the two states at most.
silent_IsTyped :
    (sc : ℕ) (k : Keyboard) (s c : Bool)
    → IsValid k
    → character (k.shift_state || k.caps_state) sc ≡ 0
    → s ≡ (
        if sc == 0x2A || sc == 0x36
        then true
        else if sc == 0xAA || sc == 0xB6
        then false
        else k.shift_state)
    → c ≡ (if sc == 0x3A then not k.caps_state else k.caps_state)
    → IsTyped sc k (record k { shift_state = s; caps_state = c })
silent_IsTyped sc k s c v quiet shift caps = record {
  chars = simp quiet;
  shift = shift;
  caps = caps;
  valid = record { head_in = v.head_in; tail_in = v.tail_in };
}

release_IsTyped :
    (sc : ℕ) (k : Keyboard)
    → IsValid k
    → sc < 256
    → leb 128 sc ≡ true
    → character (k.shift_state || k.caps_state) sc ≡ 0
    → IsTyped sc k (
        if bit_and sc 0x7F == 0x2A || bit_and sc 0x7F == 0x36
        then record k { shift_state = false }
        else k)
release_IsTyped sc k v lt high quiet =
    let low = low_bits sc lt in
    elim (Bool-cases (bit_and sc 0x7F == 0x2A || bit_and sc 0x7F == 0x36)) [
      | inl e ↦
          let off : (sc == 0xAA || sc == 0xB6) ≡ true = ground (arith, low) in
          let press : (sc == 0x2A || sc == 0x36) ≡ false = ground arith in
          let lock : (sc == 0x3A) ≡ false = ground arith in
          simp e (silent_IsTyped sc k false k.caps_state v quiet (simp (press, off)) (simp lock))
      | inr e ↦
          let off : (sc == 0xAA || sc == 0xB6) ≡ false = ground (arith, low) in
          let press : (sc == 0x2A || sc == 0x36) ≡ false = ground arith in
          let lock : (sc == 0x3A) ≡ false = ground arith in
          simp e
            (silent_IsTyped sc k k.shift_state k.caps_state v quiet (simp (press, off)) (simp lock))
    ]

press_IsTyped :
    (sc : ℕ) (k : Keyboard)
    → IsValid k
    → leb 128 sc ≡ false
    → (sc == 0x2A || sc == 0x36) ≡ false
    → (sc == 0x3A) ≡ false
    → translate sc k ≡ character (k.shift_state || k.caps_state) sc
    → IsTyped sc k (
        if translate sc k == 0
        then k
        else record (store_char (translate sc k) k) { kb_waiters = [] })
press_IsTyped sc k v high press lock same =
    let off : (sc == 0xAA || sc == 0xB6) ≡ false = ground arith in
    elim (Bool-cases (translate sc k == 0)) [
      | inl e ↦ simp e (
          silent_IsTyped sc k k.shift_state k.caps_state v (sym same ∙ ground arith)
            (simp (press, off)) (simp lock))
      | inr e ↦
          let r = stored_char (translate sc k) k v in
          let states = store_char_states (translate sc k) k in
          let some_char : (character (k.shift_state || k.caps_state) sc == 0) ≡ false =
            subst (λ (x : ℕ). (x == 0) ≡ false) same e in
          simp e (record {
            chars = simp some_char (
                subst
                  (λ (x : ℕ).
                    queued (store_char (translate sc k) k)
                    ≡ (if size k == 255 then queued k else queued k ++ (x ∷ [])))
                  same r.0);
            shift = states.0 ∙ simp (press, off);
            caps = states.1 ∙ simp lock;
            valid = record { head_in = r.1.head_in; tail_in = r.1.tail_in };
          })
    ]

-- A scancode of a key with a character puts that character, from a US keyboard's rows and shifted
-- while shift is held or the caps lock is on, behind the characters that wait, or drops it when 255
-- wait. Every other scancode leaves them. The presses and releases of the shift keys and the press
-- of the caps lock set the two states, no other scancode does, and the buffer stays valid.
pub kb_update-IsTyped :
    (sc : ℕ) (k : Keyboard) → sc < 256 → IsValid k → IsTyped sc k (kb_update sc k).0
unfolding kb_update
kb_update-IsTyped sc k lt v =
    let up = k.shift_state || k.caps_state in
    let same : translate sc k ≡ character up sc = translate-character sc k lt in
    let quiet : (if silent sc then character up sc else 0) ≡ 0 = silent-character up sc lt in
    let high = high_bit sc lt in
    elim (Bool-cases (leb 128 sc)) [
      | inl e ↦
          let set : (bit_and sc 0x80 != 0) ≡ true = ground (arith, high) in
          let none_here : character up sc ≡ 0 = ground (arith, quiet) in
          simp set (elim (Bool-cases (bit_and sc 0x7F == 0x2A || bit_and sc 0x7F == 0x36)) [
            | inl b ↦ simp b (simp b at (release_IsTyped sc k v lt e none_here))
            | inr b ↦ simp b (simp b at (release_IsTyped sc k v lt e none_here))
          ])
      | inr e ↦
          let clear : (bit_and sc 0x80 != 0) ≡ false = ground (arith, high) in
          simp clear (elim (Bool-cases (sc == 0x2A || sc == 0x36)) [
            | inl b ↦
                let none_here : character up sc ≡ 0 = ground (arith, quiet) in
                let lock : (sc == 0x3A) ≡ false = ground arith in
                simp b (silent_IsTyped sc k true k.caps_state v none_here (simp b) (simp lock))
            | inr b ↦ elim (Bool-cases (sc == 0x3A)) [
              | inl c ↦
                  let none_here : character up sc ≡ 0 = ground (arith, quiet) in
                  let off : (sc == 0xAA || sc == 0xB6) ≡ false = ground arith in
                  simp (b, c)
                    (silent_IsTyped sc k k.shift_state (not k.caps_state) v none_here
                      (simp (b, off)) (simp c))
              | inr c ↦ elim (Bool-cases (translate sc k == 0)) [
                | inl z ↦ simp (b, c, e, z) (simp z at (press_IsTyped sc k v e b c same))
                | inr z ↦ simp (b, c, e, z) (simp z at (press_IsTyped sc k v e b c same))
              ]
            ]
          ])
    ]
