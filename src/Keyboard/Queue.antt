-- ===== src/Keyboard/Queue.antt =====
-- The buffer of characters as a queue of at most 255.
use dev_os.Prelude.{
  ℕ, zero, suc, ◌+◌, ◌-◌, ◌%◌, ◌<◌, ◌≡◌, ◌≢◌, refl, ap, ◌∙◌, arith, true, false, ◌==◌, ◌!=◌,
  if◌then◌else◌, List, [], ◌∷◌, ◌++◌, update, Bool-cases, inl, inr,
}
use dev_os.Prelude.Int.{ℤ, pos, negsuc}
use dev_os.Word.{u32}
use dev_os.Keyboard.{Keyboard, kb_buf_size, store_char, keyboard_poll}

pub record IsValid (k : Keyboard) : Type 0 where
  pub head_in : k.kb_head < kb_buf_size
  pub tail_in : k.kb_tail < kb_buf_size

-- `n` characters from slot `t` on, round the end of the buffer.
abbrev pub contents : (ℕ → ℕ) → ℕ → ℕ → List ℕ
contents b t zero = []
contents b t (suc n) = b t ∷ contents b ((t + 1) % kb_buf_size) n

abbrev pub size : Keyboard → ℕ
size k = (k.kb_head + kb_buf_size - k.kb_tail) % kb_buf_size

-- The characters that wait to be read, the oldest first.
abbrev pub queued : Keyboard → List ℕ
queued k = contents k.kb_buf k.kb_tail (size k)

contents-append :
    (b : ℕ → ℕ) (t n c h : ℕ)
    → t < 256
    → n < 256
    → h ≡ (t + n) % 256
    → contents (update b h c) t (suc n) ≡ contents b t n ++ (c ∷ [])
contents-append b t zero c h lt ln e = let same : h ≡ t = omega arith in rw same (ground arith)
contents-append b t (suc n) c h lt ln e =
    let other : (h == t) ≡ false = ground arith in
    let ih = contents-append b ((t + 1) % 256) n c h (omega arith) (omega arith) (omega arith) in
    rw other (ap (λ (l : List ℕ). b t ∷ l) ih)

pub store_char_full : (c : ℕ) (k : Keyboard) → IsValid k → size k ≡ 255 → store_char c k ≡ k
unfolding store_char
store_char_full c k v full =
    let stop : (u32 (k.kb_head + 1) % kb_buf_size == k.kb_tail) ≡ true =
      ground (arith, v.head_in, v.tail_in, full) in
    simp stop

-- The keyboard with one more character.
abbrev stored : ℕ → Keyboard → Keyboard
stored c k = record k {
  kb_buf = update k.kb_buf k.kb_head c;
  kb_head = u32 (k.kb_head + 1) % kb_buf_size;
}

store_char_room : (c : ℕ) (k : Keyboard) → IsValid k → size k ≢ 255 → store_char c k ≡ stored c k
unfolding store_char
store_char_room c k v room =
    let on : (u32 (k.kb_head + 1) % kb_buf_size == k.kb_tail) ≡ false =
      ground (arith, v.head_in, v.tail_in, room) in
    simp on

stored-queued :
    (c : ℕ) (k : Keyboard) → IsValid k → size k ≢ 255 → queued (stored c k) ≡ queued k ++ (c ∷ [])
stored-queued c k v room =
    let more : size (stored c k) ≡ suc (size k) = omega (arith, v.head_in, v.tail_in, room) in
    ap (contents (stored c k).kb_buf k.kb_tail) more
    ∙ contents-append k.kb_buf k.kb_tail (size k) c k.kb_head v.tail_in (omega arith)
        (omega (arith, v.head_in, v.tail_in))

pub stored_char :
    (c : ℕ) (k : Keyboard)
    → IsValid k
    → (queued (store_char c k) ≡ (if size k == 255 then queued k else queued k ++ (c ∷ [])))
      × IsValid (store_char c k)
stored_char c k v = elim (Bool-cases (size k == 255)) [
  | inl full ↦ let e = store_char_full c k v (ground arith) in (simp (full, e), rw e v)
  | inr room ↦
      let ne : size k ≢ 255 = ground arith in
      let e = store_char_room c k v ne in
      (
        simp (room, e) (stored-queued c k v ne),
        rw e (record { head_in = omega arith; tail_in = v.tail_in }),
      )
]

pub store_char_states :
    (c : ℕ) (k : Keyboard)
    → ((store_char c k).shift_state ≡ k.shift_state) × ((store_char c k).caps_state ≡ k.caps_state)
unfolding store_char
store_char_states c k = elim (Bool-cases (u32 (k.kb_head + 1) % kb_buf_size != k.kb_tail)) [
  | inl e ↦ (rw e refl, rw e refl)
  | inr e ↦ (rw e refl, rw e refl)
]

-- What reading answers, for the characters that wait.
abbrev pub Polled : List ℕ → Keyboard → ℤ × Keyboard → Type 0
Polled [] k r = r ≡ (negsuc 0, k)
Polled (c ∷ cs) k r = (r.0 ≡ pos c) × (queued r.1 ≡ cs)

polled :
    (k : Keyboard) (n : ℕ)
    → IsValid k
    → size k ≡ n
    → Polled (contents k.kb_buf k.kb_tail n) k (keyboard_poll k)
unfolding keyboard_poll
polled k zero v e =
    let empty : (k.kb_head == k.kb_tail) ≡ true = ground (arith, v.head_in, v.tail_in) in simp empty
polled k (suc n) v e =
    let more : (k.kb_head == k.kb_tail) ≡ false = ground (arith, v.head_in, v.tail_in) in
    let next : u32 (k.kb_tail + 1) % kb_buf_size ≡ (k.kb_tail + 1) % kb_buf_size =
      omega (arith, v.tail_in) in
    let rest : (k.kb_head + kb_buf_size - (k.kb_tail + 1) % kb_buf_size) % kb_buf_size ≡ n =
      omega (arith, v.head_in, v.tail_in) in
    (simp more, simp (more, next, rest))

polled-IsValid : (k : Keyboard) → IsValid k → IsValid (keyboard_poll k).1
unfolding keyboard_poll
polled-IsValid k v = elim (Bool-cases (k.kb_head == k.kb_tail)) [
  | inl e ↦ rw e v
  | inr e ↦ rw e (record { head_in = v.head_in; tail_in = omega arith })
]

-- `keyboard_poll` takes the oldest character that waits, or answers -1 and changes nothing when
-- none waits. The buffer stays valid.
pub keyboard_poll-Polled :
    (k : Keyboard) → IsValid k → Polled (queued k) k (keyboard_poll k) × IsValid (keyboard_poll k).1
keyboard_poll-Polled k v = (polled k (size k) v refl, polled-IsValid k v)
