-- ===== src/Mouse/Queue.antt =====
-- The events of kernel/drivers/mouse.c as a queue of at most 63.
use dev_os.Prelude.{
  subst, append-nil, ℕ, zero, suc, ◌+◌, ◌-◌, ◌%◌, ◌≤◌, ◌<◌, ◌≡◌, ◌≢◌, refl, ap, sym, ◌∙◌, arith,
  true, false, ◌==◌, List, [], ◌∷◌, ◌++◌, update, bit_and, length, Option, none, some, append_assoc,
}
use dev_os.Word.{u32}
use dev_os.Mouse.{
  Bool, Mouse, MouseEvent, mouse_buf_size, decode, store_event, mouse_byte, mouse_get_event,
}

-- `n` events from slot `t` on, round the end of the buffer.
abbrev pub contents : (ℕ → MouseEvent) → ℕ → ℕ → List MouseEvent
contents b t zero = []
contents b t (suc n) = b t ∷ contents b ((t + 1) % 64) n

abbrev pub size : Mouse → ℕ
size m = (m.mouse_head + 64 - m.mouse_tail) % 64

-- The events that wait, the oldest first.
abbrev pub waiting : Mouse → List MouseEvent
waiting m = contents m.mouse_buf m.mouse_tail (size m)

contents-append :
    (b : ℕ → MouseEvent) (t n h : ℕ) (ev : MouseEvent)
    → t < 64
    → n < 64
    → h ≡ (t + n) % 64
    → contents (update b h ev) t (suc n) ≡ contents b t n ++ (ev ∷ [])
contents-append b t zero h ev lt ln e = let same : (h == t) ≡ true = ground arith in simp same
contents-append b t (suc n) h ev lt ln e =
    let other : (h == t) ≡ false = ground arith in
    let ih = contents-append b ((t + 1) % 64) n h ev (omega arith) (omega arith) (omega arith) in
    rw other (ap (λ (l : List MouseEvent). b t ∷ l) ih)

-- With room for another event, storing one puts it behind those that wait.
store_event-room :
    (ev : MouseEvent) (m : Mouse)
    → m.mouse_head < 64
    → m.mouse_tail < 64
    → size m < 63
    → (waiting (store_event ev m) ≡ waiting m ++ (ev ∷ []))
      × (size (store_event ev m) ≡ suc (size m))
      × ((store_event ev m).mouse_head < 64)
      × ((store_event ev m).mouse_tail ≡ m.mouse_tail)
      × ((store_event ev m).packet ≡ m.packet)
unfolding store_event
store_event-room ev m hh ht room =
    let on : (u32 (m.mouse_head + 1) % mouse_buf_size == m.mouse_tail) ≡ false = ground arith in
    let more : (u32 (m.mouse_head + 1) % 64 + 64 - m.mouse_tail) % 64 ≡ suc (size m) =
      omega arith in
    (
      simp (on, more)
          (contents-append m.mouse_buf m.mouse_tail (size m) m.mouse_head ev ht (omega arith)
            (omega arith)),
      simp (on, more),
      simp on (omega arith),
      simp on,
      simp on,
    )

-- A packet as its three bytes; the first one has the bit to synchronise on.
pub record Packet : Type 0 where
  pub flags : ℕ
  pub raw_x : ℕ
  pub raw_y : ℕ

abbrev pub event_of : Packet → MouseEvent
event_of p = decode p.flags p.raw_x p.raw_y

abbrev pub IsSync : List Packet → Type 0
IsSync [] = Unit {0}
IsSync (p ∷ ps) = (bit_and p.flags 0x08 ≢ 0) × IsSync ps

-- The bytes of the packets, one after another, as the interrupts deliver them.
unfoldable pub feed : List Packet → Mouse → Mouse
feed [] m = m
feed (p ∷ ps) m = feed ps (mouse_byte p.raw_y (mouse_byte p.raw_x (mouse_byte p.flags m).0).0).0

abbrev pub events : List Packet → List MouseEvent
events [] = []
events (p ∷ ps) = event_of p ∷ events ps

three_bytes :
    (p : Packet) (m : Mouse)
    → bit_and p.flags 0x08 ≢ 0
    → m.packet ≡ []
    → (mouse_byte p.raw_y (mouse_byte p.raw_x (mouse_byte p.flags m).0).0).0
      ≡ store_event (event_of p) (record m { packet = [] })
unfolding mouse_byte
three_bytes p m sync fresh =
    let on : (bit_and p.flags 0x08 == 0) ≡ false = ground arith in
    let begun : mouse_byte p.flags m ≡ (record m { packet = p.flags ∷ [] }, false) =
      rw (fresh, on, mouse_byte) refl in
    ap (λ (x : Mouse × Bool). (mouse_byte p.raw_y (mouse_byte p.raw_x x.0).0).0) begun

feed-waiting :
    (ps : List Packet) (m : Mouse)
    → m.mouse_head < 64
    → m.mouse_tail < 64
    → m.packet ≡ []
    → IsSync ps
    → size m + length ps < 64
    → (waiting (feed ps m) ≡ waiting m ++ events ps)
      × (size (feed ps m) ≡ size m + length ps)
      × ((feed ps m).mouse_head < 64)
      × ((feed ps m).mouse_tail < 64)
unfolding feed
feed-waiting [] m hh ht fresh sync room = (sym (append-nil (waiting m)), omega arith, hh, ht)
feed-waiting (p ∷ ps) m hh ht fresh sync room =
    let clean = record m { packet = [] } in
    let m' = store_event (event_of p) clean in
    let r = store_event-room (event_of p) clean hh ht (omega arith) in
    let ih =
      feed-waiting ps m' r.2 (omega (arith, r.3, ht)) r.4 sync.1 (omega (arith, r.1, room)) in
    let read = three_bytes p m sync.0 fresh in
    subst
      (λ (x : Mouse).
        (waiting (feed ps x) ≡ waiting m ++ (event_of p ∷ events ps))
        × (size (feed ps x) ≡ size m + suc (length ps))
        × ((feed ps x).mouse_head < 64)
        × ((feed ps x).mouse_tail < 64))
      (sym read)
      (
        ih.0
            ∙ ap (λ (l : List MouseEvent). l ++ events ps) r.0
            ∙ append_assoc (waiting m) (event_of p ∷ []) (events ps),
        omega (arith, ih.1, r.1),
        ih.2,
        ih.3,
      )

-- Reads the waiting events, `n` at most.
unfoldable pub drain : ℕ → Mouse → List MouseEvent
drain zero m = []
drain (suc n) m =
    let (got, m1) = mouse_get_event m in
    let rest = drain n m1 in elim got [ none ↦ [] | some ev ↦ ev ∷ rest ]

mouse_get_event-none :
    (m : Mouse) → (m.mouse_head == m.mouse_tail) ≡ true → mouse_get_event m ≡ (none, m)
unfolding mouse_get_event
mouse_get_event-none m e = rw (e, mouse_get_event) refl

mouse_get_event-some :
    (m : Mouse)
    → (m.mouse_head == m.mouse_tail) ≡ false
    → m.mouse_tail < 64
    → mouse_get_event m
      ≡ (some (m.mouse_buf m.mouse_tail), record m { mouse_tail = (m.mouse_tail + 1) % 64 })
unfolding mouse_get_event
mouse_get_event-some m e ht =
    let following : u32 (m.mouse_tail + 1) % mouse_buf_size ≡ (m.mouse_tail + 1) % 64 =
      omega arith in
    rw (e, mouse_get_event)
      (ap (λ (t : ℕ). (some (m.mouse_buf m.mouse_tail), record m { mouse_tail = t })) following)

-- What `drain` does with an answer of `mouse_get_event`.
abbrev drained : ℕ → Option MouseEvent × Mouse → List MouseEvent
drained n r = elim r.0 [ none ↦ [] | some ev ↦ ev ∷ drain n r.1 ]

drain-drained : (n : ℕ) (m : Mouse) → drain (suc n) m ≡ drained n (mouse_get_event m)
unfolding drain
drain-drained n m = refl

drain-waiting :
    (n k : ℕ) (m : Mouse)
    → m.mouse_head < 64
    → m.mouse_tail < 64
    → size m ≡ k
    → k ≤ n
    → drain n m ≡ contents m.mouse_buf m.mouse_tail k
unfolding drain
drain-waiting zero zero m hh ht e le = refl
drain-waiting zero (suc k) m hh ht e le = absurd (omega arith)
drain-waiting (suc n) zero m hh ht e le =
    let empty : (m.mouse_head == m.mouse_tail) ≡ true = ground arith in
    drain-drained n m ∙ ap (drained n) (mouse_get_event-none m empty)
drain-waiting (suc n) (suc k) m hh ht e le =
    let some_left : (m.mouse_head == m.mouse_tail) ≡ false = ground arith in
    let run = mouse_get_event-some m some_left ht in
    let ih =
      drain-waiting n k (record m { mouse_tail = (m.mouse_tail + 1) % 64 }) hh (omega arith)
        (omega arith) (omega arith) in
    drain-drained n m
    ∙ ap (drained n) run
    ∙ (ap (λ (l : List MouseEvent). m.mouse_buf m.mouse_tail ∷ l) ih)

-- Up to 63 packets that arrive byte by byte while no event waits are read back as their events, in
-- the order of the packets, none lost and none twice.
pub drain-feed :
    (ps : List Packet) (m : Mouse) (n : ℕ)
    → m.mouse_head < 64
    → m.mouse_tail ≡ m.mouse_head
    → m.packet ≡ []
    → IsSync ps
    → length ps < 64
    → length ps ≤ n
    → drain n (feed ps m) ≡ events ps
drain-feed ps m n hh idle fresh sync room enough =
    let none_waits : size m ≡ 0 = omega (arith, idle, hh) in
    let r = feed-waiting ps m hh (omega (arith, idle, hh)) fresh sync (omega (arith, none_waits)) in
    drain-waiting n (size (feed ps m)) (feed ps m) r.2 r.3 refl (omega (arith, r.1, none_waits))
    ∙ r.0
    ∙ ap (λ (k : ℕ). contents m.mouse_buf m.mouse_tail k ++ events ps) none_waits
