-- ===== src/Net/Checksum.antt =====
-- `ipv4_checksum` of kernel/drivers/net/ipv4.c: the Internet checksum.
use dev_os.Prelude.{
  ℕ, zero, suc, ◌+◌, ◌-◌, ◌*◌, ◌/◌, ◌%◌, ◌^◌, ◌<◌, ◌≤◌, ◌≡◌, refl, arith, ◌==◌, if◌then◌else◌,
  update,
}
use dev_os.Word.{u32}
use dev_os.Net.Order.{Buffer, load16}

-- The loop over the words from offset `i`, with `len` bytes left, and the odd byte at the end.
unfoldable pub sum_words : Buffer → ℕ → ℕ → ℕ → ℕ
sum_words d i zero sum = sum
sum_words d i (suc zero) sum = u32 (sum + d i)
sum_words d i (suc (suc n)) sum = sum_words d (i + 2) n (u32 (sum + load16 d i))

-- `while (sum >> 16)`, with the number of rounds as fuel. Two are enough for any 32-bit sum.
unfoldable pub fold_carries : ℕ → ℕ → ℕ
fold_carries zero sum = sum
fold_carries (suc n) sum =
    let rest = fold_carries n (sum % 65536 + sum / 65536) in if sum / 65536 == 0 then sum else rest

-- `(uint16_t)~sum` of the folded sum.
unfoldable pub ipv4_checksum : Buffer → ℕ → ℕ
ipv4_checksum d len = 65535 - fold_carries 2 (sum_words d 0 len 0) % 65536

-- The sum of the words, without wrap-around.
abbrev pub total : Buffer → ℕ → ℕ → ℕ
total d i zero = 0
total d i (suc zero) = d i
total d i (suc (suc n)) = load16 d i + total d (i + 2) n

-- Every byte of the buffer is one.
abbrev pub IsBytes : Buffer → Type 0
IsBytes d = (i : ℕ) → d i < 256

total-bound : (d : Buffer) (i n : ℕ) → IsBytes d → total d i n ≤ 65535 * n
total-bound d i zero h = omega arith
total-bound d i (suc zero) h = let b = h i in omega (arith, b)
total-bound d i (suc (suc n)) h =
    let b = h i in
    let c = h (i + 1) in let ih = total-bound d (i + 2) n h in omega (arith, b, c, ih)

-- A sum below 2 ^ 32 does not wrap.
sum_words-total :
    (d : Buffer) (i n s : ℕ) → s + total d i n < 2 ^ 32 → sum_words d i n s ≡ s + total d i n
unfolding sum_words
sum_words-total d i zero s h = omega arith
sum_words-total d i (suc zero) s h = omega arith
sum_words-total d i (suc (suc n)) s h =
    let e : u32 (s + load16 d i) ≡ s + load16 d i = omega arith in
    rw e (let ih = sum_words-total d (i + 2) n (s + load16 d i) (omega arith) in omega (arith, ih))

sum_words_zero : (d : Buffer) (n : ℕ) → total d 0 n < 2 ^ 32 → sum_words d 0 n 0 ≡ total d 0 n
sum_words_zero d n h = let e = sum_words-total d 0 n 0 (omega arith) in omega (arith, e)

-- Storing the 16-bit word `c` at offset `k`.
abbrev pub store16 : Buffer → ℕ → ℕ → Buffer
store16 d k c = update (update d k (c % 256)) (k + 1) (c / 256)

total-apart : (d : Buffer) (i n k c : ℕ) → k + 1 < i → total (store16 d k c) i n ≡ total d i n
total-apart d i zero k c h = refl
total-apart d i (suc zero) k c h = ground arith
total-apart d i (suc (suc n)) k c h =
    let ih = total-apart d (i + 2) n k c (omega arith) in ground (arith, ih)

-- A word stored over a zero, `j` words on, adds to the sum.
total-store16 :
    (d : Buffer) (j i k n c : ℕ)
    → k ≡ i + 2 * j
    → 2 * j + 1 < n
    → load16 d k ≡ 0
    → total (store16 d k c) i n ≡ total d i n + c
total-store16 d j i k zero c e h z = absurd (omega arith)
total-store16 d j i k (suc zero) c e h z = absurd (omega arith)
total-store16 d zero i k (suc (suc n)) c e h z =
    let apart = total-apart d (i + 2) n k c (omega arith) in ground (arith, apart)
total-store16 d (suc j) i k (suc (suc n)) c e h z =
    let ih = total-store16 d j (i + 2) k n c (omega arith) (omega arith) z in ground (arith, ih)

-- Two rounds are enough: the result has no carry left.
fold_carries-bound : (s : ℕ) → s < 2 ^ 32 → fold_carries 2 s < 65536
unfolding fold_carries
fold_carries-bound s h = ground arith

-- Completing the sum to a multiple of 65535.
fold_carries-complement :
    (s : ℕ) → s < 2 ^ 32 - 65536 → fold_carries 2 (s + (65535 - fold_carries 2 s % 65536)) ≡ 65535
unfolding fold_carries
fold_carries-complement s h = ground arith

-- A checksum stored in a word that was zero makes the checksum of the whole zero, when the sum of
-- the words leaves room for one more.
pub ipv4_checksum-stored :
    (d : Buffer) (j len : ℕ)
    → total d 0 len < 2 ^ 32 - 65536
    → 2 * j + 1 < len
    → load16 d (2 * j) ≡ 0
    → ipv4_checksum (store16 d (2 * j) (ipv4_checksum d len)) len ≡ 0
unfolding ipv4_checksum
ipv4_checksum-stored d j len small h z =
    let c : ℕ = 65535 - fold_carries 2 (total d 0 len) % 65536 in
    let before : sum_words d 0 len 0 ≡ total d 0 len = sum_words_zero d len (omega arith) in
    let grown : total (store16 d (2 * j) c) 0 len ≡ total d 0 len + c =
      total-store16 d j 0 (2 * j) len c (omega arith) h z in
    let after : sum_words (store16 d (2 * j) c) 0 len 0 ≡ total (store16 d (2 * j) c) 0 len =
      sum_words_zero (store16 d (2 * j) c) len (omega (arith, grown)) in
    let whole = fold_carries-complement (total d 0 len) (omega arith) in
    simp (before, after, grown, whole)

-- A checksum stored in a word that was zero makes the checksum of the whole buffer zero, which is
-- what the receiver tests. The buffer may be up to 65,000 bytes long.
pub ipv4_checksum-store16 :
    (d : Buffer) (j len : ℕ)
    → IsBytes d
    → len ≤ 65000
    → 2 * j + 1 < len
    → load16 d (2 * j) ≡ 0
    → ipv4_checksum (store16 d (2 * j) (ipv4_checksum d len)) len ≡ 0
ipv4_checksum-store16 d j len b short h z =
    let small = total-bound d 0 len b in ipv4_checksum-stored d j len (omega (arith, small)) h z
