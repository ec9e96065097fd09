-- ===== src/Net/Order.antt =====
-- Byte order (kernel/drivers/net/ethernet.h), and the little-endian loads and stores of the CPU.
-- A buffer is a function from the offset of a byte to its value.
use dev_os.Prelude.{ℕ, ◌+◌, ◌*◌, ◌/◌, ◌^◌, bit_and, bit_or}
use dev_os.Word.{u16, u32}

abbrev pub Buffer : Type 0
Buffer = ℕ → ℕ

abbrev pub load16 : Buffer → ℕ → ℕ
load16 d i = d i + 256 * d (i + 1)

abbrev pub load32 : Buffer → ℕ → ℕ
load32 d i = load16 d i + 65536 * load16 d (i + 2)

-- `(uint16_t)((v >> 8) | (v << 8))`
unfoldable pub htons : ℕ → ℕ
htons v = u16 (bit_or (v / 2 ^ 8) (v * 2 ^ 8))

unfoldable pub htonl : ℕ → ℕ
htonl v =
    bit_or
      (bit_or (bit_or (u32 (bit_and v 0xFF * 2 ^ 24)) (bit_and (v / 2 ^ 8) 0xFF * 2 ^ 16))
        (bit_and (v / 2 ^ 16) 0xFF * 2 ^ 8))
      (bit_and (v / 2 ^ 24) 0xFF)
