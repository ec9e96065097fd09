-- ===== src/Net/Ethernet.antt =====
-- kernel/drivers/net/ethernet.c: `eth_tx`.
use dev_os.Prelude.{ℕ, ◌+◌, ◌-◌, ltb, not, if◌then◌else◌, none, some, ◌∷◌, length}
use dev_os.Prelude.Int.{ℤ, negsuc}
use dev_os.Word.{u64}
use dev_os.Net.Order.{Buffer, htons}
use dev_os.Net.Checksum.{store16}
use dev_os.Net.Device.{Net, Frame, Outside, copy, fill}

abbrev pub eth_type_arp : ℕ
eth_type_arp = 0x0806

abbrev pub eth_type_ipv4 : ℕ
eth_type_ipv4 = 0x0800

abbrev pub eth_header_len : ℕ
eth_header_len = 14

abbrev pub eth_broadcast : Buffer
eth_broadcast i = 0xFF

-- The frame built in the memory `m`, before the padding.
abbrev pub eth_frame : Buffer → Buffer → Buffer → ℕ → Buffer → ℕ → Buffer
eth_frame m dst src ethertype payload payload_len =
    copy (store16 (copy (copy m 0 dst 0 6) 6 src 0 6) 12 (htons ethertype)) 14 payload 0 payload_len

abbrev pub padded : Buffer → ℕ → Frame
padded f total =
    if ltb total 60
    then record { bytes = fill f total 0 (60 - total); size = 60 }
    else record { bytes = f; size = total }

module _ (out : Outside) where
  unfoldable pub eth_tx : Buffer → ℕ → Buffer → ℕ → Net → ℤ × Net
  eth_tx dst ethertype payload payload_len s =
      let total = u64 (eth_header_len + payload_len) in
      if not s.can_send
      then (negsuc 0, s)
      else elim (out.kmalloc s.allocs (if ltb total 64 then 64 else total)) [
        | none ↦ (negsuc 0, record s { allocs = s.allocs + 1 })
        | some m ↦
            let f = padded (eth_frame m dst s.dev_mac ethertype payload payload_len) total in
            (out.send (length s.sent) f, record s { allocs = s.allocs + 1; sent = f ∷ s.sent })
      ]
