-- ===== src/Net/Receive.antt =====
-- Receiving: `ipv4_rx` of kernel/drivers/net/ipv4.c and `eth_rx` of kernel/drivers/net/ethernet.c.
use dev_os.Prelude.{ℕ, ◌+◌, ◌-◌, ◌*◌, ltb, ◌==◌, ◌||◌, not, if◌then◌else◌, bit_and}
use dev_os.Word.{u8, sub64}
use dev_os.Net.Order.{Buffer, load16, load32, htons, htonl}
use dev_os.Net.Checksum.{ipv4_checksum}
use dev_os.Net.Device.{Net, Outside}
use dev_os.Net.Ethernet.{eth_header_len, eth_type_arp, eth_type_ipv4}
use dev_os.Net.Arp.{arp_rx}
use dev_os.Net.Ipv4.{ipv4_header_size, icmp_rx}

-- The bytes from offset `k` on.
abbrev pub behind : ℕ → Buffer → Buffer
behind k d i = d (k + i)

module _ (out : Outside) where
  unfoldable pub ipv4_rx : Buffer → ℕ → Net → Net
  ipv4_rx buf len s =
      let ihl = u8 (bit_and (buf 0) 0xF * 4) in
      let payload_len = sub64 (htons (load16 buf 2)) ihl in
      if ltb len ipv4_header_size
      then s
      else if ltb ihl 20 || ltb (u8 len) ihl
      then s
      else if not (ipv4_checksum buf ihl == 0)
      then s
      else if not (htonl (load32 buf 16) == s.g_my_ip)
      then s
      else if buf 9 == 1
      then icmp_rx out buf (behind ihl buf) payload_len s
      else s

  unfoldable pub eth_rx : Buffer → ℕ → Net → Net
  eth_rx frame len s =
      let ethertype = htons (load16 frame 12) in
      if ltb len eth_header_len
      then s
      else if ethertype == eth_type_arp
      then arp_rx out (behind 14 frame) (len - eth_header_len) s
      else if ethertype == eth_type_ipv4
      then ipv4_rx (behind 14 frame) (len - eth_header_len) s
      else s
