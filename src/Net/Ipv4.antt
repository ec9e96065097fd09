-- ===== src/Net/Ipv4.antt =====
-- `ipv4_send` of kernel/drivers/net/ipv4.c, and kernel/drivers/net/icmp.c.
use dev_os.Prelude.{ℕ, ◌+◌, ltb, ◌==◌, not, if◌then◌else◌, none, some}
use dev_os.Prelude.Int.{ℤ, negsuc}
use dev_os.Word.{u16, u64}
use dev_os.Net.Order.{Buffer, load32, htons, htonl}
use dev_os.Net.Checksum.{store16, ipv4_checksum}
use dev_os.Net.Device.{Net, Outside, copy, store8, store32}
use dev_os.Net.Ethernet.{eth_tx, eth_type_ipv4}
use dev_os.Net.Arp.{arp_resolve}

abbrev pub ipv4_header_size : ℕ
ipv4_header_size = 20

abbrev pub icmp_header_size : ℕ
icmp_header_size = 8

-- The header in the memory `m`, with the checksum still 0.
abbrev pub ipv4_header : Buffer → ℕ → ℕ → ℕ → ℕ → ℕ → Buffer
ipv4_header m total id proto src dst =
    store32
      (store32
        (store16
          (store8
            (store8
              (store16
                (store16 (store16 (store8 (store8 m 0 0x45) 1 0) 2 (htons (u16 total))) 4
                  (htons id))
                6 0)
              8 64)
            9 proto)
          10 0)
        12 (htonl src))
      16 (htonl dst)

-- The header with its checksum, and the payload behind it.
unfoldable pub ipv4_packet : Buffer → ℕ → ℕ → ℕ → ℕ → Buffer → ℕ → Buffer
ipv4_packet m id proto src dst payload payload_len =
    let h = ipv4_header m (u64 (ipv4_header_size + payload_len)) id proto src dst in
    copy (store16 h 10 (ipv4_checksum h ipv4_header_size)) 20 payload 0 payload_len

module _ (out : Outside) where
  unfoldable pub ipv4_send : ℕ → ℕ → Buffer → ℕ → Net → ℤ × Net
  ipv4_send dst_ip proto payload payload_len s =
      let total = u64 (ipv4_header_size + payload_len) in
      let s1 = record s { allocs = s.allocs + 1 } in
      elim (out.kmalloc s.allocs total) [
        | none ↦ (negsuc 0, s1)
        | some m ↦
            let pkt = ipv4_packet m s1.g_ip_id proto s1.g_my_ip dst_ip payload payload_len in
            let (found, s2) =
              arp_resolve out dst_ip (record s1 { g_ip_id = u16 (s1.g_ip_id + 1) }) in
            elim found [
              | none ↦ (negsuc 0, s2)
              | some dst_mac ↦ eth_tx out dst_mac eth_type_ipv4 pkt total s2
            ]
      ]

  -- `ip_hdr` is the packet's header, `buf` the `len` bytes behind it.
  unfoldable pub icmp_rx : Buffer → Buffer → ℕ → Net → Net
  icmp_rx ip_hdr buf len s =
      if ltb len icmp_header_size
      then s
      else if not (ipv4_checksum buf len == 0)
      then s
      else if buf 0 == 8
      then (let s1 = record s { allocs = s.allocs + 1 } in
          elim (out.kmalloc s.allocs len) [
            | none ↦ s1
            | some m ↦
                let r = store16 (store8 (copy m 0 buf 0 len) 0 0) 2 0 in
                let reply = store16 r 2 (ipv4_checksum r len) in
                (ipv4_send (htonl (load32 ip_hdr 12)) 1 reply len s1).1
          ])
      else s
