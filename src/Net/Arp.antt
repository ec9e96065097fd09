-- ===== src/Net/Arp.antt =====
-- kernel/drivers/net/arp.c: the cache of addresses, requests and replies.
use dev_os.Prelude.{
  ℕ, zero, suc, ◌+◌, Bool, true, not, ◌==◌, ltb, ◌&&◌, if◌then◌else◌, Option, none, some, update,
}
use dev_os.Net.Order.{Buffer, load16, load32, htons, htonl}
use dev_os.Net.Checksum.{store16}
use dev_os.Net.Device.{Net, ArpEntry, Outside, copy, store8, store32}
use dev_os.Net.Ethernet.{eth_tx, eth_type_arp, eth_broadcast}

abbrev pub arp_cache_size : ℕ
arp_cache_size = 32

abbrev pub arp_packet_size : ℕ
arp_packet_size = 28

-- The first slot from `i` on, within `n` rounds, that passes the test.
unfoldable pub first_slot : (ℕ → Bool) → ℕ → ℕ → Option ℕ
first_slot p zero i = none
first_slot p (suc n) i = let rest = first_slot p n (i + 1) in if p i then some i else rest

abbrev pub has_ip : (ℕ → ArpEntry) → ℕ → ℕ → Bool
has_ip cache ip i = (cache i).valid && (cache i).ip == ip

abbrev pub is_free : (ℕ → ArpEntry) → ℕ → Bool
is_free cache i = not (cache i).valid

unfoldable pub arp_cache_update : ℕ → Buffer → (ℕ → ArpEntry) → ℕ → ArpEntry
arp_cache_update ip mac cache = elim (first_slot (has_ip cache ip) arp_cache_size 0) [
  | some i ↦ update cache i (record (cache i) { mac = mac })
  | none ↦ elim (first_slot (is_free cache) arp_cache_size 0) [
    | some i ↦ update cache i (record { ip = ip; mac = mac; valid = true })
    | none ↦ cache
  ]
]

-- The search of `arp_resolve`.
unfoldable pub arp_find : ℕ → (ℕ → ArpEntry) → Option Buffer
arp_find ip cache = elim (first_slot (has_ip cache ip) arp_cache_size 0) [
  | some i ↦ some (cache i).mac
  | none ↦ none
]

-- An `arp_packet_t` with this operation and these addresses.
abbrev pub arp_packet : ℕ → Buffer → ℕ → Buffer → ℕ → Buffer
arp_packet operation sender_mac sender_ip target_mac target_ip =
    store32
      (copy
        (store32
          (copy
            (store16
              (store8 (store8 (store16 (store16 (λ i. 0) 0 (htons 1)) 2 (htons 0x0800)) 4 6) 5 4) 6
              (htons operation))
            8 sender_mac 0 6)
          14 sender_ip)
        18 target_mac 0 6)
      24 target_ip

-- `pkt->sender_mac`
abbrev pub sender_mac : Buffer → Buffer
sender_mac buf i = buf (8 + i)

module _ (out : Outside) where
  unfoldable pub arp_rx : Buffer → ℕ → Net → Net
  arp_rx buf len s =
      let sender_ip = htonl (load32 buf 14) in
      let target_ip = htonl (load32 buf 24) in
      let s1 = record s { arp_cache = arp_cache_update sender_ip (sender_mac buf) s.arp_cache } in
      if ltb len arp_packet_size
      then s
      else if htons (load16 buf 6) == 1 && target_ip == htonl s1.my_ip
      then (eth_tx out (sender_mac buf) eth_type_arp
          (arp_packet 2 s1.dev_mac s1.my_ip (sender_mac buf) (load32 buf 14)) arp_packet_size s1).1
      else s1

  -- The address, or `none` for the result -1.
  unfoldable pub arp_resolve : ℕ → Net → Option Buffer × Net
  arp_resolve ip s = elim (arp_find ip s.arp_cache) [
    | some mac ↦ (some mac, s)
    | none ↦ (
      none,
      (eth_tx out eth_broadcast eth_type_arp (arp_packet 1 s.dev_mac s.my_ip (λ i. 0) (htonl ip))
          arp_packet_size s).1,
    )
  ]
