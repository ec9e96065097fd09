-- ===== src/Net/Resolve.antt =====
-- What ARP and Ethernet do together: a neighbour that spoke can be reached, and what a frame holds.
use dev_os.Prelude.{
  ℕ, ◌+◌, ◌<◌, ◌≤◌, ◌≡◌, ◌≢◌, ap, ◌∙◌, arith, true, false, ltb, ◌==◌, ◌&&◌, if◌then◌else◌,
  Bool-cases, Option-cases, inl, inr, some,
}
use dev_os.Word.{u64}
use dev_os.Net.Order.{Buffer, load16, load32, htons, htonl}
use dev_os.Net.Device.{Net, Outside}
use dev_os.Net.Ethernet.{eth_tx}
use dev_os.Net.Arp.{
  arp_cache_size, arp_packet_size, arp_cache_update, arp_find, arp_rx, arp_resolve, sender_mac,
}
use dev_os.Net.Cache.{arp_find-update, arp_find-other}

eth_tx-arp_cache :
    (out : Outside) (dst : Buffer) (t : ℕ) (payload : Buffer) (n : ℕ) (s : Net)
    → (eth_tx out dst t payload n s).1.arp_cache ≡ s.arp_cache
unfolding eth_tx
eth_tx-arp_cache out dst t payload n s = elim (Bool-cases s.can_send) [
  | inl c ↦
      elim (Option-cases
        (out.kmalloc s.allocs (if ltb (u64 (14 + n)) 64 then 64 else u64 (14 + n)))) [
          | inl e ↦ simp (c, e)
          | inr (m, e) ↦ simp (c, e)
        ]
  | inr c ↦ simp c
]

-- `arp_rx` stores the sender of every packet of full length, and nothing else.
arp_rx-arp_cache :
    (out : Outside) (d : Buffer) (len : ℕ) (s : Net)
    → arp_packet_size ≤ len
    → (arp_rx out d len s).arp_cache
      ≡ arp_cache_update (htonl (load32 d 14)) (sender_mac d) s.arp_cache
unfolding arp_rx
arp_rx-arp_cache out d len s h =
    let full : ltb len arp_packet_size ≡ false = ground arith in
    elim (Bool-cases (htons (load16 d 6) == 1 && htonl (load32 d 24) == htonl s.my_ip)) [
      | inl c ↦ simp (full, c, eth_tx-arp_cache)
      | inr c ↦ simp (full, c)
    ]

arp_rx_short :
    (out : Outside) (d : Buffer) (len : ℕ) (s : Net)
    → ltb len arp_packet_size ≡ true
    → arp_rx out d len s ≡ s
unfolding arp_rx
arp_rx_short out d len s short = simp short

arp_resolve_known :
    (out : Outside) (ip : ℕ) (mac : Buffer) (s : Net)
    → arp_find ip s.arp_cache ≡ some mac
    → arp_resolve out ip s ≡ (some mac, s)
unfolding arp_resolve
arp_resolve_known out ip mac s e = rw (e, arp_resolve)

-- After an ARP packet from an address, `arp_resolve` finds the sender's MAC for this address and
-- sends nothing, provided the cache had a free slot.
pub arp_resolve-arp_rx :
    (out : Outside) (d : Buffer) (len : ℕ) (s : Net) (free : ℕ)
    → arp_packet_size ≤ len
    → free < arp_cache_size
    → (s.arp_cache free).valid ≡ false
    → arp_resolve out (htonl (load32 d 14)) (arp_rx out d len s)
      ≡ (some (sender_mac d), arp_rx out d len s)
arp_resolve-arp_rx out d len s free h lt fr =
    arp_resolve_known out (htonl (load32 d 14)) (sender_mac d) (arp_rx out d len s) (
      ap (arp_find (htonl (load32 d 14))) (arp_rx-arp_cache out d len s h)
      ∙ arp_find-update (htonl (load32 d 14)) (sender_mac d) s.arp_cache free lt fr)

-- An ARP packet from one address changes the MAC that the cache has for no other.
pub arp_find-arp_rx :
    (out : Outside) (d : Buffer) (len : ℕ) (s : Net) (other : ℕ)
    → htonl (load32 d 14) ≢ other
    → arp_find other (arp_rx out d len s).arp_cache ≡ arp_find other s.arp_cache
arp_find-arp_rx out d len s other ne = elim (Bool-cases (ltb len arp_packet_size)) [
  | inl short ↦ ap (λ (t : Net). arp_find other t.arp_cache) (arp_rx_short out d len s short)
  | inr full ↦
      ap (arp_find other) (arp_rx-arp_cache out d len s (ground arith))
      ∙ arp_find-other (htonl (load32 d 14)) other (sender_mac d) s.arp_cache ne
]
