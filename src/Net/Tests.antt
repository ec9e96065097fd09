-- ===== src/Net/Tests.antt =====
-- kernel/drivers/net on small inputs: each theorem at an input that meets its hypotheses.
use dev_os.Prelude.{ℕ, ◌+◌, ◌<◌, ◌≡◌, refl, arith, true, false, ltb, ◌==◌, if◌then◌else◌, some, []}
use dev_os.Prelude.Int.{pos}
use dev_os.Net.Order.{Buffer, load32, htonl}
use dev_os.Net.Device.{Net, Outside}
use dev_os.Net.Arp.{arp_rx, arp_resolve, sender_mac}
use dev_os.Net.Ipv4.{ipv4_packet, icmp_rx}
use dev_os.Net.Receive.{ipv4_rx}
use dev_os.Net.Loopback.{IsFields, ipv4_rx-ipv4_packet}
use dev_os.Net.Resolve.{arp_resolve-arp_rx}

-- Memory is always there, zeroed, and the driver takes every frame.
abbrev outside : Outside
outside = record { kmalloc = λ n size. some (λ i. 0); send = λ n f. pos 0 }

-- 10.0.2.15, with nothing in the cache.
abbrev quiet : Net
quiet = record {
  arp_cache = λ i. record { ip = 0; mac = λ j. 0; valid = false };
  my_ip = 0x0A00020F;
  g_my_ip = 0x0A00020F;
  g_ip_id = 1;
  can_send = true;
  dev_mac = λ i. 0x52;
  allocs = 0;
  sent = [];
}

-- An ARP reply from 10.0.2.2.
abbrev reply : Buffer
reply i =
    if i == 7
    then 2
    else if i == 14
    then 10
    else if i == 16
    then 2
    else if i == 17
    then 2
    else if ltb i 14
    then 0x33
    else 0

-- Twelve words, one of them zero.
abbrev words : Buffer
words i = if i == 10 then 0 else if i == 11 then 0 else 7

htonl_run : htonl 0x0A00020F ≡ 0x0F02000A
unfolding htonl
htonl_run = refl

ping-IsFields : IsFields 40 1 1 0x0A000202 0x0A00020F
ping-IsFields = record {
  size_fits = omega arith;
  id_fits = omega arith;
  proto_fits = omega arith;
  src_fits = omega arith;
  dst_fits = omega arith;
}

ipv4_rx-ipv4_packet_example :
    (b : Buffer) × (ipv4_rx outside
        (ipv4_packet (λ i. 0) 1 1 0x0A000202 0x0A00020F words 40)
        (20 + 40)
        quiet
      ≡ icmp_rx outside (ipv4_packet (λ i. 0) 1 1 0x0A000202 0x0A00020F words 40) b 40 quiet)
    × ((i : ℕ) → i < 40 → b i ≡ words i)
ipv4_rx-ipv4_packet_example =
    ipv4_rx-ipv4_packet outside (λ i. 0) words 40 1 0x0A000202 quiet ping-IsFields (omega arith)

arp_resolve-arp_rx_example :
    arp_resolve outside (htonl (load32 reply 14)) (arp_rx outside reply 28 quiet)
    ≡ (some (sender_mac reply), arp_rx outside reply 28 quiet)
arp_resolve-arp_rx_example =
    arp_resolve-arp_rx outside reply 28 quiet 0 (omega arith) (omega arith) refl
