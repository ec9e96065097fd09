-- ===== src/Net/Loopback.antt =====
-- A packet from `ipv4_send` passes the checks of `ipv4_rx`.
use dev_os.Prelude.{
  ℕ, ◌+◌, ◌-◌, ◌*◌, ◌/◌, ◌%◌, ◌^◌, ◌<◌, ◌≤◌, ◌≡◌, refl, ap, ◌∙◌, arith, true, false, ltb, leb, ◌==◌,
  ==-eq_of,
}
use dev_os.Word.{u8, u16, u64, sub64}
use dev_os.Net.Order.{Buffer, load16, load32, htons, htonl}
use dev_os.Net.Swap.{htons_lem, htonl_lem, htons-htons, htonl-htonl}
use dev_os.Net.Checksum.{sum_words, ipv4_checksum, ipv4_checksum-stored, total}
use dev_os.Net.Device.{Net, Outside}
use dev_os.Net.Ipv4.{ipv4_header, ipv4_packet, icmp_rx}
use dev_os.Net.Receive.{behind, ipv4_rx}

-- What a header field holds: every one fits its width.
pub record IsFields (len id proto src dst : ℕ) : Type 0 where
  pub size_fits : 20 + len < 2 ^ 16
  pub id_fits : id < 2 ^ 16
  pub proto_fits : proto < 256
  pub src_fits : src < 2 ^ 32
  pub dst_fits : dst < 2 ^ 32

htons-bound : (v : ℕ) → v < 2 ^ 16 → htons v < 2 ^ 16
htons-bound v h = omega (arith, htons_lem v h)

htonl-bound : (v : ℕ) → v < 2 ^ 32 → htonl v < 2 ^ 32
htonl-bound v h = omega (arith, htonl_lem v h)

half_bytes : (v : ℕ) → v % 256 + 256 * (v / 256) ≡ v
half_bytes v = omega arith

word_bytes :
    (v : ℕ) → v % 256 + 256 * (v / 256 % 256) + 65536 * (v / 65536 % 256 + 256 * (v / 16777216)) ≡ v
word_bytes v = omega arith

module _ (m : Buffer) (len id proto src dst : ℕ) (f : IsFields len id proto src dst) where
  header : Buffer
  header = ipv4_header m (u64 (20 + len)) id proto src dst

  header-total : total header 0 20 < 2 ^ 32 - 65536
  unfolding header
  header-total =
      let a = htons-bound (u16 (u64 (20 + len))) (omega arith) in
      let b = htons-bound id f.id_fits in
      let c = htonl-bound src f.src_fits in
      let d = htonl-bound dst f.dst_fits in omega (arith, a, b, c, d, f.proto_fits)

  header-zero : load16 header 10 ≡ 0
  unfolding header
  header-zero = refl

  -- The first 20 bytes of the packet.
  packet_sum :
      (payload : Buffer) → ipv4_checksum (ipv4_packet m id proto src dst payload len) 20 ≡ 0
  unfolding header ipv4_packet ipv4_checksum sum_words
  packet_sum payload = ipv4_checksum-stored header 5 20 header-total (omega arith) header-zero

  packet_dst :
      (payload : Buffer) → htonl (load32 (ipv4_packet m id proto src dst payload len) 16) ≡ dst
  unfolding header ipv4_packet
  packet_dst payload = ap htonl (word_bytes (htonl dst)) ∙ htonl-htonl dst f.dst_fits

  packet_size :
      (payload : Buffer) → htons (load16 (ipv4_packet m id proto src dst payload len) 2) ≡ 20 + len
  unfolding header ipv4_packet
  packet_size payload =
      let w : u16 (u64 (20 + len)) ≡ 20 + len = omega (arith, f.size_fits) in
      ap htons (half_bytes (htons (u16 (u64 (20 + len)))))
      ∙ ap (λ (t : ℕ). htons (htons t)) w
      ∙ htons-htons (20 + len) f.size_fits

  packet_version : (payload : Buffer) → ipv4_packet m id proto src dst payload len 0 ≡ 0x45
  unfolding ipv4_packet
  packet_version payload = refl

  packet_proto : (payload : Buffer) → ipv4_packet m id proto src dst payload len 9 ≡ proto
  unfolding ipv4_packet
  packet_proto payload = refl

  packet_payload :
      (payload : Buffer) (i : ℕ)
      → i < len
      → behind 20 (ipv4_packet m id proto src dst payload len) i ≡ payload i
  unfolding ipv4_packet
  packet_payload payload i lt =
      let e : 0 + (20 + i - 20) ≡ i = omega arith in
      let inside : ltb (20 + i) (20 + len) ≡ true = ground arith in
      let above : leb 20 (20 + i) ≡ true = ground arith in simp (above, inside) (ap payload e)

-- The checks of `ipv4_rx`, for a header without options.
ipv4_rx-icmp_rx :
    (out : Outside) (d : Buffer) (n : ℕ) (s : Net)
    → d 0 ≡ 0x45
    → d 9 ≡ 1
    → ipv4_checksum d 20 ≡ 0
    → htonl (load32 d 16) ≡ s.g_my_ip
    → htons (load16 d 2) ≡ 20 + n
    → 20 + n < 2 ^ 16
    → 20 ≤ u8 (20 + n)
    → ipv4_rx out d (20 + n) s ≡ icmp_rx out d (behind 20 d) n s
unfolding ipv4_rx
ipv4_rx-icmp_rx out d n s version proto sum dst size fits low =
    let long : ltb (20 + n) 20 ≡ false = ground arith in
    let byte : ltb (u8 (20 + n)) 20 ≡ false = ground arith in
    let here : (htonl (load32 d 16) == s.g_my_ip) ≡ true =
      ==-eq_of (htonl (load32 d 16)) s.g_my_ip dst in
    let rest : sub64 (20 + n) 20 ≡ n = omega arith in
    simp (version, proto, sum, here, size, long, byte, rest)

-- A packet that `ipv4_send` builds passes every check of `ipv4_rx` at the address it is sent to:
-- the length, the header's checksum and the destination. An ICMP packet then reaches `icmp_rx`
-- with the payload and its length. The one condition on the length, apart from 16 bits, is that
-- its low byte is at least 20, since `ipv4_rx` compares the header's length with that byte.
pub ipv4_rx-ipv4_packet :
    (out : Outside) (m payload : Buffer) (len id src : ℕ) (s : Net)
    → IsFields len id 1 src s.g_my_ip
    → 20 ≤ u8 (20 + len)
    → (b : Buffer) × (ipv4_rx out (ipv4_packet m id 1 src s.g_my_ip payload len) (20 + len) s
        ≡ icmp_rx out (ipv4_packet m id 1 src s.g_my_ip payload len) b len s)
      × ((i : ℕ) → i < len → b i ≡ payload i)
ipv4_rx-ipv4_packet out m payload len id src s f low = (
  behind 20 (ipv4_packet m id 1 src s.g_my_ip payload len),
  ipv4_rx-icmp_rx out (ipv4_packet m id 1 src s.g_my_ip payload len) len s
      (packet_version m len id 1 src s.g_my_ip f payload)
      (packet_proto m len id 1 src s.g_my_ip f payload)
      (packet_sum m len id 1 src s.g_my_ip f payload)
      (packet_dst m len id 1 src s.g_my_ip f payload)
      (packet_size m len id 1 src s.g_my_ip f payload) f.size_fits low,
  packet_payload m len id 1 src s.g_my_ip f payload,
)

-- `ipv4_rx` drops every packet whose length has a low byte below 20, whatever it holds, since it
-- compares the header's length with the low byte only.
pub ipv4_rx-low_byte :
    (out : Outside) (d : Buffer) (len : ℕ) (s : Net) → u8 len < 20 → ipv4_rx out d len s ≡ s
unfolding ipv4_rx
ipv4_rx-low_byte out d len s low = ground arith
