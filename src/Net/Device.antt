-- ===== src/Net/Device.antt =====
-- The state of the network stack, memory operations on buffers, and what it asks of its
-- environment: the heap and the driver's `send`.
use dev_os.Prelude.{
  ℕ, ◌+◌, ◌-◌, ◌/◌, ◌%◌, Bool, ltb, leb, ◌&&◌, ◌==◌, if◌then◌else◌, Option, List, update,
}
use dev_os.Prelude.Int.{ℤ}
use dev_os.Net.Order.{Buffer}

-- Bytes handed to the driver.
pub record Frame : Type 0 where
  pub bytes : Buffer
  pub size : ℕ

-- What the stack uses from outside: `kmalloc` at the n-th call, for a size, with whatever the
-- memory holds; and what the driver answers to the n-th frame.
pub record Outside : Type 0 where
  pub kmalloc : ℕ → ℕ → Option Buffer
  pub send : ℕ → Frame → ℤ

pub record ArpEntry : Type 0 where
  pub ip : ℕ
  pub mac : Buffer
  pub valid : Bool

-- The static variables of arp.c and ipv4.c, the device, the number of calls of `kmalloc`, and the
-- frames sent, the last one first.
pub record Net : Type 0 where
  pub arp_cache : ℕ → ArpEntry
  pub my_ip : ℕ
  pub g_my_ip : ℕ
  pub g_ip_id : ℕ
  pub can_send : Bool
  pub dev_mac : Buffer
  pub allocs : ℕ
  pub sent : List Frame

-- `memcpy(dst + at, src + from, n)`
abbrev pub copy : Buffer → ℕ → Buffer → ℕ → ℕ → Buffer
copy dst at src from n i = if leb at i && ltb i (at + n) then src (from + (i - at)) else dst i

-- `memset(dst + at, v, n)`
abbrev pub fill : Buffer → ℕ → ℕ → ℕ → Buffer
fill dst at v n i = if leb at i && ltb i (at + n) then v else dst i

abbrev pub store8 : Buffer → ℕ → ℕ → Buffer
store8 d k v = update d k v

abbrev pub store32 : Buffer → ℕ → ℕ → Buffer
store32 d k v i =
    if leb k i && ltb i (k + 4)
    then (if i - k == 0
        then v % 256
        else if i - k == 1
        then v / 256 % 256
        else if i - k == 2
        then v / 65536 % 256
        else v / 16777216)
    else d i
