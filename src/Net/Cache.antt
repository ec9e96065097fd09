-- ===== src/Net/Cache.antt =====
-- The ARP cache as a map from addresses: what `arp_cache_update` does to the search.
use dev_os.Prelude.{
  ℕ, zero, suc, ◌+◌, ◌<◌, ◌≤◌, ◌≡◌, ◌≢◌, refl, ap, sym, ◌∙◌, arith, Bool, true, false, ◌==◌,
  Bool-cases, Option-cases, inl, inr, none, some, update,
}
use dev_os.Net.Order.{Buffer}
use dev_os.Net.Device.{ArpEntry}
use dev_os.Net.Arp.{arp_cache_size, first_slot, has_ip, is_free, arp_cache_update, arp_find}

-- A slot found passes the test, and lies in the range.
first_slot-some :
    (p : ℕ → Bool) (n i : ℕ) {k : ℕ}
    → first_slot p n i ≡ some k
    → (p k ≡ true) × (i ≤ k) × (k < i + n)
unfolding first_slot
first_slot-some p zero i e = absurd (ground arith)
first_slot-some p (suc n) i {k} e = elim (Bool-cases (p i)) [
  | inl t ↦ ground arith
  | inr f ↦
      let e' : first_slot p n (i + 1) ≡ some k = ground arith in
      let ih = first_slot-some p n (i + 1) e' in ground (arith, ih)
]

-- Tests that agree find the same slot.
first_slot-same :
    (p q : ℕ → Bool) (n i : ℕ) → ((k : ℕ) → p k ≡ q k) → first_slot p n i ≡ first_slot q n i
unfolding first_slot
first_slot-same p q zero i h = refl
first_slot-same p q (suc n) i h = rw (h i, first_slot-same p q n (i + 1) h)

-- A test that only slot `k` passes finds it.
first_slot-only :
    (p : ℕ → Bool) (n i k : ℕ)
    → p k ≡ true
    → ((j : ℕ) → j < k → i ≤ j → p j ≡ false)
    → i ≤ k
    → k < i + n
    → first_slot p n i ≡ some k
unfolding first_slot
first_slot-only p zero i k t f lo hi = absurd (omega arith)
first_slot-only p (suc n) i k t f lo hi = elim (Bool-cases (i == k)) [
  | inl e ↦ ground arith
  | inr ne ↦
      let here : p i ≡ false = f i (ground arith) (omega arith) in
      let ih =
        first_slot-only p n (i + 1) k t (λ j lt le. f j lt (omega arith)) (ground arith)
          (ground arith) in
      ground (arith, ih)
]

first_slot-none :
    (p : ℕ → Bool) (n i k : ℕ) → first_slot p n i ≡ none → i ≤ k → k < i + n → p k ≡ false
unfolding first_slot
first_slot-none p zero i k e lo hi = absurd (omega arith)
first_slot-none p (suc n) i k e lo hi = let ih = first_slot-none p n (i + 1) k in ground (arith, ih)

-- The caches that `arp_cache_update` makes: a new address in slot `i`, or a new entry there.
abbrev renewed : (ℕ → ArpEntry) → ℕ → Buffer → ℕ → ArpEntry
renewed cache i mac = update cache i (record (cache i) { mac = mac })

abbrev entered : (ℕ → ArpEntry) → ℕ → ℕ → Buffer → ℕ → ArpEntry
entered cache i ip mac = update cache i (record { ip = ip; mac = mac; valid = true })

update-known :
    (ip : ℕ) (mac : Buffer) (cache : ℕ → ArpEntry) (i : ℕ)
    → first_slot (has_ip cache ip) arp_cache_size 0 ≡ some i
    → arp_cache_update ip mac cache ≡ renewed cache i mac
unfolding arp_cache_update
update-known ip mac cache i e = rw (e, arp_cache_update)

update-fresh :
    (ip : ℕ) (mac : Buffer) (cache : ℕ → ArpEntry) (i : ℕ)
    → first_slot (has_ip cache ip) arp_cache_size 0 ≡ none
    → first_slot (is_free cache) arp_cache_size 0 ≡ some i
    → arp_cache_update ip mac cache ≡ entered cache i ip mac
unfolding arp_cache_update
update-fresh ip mac cache i e e2 = rw (e, e2, arp_cache_update)

update-full :
    (ip : ℕ) (mac : Buffer) (cache : ℕ → ArpEntry)
    → first_slot (has_ip cache ip) arp_cache_size 0 ≡ none
    → first_slot (is_free cache) arp_cache_size 0 ≡ none
    → arp_cache_update ip mac cache ≡ cache
unfolding arp_cache_update
update-full ip mac cache e e2 = rw (e, e2, arp_cache_update)

find-some :
    (ip : ℕ) (cache : ℕ → ArpEntry) (i : ℕ)
    → first_slot (has_ip cache ip) arp_cache_size 0 ≡ some i
    → arp_find ip cache ≡ some (cache i).mac
unfolding arp_find
find-some ip cache i e = rw (e, arp_find)

find-none :
    (ip : ℕ) (cache : ℕ → ArpEntry)
    → first_slot (has_ip cache ip) arp_cache_size 0 ≡ none
    → arp_find ip cache ≡ none
unfolding arp_find
find-none ip cache e = rw (e, arp_find)

-- The search finds the address that was stored last for `ip`, when the cache had an entry for it
-- or a free slot.
pub arp_find-update :
    (ip : ℕ) (mac : Buffer) (cache : ℕ → ArpEntry) (free : ℕ)
    → free < arp_cache_size
    → (cache free).valid ≡ false
    → arp_find ip (arp_cache_update ip mac cache) ≡ some mac
arp_find-update ip mac cache free lt fr =
    elim (Option-cases (first_slot (has_ip cache ip) arp_cache_size 0)) [
      | inl e ↦ elim (Option-cases (first_slot (is_free cache) arp_cache_size 0)) [
        | inl e2 ↦ absurd (
            let taken =
              first_slot-none (is_free cache) arp_cache_size 0 free e2 (omega arith)
                (omega arith) in
            ground (arith, taken))
        | inr (i, e2) ↦
            rw (update-fresh ip mac cache i e e2)
              (find-some ip (entered cache i ip mac) i (new_slot i e e2) ∙ ap some (ground arith))
      ]
      | inr (i, e) ↦
          let same =
            first_slot-same (has_ip (renewed cache i mac) ip) (has_ip cache ip) arp_cache_size 0
              (λ k. ground arith) in
          rw (update-known ip mac cache i e)
            (find-some ip (renewed cache i mac) i (same ∙ e) ∙ ap some (ground arith))
    ]
  where
    new_slot :
        (i : ℕ)
        → first_slot (has_ip cache ip) arp_cache_size 0 ≡ none
        → first_slot (is_free cache) arp_cache_size 0 ≡ some i
        → first_slot (has_ip (entered cache i ip mac) ip) arp_cache_size 0 ≡ some i
    new_slot i e e2 =
        let found = first_slot-some (is_free cache) arp_cache_size 0 e2 in
        first_slot-only (has_ip (entered cache i ip mac) ip) arp_cache_size 0 i (ground arith)
          (λ j below lo.
            let old =
              first_slot-none (has_ip cache ip) arp_cache_size 0 j e lo (omega (arith, found)) in
            ground (arith, old))
          found.1 found.2

-- A search that agrees slot by slot, and on the addresses it finds.
arp_find-same :
    (ip : ℕ) (cache cache' : ℕ → ArpEntry)
    → ((k : ℕ) → has_ip cache' ip k ≡ has_ip cache ip k)
    → ((k : ℕ) → has_ip cache ip k ≡ true → (cache' k).mac ≡ (cache k).mac)
    → arp_find ip cache' ≡ arp_find ip cache
arp_find-same ip cache cache' h m =
    let same = first_slot-same (has_ip cache' ip) (has_ip cache ip) arp_cache_size 0 h in
    elim (Option-cases (first_slot (has_ip cache ip) arp_cache_size 0)) [
      | inl e ↦ find-none ip cache' (same ∙ e) ∙ sym (find-none ip cache e)
      | inr (i, e) ↦
          find-some ip cache' i (same ∙ e)
          ∙ ap some (m i (first_slot-some (has_ip cache ip) arp_cache_size 0 e).0)
          ∙ sym (find-some ip cache i e)
    ]

-- Other addresses keep what they had.
pub arp_find-other :
    (ip other : ℕ) (mac : Buffer) (cache : ℕ → ArpEntry)
    → ip ≢ other
    → arp_find other (arp_cache_update ip mac cache) ≡ arp_find other cache
arp_find-other ip other mac cache ne =
    elim (Option-cases (first_slot (has_ip cache ip) arp_cache_size 0)) [
      | inl e ↦ elim (Option-cases (first_slot (is_free cache) arp_cache_size 0)) [
        | inl e2 ↦ ap (arp_find other) (update-full ip mac cache e e2)
        | inr (i, e2) ↦
            let fr = (first_slot-some (is_free cache) arp_cache_size 0 e2).0 in
            rw (update-fresh ip mac cache i e e2) (
              arp_find-same other cache (entered cache i ip mac) (λ k. ground (arith, fr))
                (λ k t. ground (arith, fr)))
      ]
      | inr (i, e) ↦
          let had = (first_slot-some (has_ip cache ip) arp_cache_size 0 e).0 in
          rw (update-known ip mac cache i e) (
            arp_find-same other cache (renewed cache i mac) (λ k. ground arith)
              (λ k t. ground (arith, had)))
    ]
