-- ===== src/Str/Memory.antt =====
-- `memset`, `memcpy`, `memmove`, `memcmp` and `strncpy`: loops over bytes.
use dev_os.Prelude.{◌*◌, ℕ, zero, suc, ◌+◌, ◌==◌, ltb, if◌then◌else◌, List, [], ◌∷◌, update}
use dev_os.Prelude.Int.{ℤ, pos, sub_ℕ}
use dev_os.Word.{u8}

abbrev pub Bytes : Type 0
Bytes = ℕ → ℕ

-- `n` bytes from offset `o` on as a number, the lowest first.
unfoldable pub little : ℕ → Bytes → ℕ → ℕ
little zero m o = 0
little (suc n) m o = m o + 256 * little n m (o + 1)

unfoldable pub memset_from : Bytes → ℕ → ℕ → ℕ → Bytes
memset_from m p v zero = m
memset_from m p v (suc n) = memset_from (update m p v) (p + 1) v n

unfoldable pub memset : Bytes → ℕ → ℕ → ℕ → Bytes
memset m dst c n = memset_from m dst (u8 c) n

-- `while (n--) *d++ = *s++;`
unfoldable pub memcpy : Bytes → ℕ → ℕ → ℕ → Bytes
memcpy m d s zero = m
memcpy m d s (suc n) = memcpy (update m d (m s)) (d + 1) (s + 1) n

-- `while (n--) *--d = *--s;`, from the ends of the two ranges.
unfoldable pub copy_down : Bytes → ℕ → ℕ → ℕ → Bytes
copy_down m d s zero = m
copy_down m d s (suc n) = copy_down (update m (d + n) (m (s + n))) d s n

unfoldable pub memmove : Bytes → ℕ → ℕ → ℕ → Bytes
memmove m d s n = if ltb d s then memcpy m d s n else copy_down m d s n

unfoldable pub memcmp : Bytes → ℕ → ℕ → ℕ → ℤ
memcmp m p q zero = pos 0
memcmp m p q (suc n) =
    let rest = memcmp m (p + 1) (q + 1) n in if m p == m q then rest else sub_ℕ (m p) (m q)

-- The padding loop of `strncpy`.
unfoldable pub pad : Bytes → ℕ → ℕ → Bytes
pad m d zero = m
pad m d (suc n) = pad (update m d 0) (d + 1) n

-- The copying loop stores the NUL of the source without counting it.
unfoldable pub strncpy : Bytes → ℕ → List ℕ → ℕ → Bytes
strncpy m d s zero = m
strncpy m d [] (suc n) = pad (update m d 0) (d + 1) (suc n)
strncpy m d (c ∷ cs) (suc n) = strncpy (update m d c) (d + 1) cs n

unfoldable pub strcpy : Bytes → ℕ → List ℕ → Bytes
strcpy m d [] = update m d 0
strcpy m d (c ∷ cs) = strcpy (update m d c) (d + 1) cs
