-- ===== src/Str/Chars.antt =====
-- `strlen`, `strcmp`, `strncmp` and `strchr`. Reading at the end of a string gives its NUL.
use dev_os.Prelude.{ℕ, suc, ◌+◌, ◌-◌, ◌==◌, if◌then◌else◌, Option, none, some, List, [], ◌∷◌}
use dev_os.Prelude.Int.{ℤ, pos, sub_ℕ}
use dev_os.Word.{sub64}

abbrev pub head : List ℕ → ℕ
head [] = 0
head (c ∷ cs) = c

abbrev pub tail : List ℕ → List ℕ
tail [] = []
tail (c ∷ cs) = cs

unfoldable pub strlen : List ℕ → ℕ
strlen [] = 0
strlen (c ∷ cs) = suc (strlen cs)

unfoldable pub strcmp : List ℕ → List ℕ → ℤ
strcmp [] b = sub_ℕ 0 (head b)
strcmp (x ∷ xs) b = let rest = strcmp xs (tail b) in if x == head b then rest else sub_ℕ x (head b)

-- The loop of `strncmp`: the count and the two strings where it stops. The count is decremented
-- by the test that ends the loop, too, and wraps when it was 0.
unfoldable pub strncmp_loop : List ℕ → List ℕ → ℕ → ℕ × List ℕ × List ℕ
strncmp_loop [] b n = (sub64 n 1, [], b)
strncmp_loop (x ∷ xs) b n =
    let rest = strncmp_loop xs (tail b) (n - 1) in
    if n == 0 then (sub64 n 1, x ∷ xs, b) else if x == head b then rest else (n - 1, x ∷ xs, b)

unfoldable pub strncmp : List ℕ → List ℕ → ℕ → ℤ
strncmp a b n =
    let (left, a', b') = strncmp_loop a b n in
    if left == 0 then pos 0 else sub_ℕ (head a') (head b')

-- The offset of the first `c`, which may be the NUL, from offset `i` on.
unfoldable pub strchr : List ℕ → ℕ → ℕ → Option ℕ
strchr [] c i = if c == 0 then some i else none
strchr (x ∷ xs) c i = let rest = strchr xs c (i + 1) in if x == c then some i else rest
