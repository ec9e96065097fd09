-- ===== src/Keyboard/Keys.antt =====
-- The characters of a US keyboard's keys, and the two tables of scancodes.
use dev_os.Prelude.{
  ◌*◌, ◌/◌, length, ◌&&◌, get_or, Bool, ltb, bit_and, ℕ, zero, suc, ◌+◌, ◌-◌, ◌%◌, ◌<◌, ◌≡◌, refl,
  arith, true, false, ◌==◌, leb, ◌||◌, if◌then◌else◌, List, [], ◌∷◌, bit_and, Bool-cases, inl, inr,
}
use dev_os.Keyboard.{scancode_map, scancode_shift_map}

-- The keys of a US keyboard that have a character: the scancode of the first key of each row, and
-- the characters from there on. Escape, 1 to =, backspace, tab, q to ], enter, a to the grave accent,
-- the backslash and z to /, the asterisk of the number pad, and space.
abbrev pub key_rows : List (ℕ × List ℕ)
key_rows =
    (0x01, 27 ∷ [])
    ∷ (0x02, 49 ∷ 50 ∷ 51 ∷ 52 ∷ 53 ∷ 54 ∷ 55 ∷ 56 ∷ 57 ∷ 48 ∷ 45 ∷ 61 ∷ [])
    ∷ (0x0E, 8 ∷ 9 ∷ [])
    ∷ (0x10, 113 ∷ 119 ∷ 101 ∷ 114 ∷ 116 ∷ 121 ∷ 117 ∷ 105 ∷ 111 ∷ 112 ∷ 91 ∷ 93 ∷ 10 ∷ [])
    ∷ (0x1E, 97 ∷ 115 ∷ 100 ∷ 102 ∷ 103 ∷ 104 ∷ 106 ∷ 107 ∷ 108 ∷ 59 ∷ 39 ∷ 96 ∷ [])
    ∷ (0x2B, 92 ∷ 122 ∷ 120 ∷ 99 ∷ 118 ∷ 98 ∷ 110 ∷ 109 ∷ 44 ∷ 46 ∷ 47 ∷ [])
    ∷ (0x37, 42 ∷ [])
    ∷ (0x39, 32 ∷ [])
    ∷ []

-- The characters that shift changes, but for the letters: ! for 1, @ for 2 and so on.
abbrev pub shift_pairs : List (ℕ × ℕ)
shift_pairs =
    (49, 33)
    ∷ (50, 64)
    ∷ (51, 35)
    ∷ (52, 36)
    ∷ (53, 37)
    ∷ (54, 94)
    ∷ (55, 38)
    ∷ (56, 42)
    ∷ (57, 40)
    ∷ (48, 41)
    ∷ (45, 95)
    ∷ (61, 43)
    ∷ (91, 123)
    ∷ (93, 125)
    ∷ (59, 58)
    ∷ (39, 34)
    ∷ (96, 126)
    ∷ (92, 124)
    ∷ (44, 60)
    ∷ (46, 62)
    ∷ (47, 63)
    ∷ []

abbrev pub in_rows : List (ℕ × List ℕ) → ℕ → ℕ
in_rows [] sc = 0
in_rows (row ∷ rows) sc =
    if leb row.0 sc && ltb sc (row.0 + length row.1)
    then get_or row.1 (sc - row.0) 0
    else in_rows rows sc

abbrev pub in_pairs : List (ℕ × ℕ) → ℕ → ℕ
in_pairs [] c = c
in_pairs (pair ∷ pairs) c = if c == pair.0 then pair.1 else in_pairs pairs c

-- A letter's capital stands 32 before it.
unfoldable pub shifted : ℕ → ℕ
shifted c = if leb 97 c && leb c 122 then c - 32 else in_pairs shift_pairs c

-- The character that a scancode types, with or without shift, 0 for none.
unfoldable pub character : Bool → ℕ → ℕ
character up sc = let c = in_rows key_rows sc in if up then shifted c else c

agree_below : (ℕ → ℕ) → (ℕ → ℕ) → ℕ → Bool
agree_below f g zero = true
agree_below f g (suc n) = (f n == g n) && agree_below f g n

agree : (f g : ℕ → ℕ) (n : ℕ) → agree_below f g n ≡ true → (sc : ℕ) → sc < n → f sc ≡ g sc
unfolding agree_below
agree f g zero all sc lt = absurd (omega arith)
agree f g (suc n) all sc lt =
    let here : (f n == g n) ≡ true = ground (arith, all) in
    let rest : agree_below f g n ≡ true = ground (arith, all) in
    elim (Bool-cases (sc == n)) [
      | inl e ↦ let same : sc ≡ n = ground arith in rw same (ground arith)
      | inr e ↦ agree f g n rest sc (ground arith)
    ]

pub low_bits : (sc : ℕ) → sc < 256 → bit_and sc 0x7F ≡ sc % 128
unfolding agree_below
low_bits sc lt = agree (λ x. bit_and x 0x7F) (λ x. x % 128) 256 refl sc lt

pub high_bit : (sc : ℕ) → sc < 256 → bit_and sc 0x80 ≡ sc / 128 * 128
unfolding agree_below
high_bit sc lt = agree (λ x. bit_and x 0x80) (λ x. x / 128 * 128) 256 refl sc lt

pub plain_map : (sc : ℕ) → sc < 256 → get_or scancode_map sc 0 ≡ character false sc
unfolding agree_below character
plain_map sc lt = agree (λ x. get_or scancode_map x 0) (character false) 256 refl sc lt

pub shift_map : (sc : ℕ) → sc < 256 → get_or scancode_shift_map sc 0 ≡ character true sc
unfolding agree_below character shifted
shift_map sc lt = agree (λ x. get_or scancode_shift_map x 0) (character true) 256 refl sc lt

-- A release, a shift key and the caps lock have no character.
abbrev pub silent : ℕ → Bool
silent sc = leb 128 sc || (sc == 0x2A || (sc == 0x36 || sc == 0x3A))

pub silent-character :
    (up : Bool) (sc : ℕ) → sc < 256 → (if silent sc then character up sc else 0) ≡ 0
unfolding agree_below character shifted
silent-character true sc lt =
    agree (λ x. if silent x then character true x else 0) (λ x. 0) 256 refl sc lt
silent-character false sc lt =
    agree (λ x. if silent x then character false x else 0) (λ x. 0) 256 refl sc lt
