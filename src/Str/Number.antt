-- ===== src/Str/Number.antt =====
-- `put_uint` of kernel/lib/printf.c: a number into a buffer of `sz` bytes.
use dev_os.Prelude.{
  ℕ, zero, suc, ◌+◌, ◌-◌, ◌/◌, ◌%◌, ◌==◌, ltb, if◌then◌else◌, Bool, List, [], ◌∷◌, length, update,
}
use dev_os.Str.Memory.{Bytes}

-- `digits_lo[d]` and `digits_hi[d]`
abbrev pub digit : Bool → ℕ → ℕ
digit upper d = if ltb d 10 then 48 + d else if upper then 55 + d else 87 + d

-- `if (*pos < sz - 1) buf[(*pos)++] = c;` on the buffer and the position.
abbrev pub put : ℕ → ℕ → Bytes × ℕ → Bytes × ℕ
put sz c (b, pos) = if ltb pos (sz - 1) then (update b pos c, pos + 1) else (b, pos)

-- The loop that fills `tmp`, lowest digit first; the fuel is a bound on the digits.
unfoldable pub digits_of : ℕ → Bool → ℕ → ℕ → List ℕ
digits_of zero upper base v = []
digits_of (suc fuel) upper base v =
    let rest = digits_of fuel upper base (v / base) in
    if v == 0 then [] else digit upper (v % base) ∷ rest

-- `tmp[0 .. len)`: 64 rounds are enough for any base from 2 on.
unfoldable pub tmp : ℕ → Bool → ℕ → List ℕ
tmp val upper base = if val == 0 then 48 ∷ [] else digits_of 64 upper base val

unfoldable pub put_padding : ℕ → ℕ → ℕ → Bytes × ℕ → Bytes × ℕ
put_padding sz c zero s = s
put_padding sz c (suc n) s = put_padding sz c n (put sz c s)

-- From the last of the list to the first.
unfoldable pub put_reversed : ℕ → List ℕ → Bytes × ℕ → Bytes × ℕ
put_reversed sz [] s = s
put_reversed sz (c ∷ cs) s = put sz c (put_reversed sz cs s)

unfoldable pub put_uint : ℕ → ℕ → ℕ → Bool → ℕ → Bool → Bytes × ℕ → Bytes × ℕ
put_uint sz val base upper width zero_pad s =
    let digits = tmp val upper base in
    put_reversed sz digits (put_padding sz (if zero_pad then 48 else 32) (width - length digits) s)
