-- ===== src/Str/Digits.antt =====
-- What `put_uint` writes: the digits of the number, inside the buffer.
use dev_os.Prelude.{
  length, ◌∙◌, max, ℕ, zero, suc, ◌+◌, ◌-◌, ◌*◌, ◌/◌, ◌%◌, ◌^◌, ◌≤◌, ◌<◌, ◌≡◌, ◌⊎◌, refl, arith,
  Bool, true, false, ◌==◌, ltb, if◌then◌else◌, Bool-cases, inl, inr, List, [], ◌∷◌, pow-suc, max,
}
use dev_os.Str.Memory.{Bytes}
use dev_os.Str.Number.{put_uint, put_reversed, put_padding, digit, put, digits_of, tmp}

-- The value of a digit's character.
abbrev pub undigit : ℕ → ℕ
undigit c = if ltb c 58 then c - 48 else if ltb c 71 then c - 55 else c - 87

-- The value of digits, the lowest first.
abbrev pub value : ℕ → List ℕ → ℕ
value base [] = 0
value base (c ∷ cs) = undigit c + base * value base cs

undigit-digit : (upper : Bool) (d : ℕ) → d < 16 → undigit (digit upper d) ≡ d
undigit-digit true d h = ground arith
undigit-digit false d h = ground arith

digits_of-value10 :
    (upper : Bool) (fuel v : ℕ) → v < 2 ^ fuel → value 10 (digits_of fuel upper 10 v) ≡ v
unfolding digits_of
digits_of-value10 upper zero v h = omega arith
digits_of-value10 upper (suc fuel) v h =
    let ih = digits_of-value10 upper fuel (v / 10) (omega (arith, pow-suc 2 fuel)) in
    let d = undigit-digit upper (v % 10) (omega arith) in
    elim (Bool-cases (v == 0)) [
      | inl z ↦ simp z (ground arith)
      | inr n ↦ simp (n, ih, d) (omega arith)
    ]

digits_of-value16 :
    (upper : Bool) (fuel v : ℕ) → v < 2 ^ fuel → value 16 (digits_of fuel upper 16 v) ≡ v
unfolding digits_of
digits_of-value16 upper zero v h = omega arith
digits_of-value16 upper (suc fuel) v h =
    let ih = digits_of-value16 upper fuel (v / 16) (omega (arith, pow-suc 2 fuel)) in
    let d = undigit-digit upper (v % 16) (omega arith) in
    elim (Bool-cases (v == 0)) [
      | inl z ↦ simp z (ground arith)
      | inr n ↦ simp (n, ih, d) (omega arith)
    ]

-- The digits that `put_uint` prints, in either case and in the two bases that the formats use,
-- are those of the number.
pub tmp-value :
    (val : ℕ) (upper : Bool) (base : ℕ)
    → val < 2 ^ 64
    → (base ≡ 10) ⊎ (base ≡ 16)
    → value base (tmp val upper base) ≡ val
unfolding tmp
tmp-value val upper base h (inl e) = elim (Bool-cases (val == 0)) [
  | inl z ↦ simp (z, e) (ground arith)
  | inr n ↦ simp (n, e) (digits_of-value10 upper 64 val h)
]
tmp-value val upper base h (inr e) = elim (Bool-cases (val == 0)) [
  | inl z ↦ simp (z, e) (ground arith)
  | inr n ↦ simp (n, e) (digits_of-value16 upper 64 val h)
]

-- From one state of the buffer to another: the position grows by at most `n` and stays below
-- `sz`, and only the bytes in between were written.
pub record Wrote (sz n : ℕ) (s s' : Bytes × ℕ) : Type 0 where
  pub forward : s.1 ≤ s'.1
  pub at_most : s'.1 ≤ s.1 + n
  pub inside : s'.1 < sz
  pub before : (i : ℕ) → i < s.1 → s'.0 i ≡ s.0 i
  pub behind : (i : ℕ) → s'.1 ≤ i → s'.0 i ≡ s.0 i

put-Wrote : (sz c : ℕ) (b : Bytes) (p : ℕ) → p < sz → Wrote sz 1 (b, p) (put sz c (b, p))
put-Wrote sz c b p h = elim (Bool-cases (ltb p (sz - 1))) [
  | inl r ↦ rw r (record {
    forward = omega arith;
    at_most = omega arith;
    inside = ground arith;
    before = λ i lt. ground arith;
    behind = λ i le. ground arith;
  })
  | inr f ↦ rw f (record {
    forward = omega arith;
    at_most = omega arith;
    inside = h;
    before = λ i lt. refl;
    behind = λ i le. refl;
  })
]

Wrote-trans :
    (sz n k : ℕ) (s s' s'' : Bytes × ℕ)
    → Wrote sz n s s'
    → Wrote sz k s' s''
    → Wrote sz (n + k) s s''
Wrote-trans sz n k s s' s'' a b = record {
  forward = omega (arith, a.forward, b.forward);
  at_most = omega (arith, a.at_most, b.at_most);
  inside = b.inside;
  before = λ i lt. b.before i (omega (arith, a.forward)) ∙ a.before i lt;
  behind = λ i le. b.behind i le ∙ a.behind i (omega (arith, b.forward));
}

Wrote-refl : (sz : ℕ) (s : Bytes × ℕ) → s.1 < sz → Wrote sz 0 s s
Wrote-refl sz s h = record {
  forward = omega arith;
  at_most = omega arith;
  inside = h;
  before = λ i lt. refl;
  behind = λ i le. refl;
}

put_padding-Wrote : (sz c n : ℕ) (s : Bytes × ℕ) → s.1 < sz → Wrote sz n s (put_padding sz c n s)
unfolding put_padding
put_padding-Wrote sz c zero s h = Wrote-refl sz s h
put_padding-Wrote sz c (suc n) s h =
    let one = put-Wrote sz c s.0 s.1 h in
    let all =
      Wrote-trans sz 1 n s (put sz c s) (put_padding sz c n (put sz c s)) one
        (put_padding-Wrote sz c n (put sz c s) one.inside) in
    record {
      forward = all.forward;
      at_most = omega (arith, all.at_most);
      inside = all.inside;
      before = all.before;
      behind = all.behind;
    }

put_reversed-Wrote :
    (sz : ℕ) (cs : List ℕ) (s : Bytes × ℕ)
    → s.1 < sz
    → Wrote sz (length cs) s (put_reversed sz cs s)
unfolding put_reversed
put_reversed-Wrote sz [] s h = Wrote-refl sz s h
put_reversed-Wrote sz (c ∷ cs) s h =
    let rest = put_reversed-Wrote sz cs s h in
    let t = put_reversed sz cs s in
    let all =
      Wrote-trans sz (length cs) 1 s t (put sz c t) rest (put-Wrote sz c t.0 t.1 rest.inside) in
    record {
      forward = all.forward;
      at_most = omega (arith, all.at_most);
      inside = all.inside;
      before = all.before;
      behind = all.behind;
    }

-- `put_uint` stays inside the buffer: the position never reaches the last byte's end, it grows by
-- at most the width or the number of digits, and no byte outside what it wrote changes.
pub put_uint-Wrote :
    (sz val base width : ℕ) (upper zero_pad : Bool) (s : Bytes × ℕ)
    → s.1 < sz
    → Wrote sz
        (max width (length (tmp val upper base)))
        s
        (put_uint sz val base upper width zero_pad s)
unfolding put_uint
put_uint-Wrote sz val base width upper zero_pad s h =
    let c : ℕ = if zero_pad then 48 else 32 in
    let n : ℕ = width - length (tmp val upper base) in
    let padded = put_padding-Wrote sz c n s h in
    let all =
      Wrote-trans sz n (length (tmp val upper base)) s (put_padding sz c n s)
        (put_uint sz val base upper width zero_pad s) padded
        (put_reversed-Wrote sz (tmp val upper base) (put_padding sz c n s) padded.inside) in
    record {
      forward = all.forward;
      at_most = omega (arith, all.at_most);
      inside = all.inside;
      before = all.before;
      behind = all.behind;
    }
