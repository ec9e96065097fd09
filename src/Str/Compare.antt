-- ===== src/Str/Compare.antt =====
-- What comparing strings tells.
use dev_os.Prelude.{
  ℕ, suc, ◌-◌, ◌^◌, ◌≡◌, ◌≢◌, ◌↔◌, refl, sym, ap, ap₂, ◌∙◌, arith, false, ◌==◌, List, [], ◌∷◌, ◌++◌,
  length, ==-eq_of, ==-ne_of,
}
use dev_os.Prelude.Int.{pos, sub_ℕ}
use dev_os.Str.Chars.{head, strcmp, strncmp, strncmp_loop}

-- A string's bytes: none is NUL.
abbrev pub IsString : List ℕ → Type 0
IsString [] = Unit {0}
IsString (c ∷ cs) = (c ≢ 0) × IsString cs

strcmp_self : (a : List ℕ) → strcmp a a ≡ pos 0
unfolding strcmp
strcmp_self [] = refl
strcmp_self (x ∷ xs) = simp (==-eq_of x x refl, strcmp_self xs)

strcmp_same : (a b : List ℕ) → IsString a → IsString b → strcmp a b ≡ pos 0 → a ≡ b
unfolding strcmp
strcmp_same [] [] ha hb e = refl
strcmp_same [] (y ∷ ys) ha hb e = absurd (ground arith)
strcmp_same (x ∷ xs) [] ha hb e = absurd (ground arith)
strcmp_same (x ∷ xs) (y ∷ ys) ha hb e =
    let same : x ≡ y = ground arith in
    let rest : strcmp xs ys ≡ pos 0 = ground arith in
    ap₂ ◌∷◌ same (strcmp_same xs ys ha.1 hb.1 rest)

-- `strcmp` answers 0 exactly on equal strings.
pub strcmp_zero : (a b : List ℕ) → IsString a → IsString b → (strcmp a b ≡ pos 0) ↔ (a ≡ b)
strcmp_zero a b ha hb = (strcmp_same a b ha hb, λ e. ap (strcmp a) (sym e) ∙ strcmp_self a)

strncmp_loop-append :
    (p a b : List ℕ) → strncmp_loop (p ++ a) (p ++ b) (length p) ≡ (2 ^ 64 - 1, a, b)
unfolding strncmp_loop
strncmp_loop-append [] [] b = refl
strncmp_loop-append [] (x ∷ a) b = refl
strncmp_loop-append (c ∷ p) a b =
    let e : suc (length p) - 1 ≡ length p = omega arith in
    let more : (suc (length p) == 0) ≡ false = ground arith in
    simp (more, e, ==-eq_of c c refl, strncmp_loop-append p a b)

-- `strncmp` with a count that is used up does not stop there: on two strings that agree on the
-- first `n` bytes it answers the difference of the bytes behind them.
pub strncmp-append :
    (p a b : List ℕ) → strncmp (p ++ a) (p ++ b) (length p) ≡ sub_ℕ (head a) (head b)
unfolding strncmp
strncmp-append p a b = rw (strncmp_loop-append p a b) refl

strncmp_loop_last :
    (p a b : List ℕ) (x y : ℕ)
    → x ≢ y
    → strncmp_loop (p ++ (x ∷ a)) (p ++ (y ∷ b)) (suc (length p)) ≡ (0, x ∷ a, y ∷ b)
unfolding strncmp_loop
strncmp_loop_last [] a b x y ne = simp (==-ne_of x y ne)
strncmp_loop_last (c ∷ p) a b x y ne =
    let e : suc (suc (length p)) - 1 ≡ suc (length p) = omega arith in
    let more : (suc (suc (length p)) == 0) ≡ false = ground arith in
    simp (more, e, ==-eq_of c c refl, strncmp_loop_last p a b x y ne)

-- And a difference at the last of the `n` bytes is missed: the answer is 0.
pub strncmp_last :
    (p a b : List ℕ) (x y : ℕ)
    → x ≢ y
    → strncmp (p ++ (x ∷ a)) (p ++ (y ∷ b)) (suc (length p)) ≡ pos 0
unfolding strncmp
strncmp_last p a b x y ne = rw (strncmp_loop_last p a b x y ne) refl
