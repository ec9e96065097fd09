-- ===== src/Sched/Links.antt =====
-- Chains of links: taking a task out of one, and moving its end.
use dev_os.Prelude.{ℕ, ◌≡◌, ◌≢◌, ap, sym, ◌∙◌, List, [], ◌∷◌, ◌++◌}
use dev_os.Sched.Queue.{Absent, Distinct, Links, last_of, ne_last}

-- A chain whose links are all as before, since none of its tasks is `c` or `t`.
pub Links-same :
    (nx pv nx' pv' : ℕ → ℕ) (c e t a : ℕ) (xs : List ℕ) (b : ℕ)
    → Links nx pv a xs b
    → Absent c (a ∷ xs)
    → Absent t (a ∷ xs)
    → Absent e xs
    → e ≢ b
    → t ≢ b
    → ((p : ℕ) → p ≢ c → p ≢ t → nx' p ≡ nx p)
    → ((p : ℕ) → p ≢ e → p ≢ t → pv' p ≡ pv p)
    → Links nx' pv' a xs b
Links-same nx pv nx' pv' c e t a [] b l hc ht he eb tb kn kp = (
  kn a (λ q. hc.0 (sym q)) (λ q. ht.0 (sym q)) ∙ l.0,
  kp b (λ q. eb (sym q)) (λ q. tb (sym q)) ∙ l.1,
)
Links-same nx pv nx' pv' c e t a (x ∷ xs) b l hc ht he eb tb kn kp = (
  kn a (λ q. hc.0 (sym q)) (λ q. ht.0 (sym q)) ∙ l.0,
  kp x (λ q. he.0 (sym q)) (λ q. ht.1.0 (sym q)) ∙ l.1,
  Links-same nx pv nx' pv' c e t x xs b l.2 hc.1 ht.1 he.1 eb tb kn kp,
)

-- Absence from a list split at `t`.
pub Absent-split :
    (x t : ℕ) (us zs : List ℕ) → Absent x (us ++ (t ∷ zs)) → Absent x us × (x ≢ t) × Absent x zs
Absent-split x t [] zs h = (tt, h.0, h.1)
Absent-split x t (u ∷ us) zs h = let r = Absent-split x t us zs h.1 in ((h.0, r.0), r.1, r.2)

abbrev pub first_of : List ℕ → ℕ → ℕ
first_of [] b = b
first_of (z ∷ zs) b = z

pub next_first :
    (nx pv : ℕ → ℕ) (a t : ℕ) (us zs : List ℕ) (b : ℕ)
    → Links nx pv a (us ++ (t ∷ zs)) b
    → nx t ≡ first_of zs b
next_first nx pv a t [] [] b l = l.2.0
next_first nx pv a t [] (z ∷ zs) b l = l.2.0
next_first nx pv a t (u ∷ us) zs b l = next_first nx pv u t us zs b l.2

pub ne_first : (u : ℕ) (zs : List ℕ) (b : ℕ) → Absent u zs → u ≢ b → u ≢ first_of zs b
ne_first u [] b h ne = ne
ne_first u (z ∷ zs) b h ne = h.0

-- Closing the gap that `t` leaves in a chain.
pub Links-remove :
    (nx pv nx' pv' : ℕ → ℕ) (t a : ℕ) (us zs : List ℕ) (b : ℕ)
    → Links nx pv a (us ++ (t ∷ zs)) b
    → Distinct (a ∷ (us ++ (t ∷ zs)))
    → Absent b (us ++ (t ∷ zs))
    → nx' (last_of a us) ≡ nx t
    → pv' (nx t) ≡ last_of a us
    → ((p : ℕ) → p ≢ last_of a us → p ≢ t → nx' p ≡ nx p)
    → ((p : ℕ) → p ≢ nx t → p ≢ t → pv' p ≡ pv p)
    → Links nx' pv' a (us ++ zs) b
Links-remove nx pv nx' pv' t a [] [] b l d hb e1 e2 kn kp = (e1 ∙ l.2.0, ap pv' (sym l.2.0) ∙ e2)
Links-remove nx pv nx' pv' t a [] (z ∷ zs) b l d hb e1 e2 kn kp = (
  e1 ∙ l.2.0,
  ap pv' (sym l.2.0) ∙ e2,
  Links-same nx pv nx' pv' a z t z zs b l.2.2 d.0.1 d.1.0 d.1.1.0 (λ q. hb.1.0 (sym q))
      (λ q. hb.0 (sym q)) kn (λ p ne nt. kp p (λ q. ne (q ∙ l.2.0)) nt),
)
Links-remove nx pv nx' pv' t a (u ∷ us) zs b l d hb e1 e2 kn kp = (
  kn a (ne_last a u us (d.0.0, apart.0)) apart.1 ∙ l.0,
  kp u (λ q. ne_first u zs b inner.2 (λ e. hb.0 (sym e)) (q ∙ next_first nx pv u t us zs b l.2))
        inner.1
      ∙ l.1,
  Links-remove nx pv nx' pv' t u us zs b l.2 d.1 hb.1 e1 e2 kn kp,
)
  where
    apart : Absent a us × (a ≢ t) × Absent a zs
    apart = Absent-split a t us zs d.0.1

    inner : Absent u us × (u ≢ t) × Absent u zs
    inner = Absent-split u t us zs d.1.0

-- A chain whose end moves from `t` to `c`.
pub Links-retarget :
    (nx pv nx' pv' : ℕ → ℕ) (a : ℕ) (xs : List ℕ) (t c : ℕ)
    → Links nx pv a xs t
    → Distinct (a ∷ xs)
    → Absent t (a ∷ xs)
    → Absent c xs
    → nx' (last_of a xs) ≡ c
    → pv' c ≡ last_of a xs
    → ((p : ℕ) → p ≢ last_of a xs → p ≢ t → nx' p ≡ nx p)
    → ((p : ℕ) → p ≢ c → p ≢ t → pv' p ≡ pv p)
    → Links nx' pv' a xs c
Links-retarget nx pv nx' pv' a [] t c l d ht hc e1 e2 kn kp = (e1, e2)
Links-retarget nx pv nx' pv' a (x ∷ xs) t c l d ht hc e1 e2 kn kp = (
  kn a (ne_last a x xs d.0) (λ q. ht.0 (sym q)) ∙ l.0,
  kp x (λ q. hc.0 (sym q)) (λ q. ht.1.0 (sym q)) ∙ l.1,
  Links-retarget nx pv nx' pv' x xs t c l.2 d.1 ht.1 hc.1 e1 e2 kn kp,
)

pub prev_split :
    (nx pv : ℕ → ℕ) (a t : ℕ) (us zs : List ℕ) (b : ℕ)
    → Links nx pv a (us ++ (t ∷ zs)) b
    → pv t ≡ last_of a us
prev_split nx pv a t [] zs b l = l.1
prev_split nx pv a t (u ∷ us) zs b l = prev_split nx pv u t us zs b l.2

pub Absent-remove : (x t : ℕ) (us zs : List ℕ) → Absent x (us ++ (t ∷ zs)) → Absent x (us ++ zs)
Absent-remove x t [] zs h = h.1
Absent-remove x t (u ∷ us) zs h = (h.0, Absent-remove x t us zs h.1)

pub Distinct-remove :
    (t : ℕ) (us zs : List ℕ)
    → Distinct (us ++ (t ∷ zs))
    → Distinct (us ++ zs) × Absent t us × Absent t zs
Distinct-remove t [] zs d = (d.1, tt, d.0)
Distinct-remove t (u ∷ us) zs d =
    let r = Distinct-remove t us zs d.1 in
    ((Absent-remove u t us zs d.0, r.0), ((λ e. (Absent-split u t us zs d.0).1 (sym e)), r.1), r.2)
