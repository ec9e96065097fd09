-- ===== src/Fs/Parts.antt =====
-- The components of a path of kernel/fs/vfs.c: its parts between the slashes.
use dev_os.Prelude.{
  ℕ, zero, suc, ◌≤◌, ◌≡◌, refl, ap, arith, ◌==◌, if◌then◌else◌, false, List, [], ◌∷◌, length,
  Bool-cases, inl, inr,
}
use dev_os.Fs.Path.{skip_slash, copy_component}

-- A byte put in front of the first of the parts.
abbrev pub onto_first : ℕ → List (List ℕ) → List (List ℕ)
onto_first c [] = (c ∷ []) ∷ []
onto_first c (p ∷ ps) = (c ∷ p) ∷ ps

-- The parts of a path between its slashes, the empty ones among them.
abbrev pub split : List ℕ → List (List ℕ)
split [] = [] ∷ []
split (c ∷ cs) = let rest = split cs in if c == 47 then [] ∷ rest else onto_first c rest

abbrev pub drop_empty : List (List ℕ) → List (List ℕ)
drop_empty [] = []
drop_empty ([] ∷ ps) = drop_empty ps
drop_empty ((c ∷ cs) ∷ ps) = (c ∷ cs) ∷ drop_empty ps

-- A path's components.
abbrev pub parts : List ℕ → List (List ℕ)
parts path = drop_empty (split path)

-- No component is longer than a name can be.
abbrev pub IsShort : List (List ℕ) → Type 0
IsShort [] = Unit {0}
IsShort (p ∷ ps) = (length p ≤ 255) × IsShort ps

abbrev pub first : List (List ℕ) → List ℕ
first [] = []
first (p ∷ ps) = p

pub first_onto :
    (c : ℕ) (ps : List (List ℕ)) → length (first (onto_first c ps)) ≡ suc (length (first ps))
first_onto c [] = refl
first_onto c (p ∷ ps) = refl

-- `s` is what `cut` copies and then, from `cut`'s rest on, the parts `more`.
pub record Cut (s : List ℕ) (cut : List ℕ × List ℕ) : Type 0 where
  pub more : List (List ℕ)
  pub starts : split s ≡ cut.0 ∷ more
  pub goes_on : parts cut.1 ≡ drop_empty more
  pub shrinks : length cut.1 ≤ length s

Cut-cons :
    (n c : ℕ) (cs : List ℕ)
    → (c == 47) ≡ false
    → Cut cs (copy_component n cs)
    → Cut (c ∷ cs) (copy_component (suc n) (c ∷ cs))
unfolding copy_component
Cut-cons n c cs e ih = record {
  more = ih.more;
  starts = simp (e, ih.starts);
  goes_on = simp e ih.goes_on;
  shrinks = simp e (omega (arith, ih.shrinks));
}

pub copy_component-Cut :
    (n : ℕ) (s : List ℕ) → length (first (split s)) ≤ n → Cut s (copy_component n s)
unfolding copy_component
copy_component-Cut zero [] le = record {
  more = [];
  starts = refl;
  goes_on = refl;
  shrinks = omega arith;
}
copy_component-Cut (suc n) [] le = record {
  more = [];
  starts = refl;
  goes_on = refl;
  shrinks = omega arith;
}
copy_component-Cut zero (c ∷ cs) le = elim (Bool-cases (c == 47)) [
  | inl e ↦ record { more = split cs; starts = simp e; goes_on = simp e; shrinks = omega arith }
  | inr e ↦ absurd (omega (arith, first_onto c (split cs), simp e at le))
]
copy_component-Cut (suc n) (c ∷ cs) le = elim (Bool-cases (c == 47)) [
  | inl e ↦ record {
    more = split cs;
    starts = simp e;
    goes_on = simp e;
    shrinks = simp e (omega arith);
  }
  | inr e ↦
      Cut-cons n c cs e
        (copy_component-Cut n cs (omega (arith, first_onto c (split cs), simp e at le)))
]

pub skip_slash-parts : (p : List ℕ) → parts (skip_slash p) ≡ parts p
unfolding skip_slash
skip_slash-parts [] = refl
skip_slash-parts (c ∷ cs) = elim (Bool-cases (c == 47)) [
  | inl e ↦ simp e (skip_slash-parts cs)
  | inr e ↦ simp e
]

-- What is left after the leading slashes is no longer, and starts with another byte.
pub skip_slash_left :
    (p : List ℕ) (c : ℕ) (cs : List ℕ)
    → skip_slash p ≡ c ∷ cs
    → (c == 47 ≡ false) × (suc (length cs) ≤ length p)
unfolding skip_slash
skip_slash_left [] c cs e = absurd (ground arith)
skip_slash_left (x ∷ p) c cs e = elim (Bool-cases (x == 47)) [
  | inl s ↦ let r = skip_slash_left p c cs (simp s at e) in (r.0, omega (arith, r.1))
  | inr s ↦
      let same : x ∷ p ≡ c ∷ cs = simp s at e in
      (ground (arith, same, s), omega (arith, ap length same))
]

pub first_short :
    (c : ℕ) (ps : List (List ℕ))
    → IsShort (drop_empty (onto_first c ps))
    → length (first (onto_first c ps)) ≤ 255
first_short c [] ok = ok.0
first_short c (p ∷ ps) ok = ok.0
