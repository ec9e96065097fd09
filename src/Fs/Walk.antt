-- ===== src/Fs/Walk.antt =====
-- The loop of `vfs_lookup` is the lookup of the path's components one after another.
use dev_os.Str.Chars.{head, strlen}
use dev_os.Prelude.{
  ◌!=◌, ◌⊎◌, subst, ℕ, zero, suc, ◌≤◌, ◌<◌, ◌≡◌, refl, ap, sym, ◌∙◌, arith, ◌==◌, false, Option,
  none, some, List, [], ◌∷◌, length, Option-cases, inl, inr,
}
use dev_os.Fs.State.{Fs, Node}
use dev_os.Fs.Path.{
  find_mount, vfs_lookup, skip_slash, copy_component, path_component, lookup_op, walk,
}
use dev_os.Fs.Parts.{
  first_short, onto_first, split, drop_empty, parts, IsShort, first, first_onto, Cut,
  copy_component-Cut, skip_slash-parts, skip_slash_left,
}

-- The node that the components lead to.
abbrev pub descend : (ℕ → Node) → ℕ → List (List ℕ) → Option ℕ
descend nodes node [] = some node
descend nodes node (p ∷ ps) = elim (lookup_op nodes node p) [
  | none ↦ none
  | some child ↦ descend nodes child ps
]

copy_component-other :
    (n c : ℕ) (cs : List ℕ)
    → (c == 47) ≡ false
    → copy_component (suc n) (c ∷ cs) ≡ (c ∷ (copy_component n cs).0, (copy_component n cs).1)
unfolding copy_component
copy_component-other n c cs ne = simp ne

-- One round: the first component, and the parts behind it.
record Round (p : List ℕ) (c : ℕ) (cs : List ℕ) : Type 0 where
  at_component :
      path_component p 256 ≡ some (c ∷ (copy_component 254 cs).0, (copy_component 254 cs).1)
  these : parts p ≡ (c ∷ (copy_component 254 cs).0) ∷ parts (copy_component 254 cs).1
  shorter : length (copy_component 254 cs).1 < length p

first_Round :
    (p : List ℕ) (c : ℕ) (cs : List ℕ)
    → skip_slash p ≡ c ∷ cs
    → (c == 47) ≡ false
    → suc (length cs) ≤ length p
    → parts p ≡ parts (c ∷ cs)
    → Cut cs (copy_component 254 cs)
    → Round p c cs
unfolding path_component
first_Round p c cs e ne le same k = record {
  at_component = rw (e, path_component) (ap some (copy_component-other 254 c cs ne));
  these = same ∙ simp (ne, k.starts, k.goes_on);
  shorter = omega (arith, k.shrinks);
}

round :
    (p : List ℕ) (c : ℕ) (cs : List ℕ) → skip_slash p ≡ c ∷ cs → IsShort (parts p) → Round p c cs
round p c cs e ok =
    let left = skip_slash_left p c cs e in
    let same : parts p ≡ parts (c ∷ cs) = sym (skip_slash-parts p) ∙ ap parts e in
    let moved : IsShort (parts (c ∷ cs)) = subst {A = List (List ℕ)} IsShort same ok in
    let ok' : IsShort (drop_empty (onto_first c (split cs))) = simp left.0 at moved in
    let room : length (first (split cs)) ≤ 254 =
      omega (arith, first_onto c (split cs), first_short c (split cs) ok') in
    first_Round p c cs e left.0 left.1 same (copy_component-Cut 254 cs room)

path_component-none : (p : List ℕ) → skip_slash p ≡ [] → path_component p 256 ≡ none
unfolding path_component
path_component-none p e = rw (e, path_component) refl

List-cases : (s : List ℕ) → (s ≡ []) ⊎ ((c : ℕ) × (cs : List ℕ) × (s ≡ c ∷ cs))
List-cases [] = inl refl
List-cases (c ∷ cs) = inr (c, cs, refl)

-- From any node, the loop of `vfs_lookup`, with more rounds than the path has bytes, ends with the
-- node that the path's components lead to, looked up one after another, or with NULL when one of
-- them is missing. No component is longer than a name.
pub walk-descend :
    (fuel : ℕ) (nodes : ℕ → Node) (node : ℕ) (p : List ℕ)
    → length p < fuel
    → IsShort (parts p)
    → walk fuel nodes node p ≡ descend nodes node (parts p)
unfolding walk
walk-descend zero nodes node p lt ok = absurd (omega arith)
walk-descend (suc fuel) nodes node p lt ok = elim (List-cases (skip_slash p)) [
  | inl e ↦
      let ends = sym (skip_slash-parts p) ∙ ap parts e in
      rw (path_component-none p e, ends, walk) refl
  | inr (c, cs, e) ↦
      let r = round p c cs e ok in
      let ok' = subst {A = List (List ℕ)} IsShort r.these ok in
      rw (r.these, r.at_component, walk)
        (elim (Option-cases (lookup_op nodes node (c ∷ (copy_component 254 cs).0))) [
          | inl gone ↦ rw (gone, descend) refl
          | inr (child, found) ↦
              rw (found, descend)
                (walk-descend fuel nodes child (copy_component 254 cs).1 (omega (arith, r.shorter))
                  ok'.1)
        ])
]

strlen-length : (s : List ℕ) → strlen s ≡ length s
unfolding strlen
strlen-length [] = refl
strlen-length (c ∷ cs) = ap suc (strlen-length cs)

-- When `find_mount` answers a root and the rest of an absolute path, and no component of the rest is
-- longer than a name, `vfs_lookup` ends with the node that the components lead to from that root.
pub vfs_lookup-descend :
    {S : Type 0} (path rel : List ℕ) (root : ℕ) (fs : Fs S)
    → head path ≡ 47
    → find_mount fs.mount_table fs.mount_count path ≡ some (root, rel)
    → IsShort (parts rel)
    → vfs_lookup path fs ≡ descend fs.nodes root (parts rel)
unfolding vfs_lookup
vfs_lookup-descend path rel root fs at covered ok =
    let absolute : (head path != 47) ≡ false = ground arith in
    let enough : length rel < suc (strlen rel) = omega (arith, strlen-length rel) in
    rw (absolute, covered, vfs_lookup) (walk-descend (suc (strlen rel)) fs.nodes root rel enough ok)
