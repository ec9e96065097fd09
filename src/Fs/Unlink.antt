-- ===== src/Fs/Unlink.antt =====
-- `ramfs_unlink` of kernel/fs/ramfs.c: what `ramfs_lookup` finds after an entry is removed.
use dev_os.Prelude.{
  update_self, ◌⊎◌, ◌↔◌, ◌&&◌, ℕ, zero, suc, ◌+◌, ◌-◌, ◌≤◌, ◌<◌, ◌≡◌, ◌≢◌, refl, ap, sym, ◌∙◌,
  subst, arith, ◌==◌, if◌then◌else◌, true, false, none, some, List, Bool-cases, Option-cases, inl,
  inr, update, leb, ltb,
}
use dev_os.Prelude.Int.{ℤ, pos}
use dev_os.Str.Compare.{IsString, strcmp_zero}
use dev_os.Fs.State.{Node, Fs, err}
use dev_os.Fs.Ramfs.{same_name, child_from, ramfs_lookup, ramfs_unlink, shift_down}
use dev_os.Fs.Dir.{
  zero_left, found, found_same, names_of, ramfs_lookup-found, zero_right, suc_right,
}

shift_down_lem :
    (rounds : ℕ) (children : ℕ → ℕ) (j k : ℕ)
    → shift_down children rounds j k
      ≡ (if leb j k && ltb k (j + rounds) then children (k + 1) else children k)
unfolding shift_down
shift_down_lem zero children j k = ground arith
shift_down_lem (suc rounds) children j k =
    ground (arith, shift_down_lem rounds (update children j (children (j + 1))) (j + 1) k)

-- A child taken out that has another name.
found_removed :
    (names more : ℕ → List ℕ) (children kids : ℕ → ℕ) (name : List ℕ) (rounds i k : ℕ)
    → k ≤ rounds
    → same_name (names (children (i + k))) name ≡ false
    → ((j : ℕ) → j < k → kids (i + j) ≡ children (i + j))
    → ((j : ℕ) → k ≤ j → j < rounds → kids (i + j) ≡ children (i + 1 + j))
    → ((j : ℕ) → more j ≡ names j)
    → found more kids name rounds i ≡ found names children name (suc rounds) i
found_removed names more children kids name rounds i zero le other before after same =
    let skip : same_name (names (children i)) name ≡ false = rw (sym (zero_right i)) other in
    simp skip (
      found_same names more children kids name rounds (i + 1) i (λ j lt. after j (omega arith) lt)
        (λ j lt. same _))
found_removed names more children kids name zero i (suc k) le other before after same =
    absurd (omega arith)
found_removed names more children kids name (suc rounds) i (suc k) le other before after same =
    let s : kids i ≡ children i = ground (arith, before 0) in
    let ih =
      found_removed names more children kids name rounds (i + 1) k (omega arith)
        (subst (λ x. same_name (names (children x)) name ≡ false) (suc_right i k) other)
        (λ j lt. ground (arith, before (suc j))) (λ j lo lt. ground (arith, after (suc j))) same in
    simp (s, same (children i), ih)

same_name_iff : (a b : List ℕ) → IsString a → IsString b → (same_name a b ≡ true) ↔ (a ≡ b)
unfolding same_name
same_name_iff a b ha hb =
    let z = strcmp_zero a b ha hb in (λ e. z.0 (ground (arith, e)), λ e. ground (arith, z.1 e))

-- Where `child_from` finds a child, and that the child has the name.
child_from-some :
    (nodes : ℕ → Node) (children : ℕ → ℕ) (name : List ℕ) (rounds i k : ℕ)
    → child_from nodes children name rounds i ≡ some k
    → (i ≤ k) × (k < i + rounds) × (same_name (nodes (children k)).name name ≡ true)
unfolding child_from
child_from-some nodes children name zero i k e = absurd (ground arith)
child_from-some nodes children name (suc rounds) i k e =
    elim (Bool-cases (same_name (nodes (children i)).name name)) [
      | inl s ↦
          let here : some i ≡ some k = simp s at e in
          let same : i ≡ k = ground arith in (omega arith, omega arith, rw (sym same) s)
      | inr s ↦
          let r = child_from-some nodes children name rounds (i + 1) k (simp s at e) in
          (omega (arith, r.0), omega (arith, r.1), r.2)
    ]

-- Every name in the directory is a string.
abbrev pub IsNamed : {S : Type 0} → Fs S → ℕ → Type 0
IsNamed fs dir =
    (k : ℕ) → k < (fs.nodes dir).nchildren → IsString (fs.nodes ((fs.nodes dir).children k)).name

-- What removing `name` answers and leaves, for a lookup that finds `r` before.
abbrev pub Unlinked : {S : Type 0} → Fs S → ℕ → List ℕ → ℤ × Fs S → Type 0
Unlinked fs dir other r =
    (r.0 ≡ pos 0)
    × (suc (r.1.nodes dir).nchildren ≡ (fs.nodes dir).nchildren)
    × (ramfs_lookup r.1.nodes dir other ≡ ramfs_lookup fs.nodes dir other)

-- The directory without its child number `k`.
abbrev without : Node → ℕ → Node
without d k = record d {
  children = shift_down d.children (d.nchildren - 1 - k) k;
  nchildren = d.nchildren - 1;
}

update-name :
    (nodes : ℕ → Node) (dir j : ℕ) (m : Node)
    → m.name ≡ (nodes dir).name
    → (update nodes dir m j).name ≡ (nodes j).name
update-name nodes dir j m kept = elim (Bool-cases (dir == j)) [
  | inl e ↦ let here : dir ≡ j = ground arith in simp e (kept ∙ ap (λ (x : ℕ). (nodes x).name) here)
  | inr e ↦ simp e
]

without-lookup :
    (nodes : ℕ → Node) (dir k : ℕ) (other : List ℕ)
    → k < (nodes dir).nchildren
    → same_name (nodes ((nodes dir).children k)).name other ≡ false
    → ramfs_lookup (update nodes dir (without (nodes dir) k)) dir other
      ≡ ramfs_lookup nodes dir other
without-lookup nodes dir k other lt ne =
    let d = nodes dir in
    let left = without d k in
    let after = update nodes dir left in
    let own : after dir ≡ left = update_self nodes dir left in
    let count : suc (d.nchildren - 1) ≡ d.nchildren = omega (arith, lt) in
    let rounds : ℕ = d.nchildren - 1 in
    let same = λ (j : ℕ). update-name nodes dir j left refl in
    ramfs_lookup-found after dir other
    ∙ ap (λ (m : Node). found (names_of after) m.children other m.nchildren 0) own
    ∙ found_removed (names_of nodes) (names_of after) d.children left.children other
        (d.nchildren - 1) 0 k (omega (arith, lt))
        (subst (λ x. same_name (nodes (d.children x)).name other ≡ false) (zero_left k) ne)
        (λ j lj. ground (arith, shift_down_lem (d.nchildren - 1 - k) d.children k j))
        (λ j lo lj. ground (arith, shift_down_lem (d.nchildren - 1 - k) d.children k j)) same
    ∙ ap (λ c. found (names_of nodes) d.children other c 0) count
    ∙ sym (ramfs_lookup-found nodes dir other)

unlink_at :
    {S : Type 0} (dir k : ℕ) (name other : List ℕ) (fs : Fs S)
    → child_from fs.nodes (fs.nodes dir).children name (fs.nodes dir).nchildren 0 ≡ some k
    → k < (fs.nodes dir).nchildren
    → same_name (fs.nodes ((fs.nodes dir).children k)).name other ≡ false
    → Unlinked fs dir other (ramfs_unlink dir name fs)
unfolding ramfs_unlink
unlink_at dir k name other fs e lt ne =
    let gone = record fs { nodes = update fs.nodes dir (without (fs.nodes dir) k) } in
    let run : ramfs_unlink dir name fs ≡ (pos 0, gone) = rw (e, ramfs_unlink) refl in
    let self = update_self fs.nodes dir (without (fs.nodes dir) k) in
    let count : suc ((fs.nodes dir).nchildren - 1) ≡ (fs.nodes dir).nchildren = omega (arith, lt) in
    subst (Unlinked fs dir other) (sym run) (
      refl,
      ap (λ (m : Node). suc m.nchildren) self ∙ count,
      without-lookup fs.nodes dir k other lt ne,
    )

-- Removing a name that the directory does not have answers -2 and changes nothing. Removing one that
-- it has answers 0, leaves one child less, and finds every other name as before.
pub ramfs_lookup-ramfs_unlink :
    {S : Type 0} (dir : ℕ) (name other : List ℕ) (fs : Fs S)
    → IsNamed fs dir
    → IsString name
    → IsString other
    → name ≢ other
    → ((ramfs_lookup fs.nodes dir name ≡ none) × (ramfs_unlink dir name fs ≡ (err 2, fs)))
      ⊎ Unlinked fs dir other (ramfs_unlink dir name fs)
unfolding ramfs_lookup ramfs_unlink
ramfs_lookup-ramfs_unlink dir name other fs named hn ho ne =
    let d = fs.nodes dir in
    elim (Option-cases (child_from fs.nodes d.children name d.nchildren 0)) [
      | inl e ↦ inl (rw (e, ramfs_lookup) refl, rw (e, ramfs_unlink) refl)
      | inr (k, e) ↦
          let (lo, hi, s) = child_from-some fs.nodes d.children name d.nchildren 0 k e in
          let lt : k < d.nchildren = omega (arith, hi) in
          let same = (same_name_iff (fs.nodes (d.children k)).name name (named k lt) hn).0 s in
          let other_name : same_name name other ≡ false = elim (Bool-cases (same_name name other)) [
            | inl bad ↦ absurd (ne ((same_name_iff name other hn ho).0 bad))
            | inr good ↦ good
          ] in
          inr (unlink_at dir k name other fs e lt (ap (λ x. same_name x other) same ∙ other_name))
    ]
