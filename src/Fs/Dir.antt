-- ===== src/Fs/Dir.antt =====
-- Directories of kernel/fs/ramfs.c: what `ramfs_lookup` finds after an entry is added or removed.
use dev_os.Word.{u64}
use dev_os.Prelude.{
  ap₂, ==-eq_of, take, subst, ℕ, zero, suc, ◌+◌, ◌<◌, ◌≡◌, ◌≢◌, refl, ap, sym, ◌∙◌, arith, ◌==◌,
  if◌then◌else◌, true, false, Option, none, some, List, Bool-cases, Option-cases, inl, inr, update,
  leb,
}
use dev_os.Prelude.Int.{pos}
use dev_os.Fs.State.{Allocator, Node, Fs, vfs_name_max}
use dev_os.Fs.Ramfs.{
  same_name, child_from, ramfs_lookup, ramfs_add, ramfs_alloc, node_size, fresh_node,
}

-- The first of the children from number `i` on with the name, itself.
abbrev pub found : (ℕ → List ℕ) → (ℕ → ℕ) → List ℕ → ℕ → ℕ → Option ℕ
found names children name zero i = none
found names children name (suc rounds) i =
    let rest = found names children name rounds (i + 1) in
    if same_name (names (children i)) name then some (children i) else rest

abbrev pub names_of : (ℕ → Node) → ℕ → List ℕ
names_of nodes k = (nodes k).name

found_from :
    (nodes : ℕ → Node) (children : ℕ → ℕ) (name : List ℕ) (rounds i : ℕ)
    → elim (child_from nodes children name rounds i) [ none ↦ none | some k ↦ some (children k) ]
      ≡ found (names_of nodes) children name rounds i
unfolding child_from
found_from nodes children name zero i = refl
found_from nodes children name (suc rounds) i =
    elim (Bool-cases (same_name (nodes (children i)).name name)) [
      | inl e ↦ simp e
      | inr e ↦ simp e (found_from nodes children name rounds (i + 1))
    ]

pub ramfs_lookup-found :
    (nodes : ℕ → Node) (dir : ℕ) (name : List ℕ)
    → ramfs_lookup nodes dir name
      ≡ found (names_of nodes) (nodes dir).children name (nodes dir).nchildren 0
unfolding ramfs_lookup
ramfs_lookup-found nodes dir name =
    found_from nodes (nodes dir).children name (nodes dir).nchildren 0

pub zero_right : (i : ℕ) → i + 0 ≡ i
zero_right i = omega arith

pub zero_left : (k : ℕ) → k ≡ 0 + k
zero_left k = omega arith

pub suc_right : (i k : ℕ) → i + suc k ≡ i + 1 + k
suc_right i k = omega arith

-- The search sees only the children in its range, and their names.
pub found_same :
    (names more : ℕ → List ℕ) (children kids : ℕ → ℕ) (name : List ℕ) (rounds i j : ℕ)
    → ((k : ℕ) → k < rounds → kids (j + k) ≡ children (i + k))
    → ((k : ℕ) → k < rounds → more (children (i + k)) ≡ names (children (i + k)))
    → found more kids name rounds j ≡ found names children name rounds i
found_same names more children kids name zero i j same named = refl
found_same names more children kids name (suc rounds) i j same named =
    let s : kids j ≡ children i = ground (arith, same 0) in
    let n : more (children i) ≡ names (children i) =
      subst (λ x. more (children x) ≡ names (children x)) (zero_right i) (named 0 (omega arith)) in
    let ih =
      found_same names more children kids name rounds (i + 1) (j + 1)
        (λ k lt. ground (arith, same (suc k)))
        (λ k lt.
          subst (λ x. more (children x) ≡ names (children x)) (suc_right i k)
            (named (suc k) (omega (arith, lt)))) in
    simp (s, n, ih)

-- One more child at the end.
found_snoc :
    (names : ℕ → List ℕ) (children : ℕ → ℕ) (name : List ℕ) (rounds i last : ℕ)
    → i + rounds ≡ last
    → found names children name (suc rounds) i ≡ elim (found names children name rounds i) [
      | some k ↦ some k
      | none ↦ if same_name (names (children last)) name then some (children last) else none
    ]
found_snoc names children name zero i last at =
    let here : i ≡ last = omega arith in
    ap (λ x. if same_name (names (children x)) name then some (children x) else none) here
found_snoc names children name (suc rounds) i last at =
    elim (Bool-cases (same_name (names (children i)) name)) [
      | inl e ↦ simp e
      | inr e ↦ simp e (found_snoc names children name rounds (i + 1) last (omega arith))
    ]

-- What a lookup answers, once a child `c` called `name` stands behind the others.
abbrev pub or_else : Option ℕ → List ℕ → ℕ → List ℕ → Option ℕ
or_else (some k) name c other = some k
or_else none name c other = if same_name name other then some c else none

found_added :
    (names more : ℕ → List ℕ) (children : ℕ → ℕ) (count c : ℕ) (name other : List ℕ)
    → more c ≡ name
    → ((k : ℕ) → k < count → more (children k) ≡ names (children k))
    → found more (update children count c) other (suc count) 0
      ≡ or_else (found names children other count 0) name c other
found_added names more children count c name other new kept =
    let tail = found_snoc more (update children count c) other count 0 count (omega arith) in
    let front : found more (update children count c) other count 0
        ≡ found names children other count 0 =
      found_same names more children (update children count c) other count 0 0
        (λ k lt. ground arith)
        (λ k lt. subst (λ x. more (children x) ≡ names (children x)) (zero_left k) (kept k lt)) in
    let self = ==-eq_of count count refl in
    tail ∙ elim (Option-cases (found names children other count 0)) [
      | inl e ↦ simp (front, e, self, new)
      | inr (a, e) ↦ simp (front, e)
    ]

-- The new child: where the heap puts it, which is neither the directory nor one of its children.
pub record IsNew {S : Type 0} (al : Allocator S) (fs : Fs S) (dir c : ℕ) : Type 0 where
  pub at : (al.kzalloc node_size fs.heap).0 ≡ some c
  pub not_dir : c ≢ dir
  pub not_child : (k : ℕ) → k < (fs.nodes dir).nchildren → c ≢ (fs.nodes dir).children k

-- What adding a child does to the nodes.
record Added {S : Type 0} (fs fs' : Fs S) (dir c : ℕ) (name : List ℕ) : Type 0 where
  kids : (fs'.nodes dir).children ≡ update (fs.nodes dir).children (fs.nodes dir).nchildren c
  count : (fs'.nodes dir).nchildren ≡ suc (fs.nodes dir).nchildren
  named : (fs'.nodes c).name ≡ take vfs_name_max name
  others : (k : ℕ) → c ≢ k → (fs'.nodes k).name ≡ (fs.nodes k).name

module _ {S : Type 0} (al : Allocator S) where
  -- The state once `ramfs_alloc` got the node `c`.
  abbrev allocated : List ℕ → ℕ → ℕ → Fs S → Fs S
  allocated name type c fs = record fs {
    heap = (al.kzalloc node_size fs.heap).1;
    next_ino = u64 (fs.next_ino + 1);
    nodes = update fs.nodes c (fresh_node name type fs.next_ino);
  }

  ramfs_alloc-some :
      (type c : ℕ) (name : List ℕ) (fs : Fs S)
      → (al.kzalloc node_size fs.heap).0 ≡ some c
      → ramfs_alloc al name type fs ≡ (some c, allocated name type c fs)
  unfolding ramfs_alloc
  ramfs_alloc-some type c name fs e = rw (e, ramfs_alloc) refl

  ramfs_add-Added :
      (type dir mode c : ℕ) (name : List ℕ) (fs : Fs S)
      → (fs.nodes dir).nchildren < 256
      → IsNew al fs dir c
      → ((ramfs_add al type dir name mode fs).0 ≡ pos 0)
        × Added fs (ramfs_add al type dir name mode fs).1 dir c name
  unfolding ramfs_add
  ramfs_add-Added type dir mode c name fs lt v =
      let room : leb 256 (fs.nodes dir).nchildren ≡ false = ground arith in
      let made = ramfs_alloc-some type c name fs v.at in
      let self : (dir == dir) ≡ true = ==-eq_of dir dir refl in
      let own : (c == c) ≡ true = ==-eq_of c c refl in
      let away : (c == dir) ≡ false = ground (arith, v.not_dir) in
      let back : (dir == c) ≡ false = ground (arith, v.not_dir) in
      (
        simp (made, room, away, back, self, own),
        record {
          kids = simp (made, room, away, back, self, own);
          count = simp (made, room, away, back, self, own) (omega (arith, lt));
          named = simp (made, room, away, back, self, own);
          others = λ k ne. simp (made, room, away, back, self, own) (ground (arith, ne));
        },
      )

  -- A child added to a directory with room is found under its name unless an older one has it, and
  -- every other name is found as before. The name is stored cut to 255 bytes.
  pub ramfs_lookup-ramfs_add :
      (type dir mode c : ℕ) (name other : List ℕ) (fs : Fs S)
      → (fs.nodes dir).nchildren < 256
      → IsNew al fs dir c
      → ((ramfs_add al type dir name mode fs).0 ≡ pos 0)
        × (ramfs_lookup (ramfs_add al type dir name mode fs).1.nodes dir other
            ≡ or_else (ramfs_lookup fs.nodes dir other) (take vfs_name_max name) c other)
  ramfs_lookup-ramfs_add type dir mode c name other fs lt v =
      let (done, a) = ramfs_add-Added type dir mode c name fs lt v in
      let nodes = (ramfs_add al type dir name mode fs).1.nodes in
      let d = fs.nodes dir in
      let found_now : ramfs_lookup nodes dir other
          ≡ found (names_of nodes) (update d.children d.nchildren c) other (suc d.nchildren) 0 =
        ramfs_lookup-found nodes dir other
        ∙ ap₂ (λ kids count. found (names_of nodes) kids other count 0) a.kids a.count in
      let added =
        found_added (names_of fs.nodes) (names_of nodes) d.children d.nchildren c
          (take vfs_name_max name) other a.named
          (λ k ltk. a.others (d.children k) (v.not_child k ltk)) in
      (
        done,
        found_now
            ∙ added
            ∙ ap (λ o. or_else o (take vfs_name_max name) c other)
                (sym (ramfs_lookup-found fs.nodes dir other)),
      )
