-- ===== src/Mm/Machine.antt =====
-- The state that the memory managers share: the frame allocator's variables and physical memory.
use dev_os.Prelude.{ℕ, Option, none, some, update}
use dev_os.Mm.Pmm.{Pmm, Memory, pmm_alloc}

pub record Machine : Type 0 where
  pub pmm : Pmm
  pub mem : Memory

-- A call that may return NULL early: what it did before stays done.
abbrev pub M : Type 0 → Type 0
M A = Machine → Option A × Machine

abbrev pub pure : {A : Type 0} → A → M A
pure a s = (some a, s)

abbrev pub continue : {A B : Type 0} → Option A × Machine → (A → M B) → Option B × Machine
continue (none, s) f = (none, s)
continue (some a, s) f = f a s

infixl 5 ◌>>=◌ ◌>>◌
abbrev pub ◌>>=◌ : {A B : Type 0} → M A → (A → M B) → M B
◌>>=◌ m f s = continue (m s) f

abbrev pub ◌>>◌ : {B : Type 0} → M (Unit {0}) → M B → M B
m >> k = m >>= λ _. k

-- `pmm_alloc` on the shared state.
abbrev pub alloc_page : M ℕ
alloc_page s = let (r, p, m) = pmm_alloc s.pmm s.mem in (r, record { pmm = p; mem = m })

abbrev pub load : ℕ → M ℕ
load w s = (some (s.mem w), s)

abbrev pub store : ℕ → ℕ → M (Unit {0})
store w v s = (some tt, record s { mem = update s.mem w v })
