-- ===== src/Heap/Classes.antt =====
-- The class that `kmalloc` chooses.
use dev_os.Prelude.{◌≢◌, ℕ, ◌-◌, ◌^◌, ◌≤◌, ◌<◌, arith}
use dev_os.Heap.Api.{order_from, order_for}

-- The least class whose objects hold `size` bytes: the class below is too small.
pub record IsClass (size order : ℕ) : Type 0 where
  pub least : 4 ≤ order
  pub most : order ≤ 11
  pub holds : size ≤ 2 ^ order
  pub smallest : order ≢ 4 → 2 ^ (order - 1) < size

-- For every size up to the threshold the loop of `kmalloc` ends at the least class that is large
-- enough, so the objects of that class hold the block.
pub order_for-IsClass : (size : ℕ) → size ≤ 2048 → IsClass size (order_for size)
unfolding order_from
order_for-IsClass size h = record {
  least = ground arith;
  most = ground arith;
  holds = ground arith;
  smallest = λ more. ground arith;
}
