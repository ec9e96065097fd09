-- ===== src/Str/Tests.antt =====
-- kernel/lib on small inputs.
use dev_os.Prelude.{◌≡◌}
use dev_os.Str.Memory.{memmove}
use dev_os.Str.Move.{blit, memmove-blit}

memmove-blit_example : memmove (λ i. i) 4 2 5 6 ≡ blit (λ i. i) 4 (λ i. i) 2 5 6
memmove-blit_example = memmove-blit (λ i. i) 4 2 5 6
