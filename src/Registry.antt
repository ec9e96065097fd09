-- ===== src/Registry.antt =====
-- The tables of devices: kernel/drivers/storage/block.c and kernel/drivers/net/netdev.c. A device is
-- known by its address, 0 for NULL; the array with its count is the list of the entries so far.

use dev_os.Prelude.{ℕ, ◌==◌, leb, ◌||◌, if◌then◌else◌, List, [], ◌∷◌, ◌++◌, length, get_or}
use dev_os.Prelude.Int.{ℤ, pos, negsuc}

abbrev pub blkdev_max : ℕ
blkdev_max = 16

-- The result is the index of the device, or -1.
unfoldable pub blkdev_register : ℕ → List ℕ → ℤ × List ℕ
blkdev_register dev blkdevs =
    if dev == 0 || leb blkdev_max (length blkdevs)
    then (negsuc 0, blkdevs)
    else (pos (length blkdevs), blkdevs ++ (dev ∷ []))

unfoldable pub blkdev_get : ℤ → List ℕ → ℕ
blkdev_get (negsuc n) blkdevs = 0
blkdev_get (pos i) blkdevs = if leb (length blkdevs) i then 0 else get_or blkdevs i 0

abbrev pub blkdev_count : List ℕ → ℕ
blkdev_count blkdevs = length blkdevs

abbrev pub netdev_max : ℕ
netdev_max = 8

unfoldable pub netdev_register : ℕ → List ℕ → ℤ × List ℕ
netdev_register dev devs =
    if dev == 0 || leb netdev_max (length devs)
    then (negsuc 0, devs)
    else (pos (length devs), devs ++ (dev ∷ []))

unfoldable pub netdev_get : ℤ → List ℕ → ℕ
netdev_get (negsuc n) devs = 0
netdev_get (pos i) devs = if leb (length devs) i then 0 else get_or devs i 0

abbrev pub netdev_count : List ℕ → ℕ
netdev_count devs = length devs
