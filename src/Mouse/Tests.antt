-- ===== src/Mouse/Tests.antt =====
-- kernel/drivers/mouse.c: two packets through the buffer's end, and a large movement.
use dev_os.Prelude.{◌≡◌, ◌↔◌, refl, arith, ◌!=◌, bit_and, List, [], ◌∷◌}
use dev_os.Prelude.Int.{negsuc}
use dev_os.Mouse.{Mouse, decode}
use dev_os.Mouse.Packet.{moved, FitsByte, decode-moved}
use dev_os.Mouse.Queue.{Packet, feed, drain, events, drain-feed}

abbrev quiet : Mouse
quiet = record {
  mouse_buf = λ i. decode 0 0 0;
  mouse_head = 63;
  mouse_tail = 63;
  packet = [];
  mouse_waiters = [];
}

abbrev packets : List Packet
packets =
    record { flags = 0x08; raw_x = 5; raw_y = 0 }
    ∷ (record { flags = 0x19; raw_x = 0xFE; raw_y = 3 } ∷ [])

drain-feed_example : drain 5 (feed packets quiet) ≡ events packets
drain-feed_example =
    drain-feed packets quiet 5 (omega arith) refl refl (omega arith, (omega arith, tt))
      (omega arith) (omega arith)

decode-moved_example :
    ((decode 0x08 200 0).dx ≡ moved (bit_and 0x08 0x10 != 0) 200)
    ↔ FitsByte (bit_and 0x08 0x10 != 0) 200
decode-moved_example = decode-moved 0x08 200 0 (omega arith)

-- 200 to the right is decoded as 56 to the left.
far_right : (decode 0x08 200 0).dx ≡ negsuc 55
unfolding decode
far_right = refl
