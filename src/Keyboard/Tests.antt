-- ===== src/Keyboard/Tests.antt =====
-- The theorems on drivers/keyboard/keyboard.c at a ring that is about to wrap.
use reta_os.Prelude.{refl, [], ◌∷◌, ◌++◌, false, arith, replicate}
use reta_os.Keyboard.{Keyboard, irq_handler}
use reta_os.Keyboard.Ring.{IsRing}
use reta_os.Keyboard.Keys.{Grows, irq_handler-Grows}

-- One key waits in the last place.
abbrev at_end : Keyboard
at_end = record {
  ring = replicate 127 0 ++ b'a' ∷ [];
  head = 0;
  tail = 127;
  shift_l = false;
  shift_r = false;
  caps = false;
  e0_pending = false;
}

at_end-IsRing : IsRing at_end (b'a' ∷ [])
at_end-IsRing = record {
  size = refl;
  tail = omega arith;
  room = omega arith;
  head = refl;
  held = (refl, tt);
}

irq_handler-Grows_example : Grows (b'a' ∷ []) (irq_handler 0x1E at_end)
irq_handler-Grows_example = irq_handler-Grows 0x1E (b'a' ∷ []) at_end at_end-IsRing
