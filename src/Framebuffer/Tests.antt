-- ===== src/Framebuffer/Tests.antt =====
-- A screen of 10 by 4 pixels.
use horizon.Common.{refl, arith}
use horizon.Framebuffer.{Framebuffer}
use horizon.Framebuffer.Laws.{IsScreen}

abbrev pub small_screen : Framebuffer
small_screen = record {
  base = 0x1000;
  backbuffer = 0x1000;
  swapbuffer = 0;
  height = 4;
  width = 10;
  pitch = 40;
}

small_screen-IsScreen : IsScreen small_screen
small_screen-IsScreen = record { row = 10; whole_pixels = refl; addressable = omega arith }
