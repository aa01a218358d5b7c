-- ===== src/Psf.antt =====
-- kernel/src/init/psf.c: the font that the boot loader has put in memory, on the kernel heap and the
-- search of IsoFile. `func` is the name of the function that calls `kmalloc`.
pub mod Laws
use horizon.Common.{ℕ, none, some, Option, List, ◌+◌, ◌*◌, ◌%◌, ◌^◌, ◌==◌, not, if◌then◌else◌}
use horizon.Kmalloc.{ok, halted, no_fuel, Machine, Run, kmalloc_impl}
use horizon.Memory.{Mem, store8}
use horizon.IsoFile.{no_response, looked, LimineFile, Lookup, get_iso_file}
use horizon.IsoFile
use horizon.Vector.{bind_run}

-- PSF1_FONT: the address of the header, and where the glyphs stand.
pub record Psf1Font : Type 0 where
  pub header : ℕ
  pub glyph_buffer : ℕ

-- NOT_PSF1, PSF1_FAIL and PSF1_SUCCESS.
pub data Psf1Result : Type 0 where
  psf1_success not_psf1 : Psf1Result

abbrev pub psf1_full_magic : ℕ
psf1_full_magic = 0x0436

-- `sizeof(PSF1_HEADER)`.
abbrev pub psf1_header_size : ℕ
psf1_header_size = 4

-- The `magic` of a header, little endian.
abbrev pub magic_at : Mem → ℕ → ℕ
magic_at m h = m h + 2 ^ 8 * m (h + 1)

-- The three stores to `font.header`.
unfoldable pub copy_header : Mem → ℕ → ℕ → Mem
copy_header m to h =
    let m1 = store8 (store8 m to (m h)) (to + 1) (m (h + 1)) in
    let m2 = store8 m1 (to + 2) (m1 (h + 2)) in store8 m2 (to + 3) (m2 (h + 3))

-- `psf1_font_mode` gets 256 bytes, which the glyphs' own place then takes the pointer from; it never
-- fails, since `kmalloc` halts.
unfoldable pub psf1_get_glyphs : Machine → Psf1Font → LimineFile → ℕ → Run (Psf1Font × Psf1Result)
unfolding bind_run
psf1_get_glyphs m font file func =
    let m1 = record m { byte = copy_header m.byte font.header file.address } in
    let glyphs = bind_run (kmalloc_impl m1 256 func 21) (λ buffer m2.
      ok (record font { glyph_buffer = file.address + psf1_header_size }, psf1_success) m2) in
    if not (magic_at m1.byte font.header % 2 ^ 16 == psf1_full_magic)
    then ok (font, not_psf1) m1
    else glyphs

-- A file that is no PSF1 font halts.
unfoldable pub loaded : Psf1Font → Psf1Result → Machine → Run Psf1Font
loaded font psf1_success m = ok font m
loaded font not_psf1 m = halted

-- What `psf1_font_init` does with the result of the search.
unfoldable pub use_file : Machine → Psf1Font → ℕ → Lookup → Run Psf1Font
unfolding bind_run
use_file m font func no_response = halted
use_file m font func IsoFile.no_fuel = no_fuel
use_file m font func (looked none) = halted
use_file m font func (looked (some file)) =
    bind_run (psf1_get_glyphs m font file func) (λ r m'. loaded r.0 r.1 m')

-- `response` is none for NULL; `fuel` is that of the search.
unfoldable pub psf1_font_init :
    ℕ → Machine → Psf1Font → Option (List LimineFile) → ℕ → ℕ → Run Psf1Font
unfolding bind_run
psf1_font_init fuel m font none path func = halted
psf1_font_init fuel m font (some modules) path func =
    bind_run (kmalloc_impl m psf1_header_size func 82) (λ header m1.
      let font1 = record font { header = header } in
      if header == 0
      then ok font1 m1
      else use_file m1 font1 func (get_iso_file fuel m1.byte path (some modules)))
