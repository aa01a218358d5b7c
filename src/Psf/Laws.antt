-- ===== src/Psf/Laws.antt =====
-- What `psf1_get_glyphs` takes from a file.
use horizon.Common.{
  ℕ, inl, inr, ◌+◌, ◌%◌, ◌^◌, ◌<◌, ◌≤◌, ◌≡◌, ◌≢◌, ◌⊎◌, ◌==◌, refl, arith, Bool-cases, ap, ◌∙◌,
}
use horizon.Kmalloc.{ok, halted, no_fuel, Machine, Run, kmalloc_impl}
use horizon.Psf.{
  psf1_success, not_psf1, Psf1Font, Psf1Result, psf1_full_magic, magic_at, copy_header,
  psf1_get_glyphs,
}
use horizon.Vector.{bind_run}
use horizon.IsoFile.{LimineFile}
use horizon.Memory.{Mem}

-- The four bytes of the font's header do not meet those of the file's.
abbrev pub HeadersApart : ℕ → ℕ → Type 0
HeadersApart to h = (to + 4 ≤ h) ⊎ (h + 4 ≤ to)

pub copy_header_lem :
    (m : Mem) (to h k : ℕ) → HeadersApart to h → k < 4 → copy_header m to h (to + k) ≡ m (h + k)
unfolding copy_header
copy_header_lem m to h k apart lt = elim (Bool-cases (k == 0)) [
  | inl is ↦ let e : k ≡ 0 = ground (arith, is) in rw e (ground (arith, ap m {x = h + 0} {y = h}))
  | inr not_0 ↦ elim (Bool-cases (k == 1)) [
    | inl is ↦ let e : k ≡ 1 = ground (arith, is) in rw e (ground arith)
    | inr not_1 ↦ elim (Bool-cases (k == 2)) [
      | inl is ↦ let e : k ≡ 2 = ground (arith, is) in rw e (ground arith)
      | inr not_2 ↦ let e : k ≡ 3 = ground (arith, not_0, not_1, not_2, lt) in rw e (ground arith)
    ]
  ]
]

-- The glyphs stand behind the header of a file with the magic number of PSF1, and the font is as it
-- was for another file.
abbrev pub GlyphsRun : Machine → Psf1Font → LimineFile → Run (Psf1Font × Psf1Result) → Type 0
GlyphsRun m font file (ok (font', psf1_success) m') =
    (magic_at m.byte file.address % 2 ^ 16 ≡ psf1_full_magic)
    × (font'.glyph_buffer ≡ file.address + 4)
    × (font'.header ≡ font.header)
GlyphsRun m font file (ok (font', not_psf1) m') =
    (magic_at m.byte file.address % 2 ^ 16 ≢ psf1_full_magic) × (font' ≡ font)
GlyphsRun m font file halted = magic_at m.byte file.address % 2 ^ 16 ≡ psf1_full_magic
GlyphsRun m font file no_fuel = magic_at m.byte file.address % 2 ^ 16 ≡ psf1_full_magic

allocated_then :
    (m : Machine) (font : Psf1Font) (file : LimineFile) (r : Run ℕ)
    → magic_at m.byte file.address % 2 ^ 16 ≡ psf1_full_magic
    → GlyphsRun m font file (
        bind_run r
          (λ buffer m2. ok (record font { glyph_buffer = file.address + 4 }, psf1_success) m2))
unfolding bind_run
allocated_then m font file (ok buffer m2) magic = (magic, refl, refl)
allocated_then m font file halted magic = magic
allocated_then m font file no_fuel magic = magic

-- `psf1_get_glyphs` of a file whose header is apart from the font's takes it as a font exactly when its
-- magic number is that of PSF1.
pub psf1_get_glyphs-GlyphsRun :
    (m : Machine) (font : Psf1Font) (file : LimineFile) (func : ℕ)
    → HeadersApart font.header file.address
    → GlyphsRun m font file (psf1_get_glyphs m font file func)
unfolding psf1_get_glyphs
psf1_get_glyphs-GlyphsRun m font file func apart =
    let m1 = copy_header m.byte font.header file.address in
    let first : m1 font.header ≡ m.byte file.address =
      ap m1 {x = font.header} {y = font.header + 0} (omega arith)
      ∙ copy_header_lem m.byte font.header file.address 0 apart (omega arith)
      ∙ ap m.byte {x = file.address + 0} {y = file.address} (omega arith) in
    let second = copy_header_lem m.byte font.header file.address 1 apart (omega arith) in
    rw (first, second)
      (elim (Bool-cases (magic_at m.byte file.address % 2 ^ 16 == psf1_full_magic)) [
        | inl is ↦ rw is (
            allocated_then m font file (kmalloc_impl (record m { byte = m1 }) 256 func 21)
              (ground (arith, is)))
        | inr other ↦ rw other (ground (arith, other), refl)
      ])
