-- ===== src/Cpu/Strings.antt =====
-- The strings that the processor names itself by.
use horizon.Common.{
  ℕ, zero, suc, some, ◌+◌, ◌*◌, ◌^◌, ◌<◌, ◌≡◌, refl, ap, arith, List, ◌⊎◌, ◌≤◌, ◌∙◌, [], ◌∷◌,
  length, inl, inr, Option, ◌==◌, if◌then◌else◌, Bool-cases, sym,
}
use horizon.Memory.{Mem, store8, memcpy}
use horizon.Memory.Words.{
  load32, store32, load32-store32, load32-store32_apart, load_bytes_ext, load_bytes,
}
use horizon.Cpu.{
  store_leaf, Registers, get_cpu_model_name, store_bytes, Vendor, vendor_intel, vendor_amd,
  vendor_string, get_cpu_vendor,
}

-- A string of the words of a leaf, from address `p` on.
abbrev pub LeafAt : Mem → ℕ → Registers → Type 0
LeafAt m p r =
    (load32 m p ≡ r.eax)
    × (load32 m (p + 4) ≡ r.ebx)
    × (load32 m (p + 8) ≡ r.ecx)
    × (load32 m (p + 12) ≡ r.edx)

-- The registers hold 32 bits.
abbrev pub IsWords : Registers → Type 0
IsWords r = (r.eax < 2 ^ 32) × (r.ebx < 2 ^ 32) × (r.ecx < 2 ^ 32) × (r.edx < 2 ^ 32)

-- The `n` bytes at `a` are not among those at `b`.
abbrev Away : ℕ → ℕ → ℕ → ℕ → Type 0
Away a n b k = (a + n ≤ b) ⊎ (b + k ≤ a)

load32-store8 : (m : Mem) (p v a : ℕ) → Away p 1 a 4 → load32 (store8 m p v) a ≡ load32 m a
unfolding load32
load32-store8 m p v a away = load_bytes_ext 4 (store8 m p v) m a (λ q lo hi. ground (arith, away))

load32-store_leaf :
    (m : Mem) (p : ℕ) (r : Registers) (a : ℕ)
    → Away p 16 a 4
    → load32 (store_leaf m p r) a ≡ load32 m a
unfolding store_leaf
load32-store_leaf m p r a away =
    load32-store32_apart _ (p + 12) r.edx a (ground (arith, away))
    ∙ load32-store32_apart _ (p + 8) r.ecx a (ground (arith, away))
    ∙ load32-store32_apart _ (p + 4) r.ebx a (ground (arith, away))
    ∙ load32-store32_apart m p r.eax a (ground (arith, away))

load32-stored : (m : Mem) (a v : ℕ) → v < 2 ^ 32 → load32 (store32 m a v) a ≡ v
load32-stored m a v small = omega (arith, load32-store32 m a v)

store_leaf-LeafAt : (m : Mem) (p : ℕ) (r : Registers) → IsWords r → LeafAt (store_leaf m p r) p r
unfolding store_leaf
store_leaf-LeafAt m p r (eax_word, ebx_word, ecx_word, edx_word) =
    let m1 = store32 m p r.eax in
    let m2 = store32 m1 (p + 4) r.ebx in
    let m3 = store32 m2 (p + 8) r.ecx in
    (
      load32-store32_apart m3 (p + 12) r.edx p (ground arith)
          ∙ load32-store32_apart m2 (p + 8) r.ecx p (ground arith)
          ∙ load32-store32_apart m1 (p + 4) r.ebx p (ground arith)
          ∙ load32-stored m p r.eax eax_word,
      load32-store32_apart m3 (p + 12) r.edx (p + 4) (ground arith)
          ∙ load32-store32_apart m2 (p + 8) r.ecx (p + 4) (ground arith)
          ∙ load32-stored m1 (p + 4) r.ebx ebx_word,
      load32-store32_apart m3 (p + 12) r.edx (p + 8) (ground arith)
          ∙ load32-stored m2 (p + 8) r.ecx ecx_word,
      load32-stored m3 (p + 12) r.edx edx_word,
    )

-- A string of words stays where the memory keeps its words.
LeafAt-kept :
    (m m' : Mem) (p : ℕ) (r : Registers)
    → ((a : ℕ) → p ≤ a → a + 4 ≤ p + 16 → load32 m' a ≡ load32 m a)
    → LeafAt m p r
    → LeafAt m' p r
LeafAt-kept m m' p r kept (e0, e1, e2, e3) = (
  kept p (omega arith) (omega arith) ∙ e0,
  kept (p + 4) (omega arith) (omega arith) ∙ e1,
  kept (p + 8) (omega arith) (omega arith) ∙ e2,
  kept (p + 12) (omega arith) (omega arith) ∙ e3,
)

-- When CPUID gives 32-bit words, `get_cpu_model_name` writes a string that ends with a NUL and whose
-- first part is leaf 0x80000002; its second and its third part are both leaf 0x80000004.
pub get_cpu_model_name-LeafAt :
    (raw : ℕ → Registers) (m : Mem) (copy_to : ℕ)
    → ((leaf : ℕ) → IsWords (raw leaf))
    → let after = get_cpu_model_name raw m copy_to in
      LeafAt after copy_to (raw 0x8000_0002)
      × LeafAt after (copy_to + 16) (raw 0x8000_0004)
      × LeafAt after (copy_to + 32) (raw 0x8000_0004)
      × (after (copy_to + 48) ≡ 0)
unfolding get_cpu_model_name
get_cpu_model_name-LeafAt raw m copy_to words =
    let m1 = store_leaf m copy_to (raw 0x8000_0002) in
    let m2 = store_leaf m1 (copy_to + 16) (raw 0x8000_0004) in
    let m3 = store_leaf m2 (copy_to + 32) (raw 0x8000_0004) in
    let ended : (a : ℕ)
        → a + 4 ≤ copy_to + 48
        → load32 (store8 m3 (copy_to + 48) 0) a ≡ load32 m3 a =
      λ a below. load32-store8 m3 (copy_to + 48) 0 a (ground (arith, below)) in
    (
      LeafAt-kept m1 _ copy_to _
          (λ a lo hi.
            ended a (omega arith)
            ∙ load32-store_leaf m2 (copy_to + 32) (raw 0x8000_0004) a (ground (arith, hi))
            ∙ load32-store_leaf m1 (copy_to + 16) (raw 0x8000_0004) a (ground (arith, hi)))
          (store_leaf-LeafAt m copy_to _ (words 0x8000_0002)),
      LeafAt-kept m2 _ (copy_to + 16) _
          (λ a lo hi.
            ended a (omega arith)
            ∙ load32-store_leaf m2 (copy_to + 32) (raw 0x8000_0004) a (ground (arith, hi)))
          (store_leaf-LeafAt m1 (copy_to + 16) _ (words 0x8000_0004)),
      LeafAt-kept m3 _ (copy_to + 32) _ (λ a lo hi. ended a (omega arith))
          (store_leaf-LeafAt m2 (copy_to + 32) _ (words 0x8000_0004)),
      ground arith,
    )

store_bytes_below :
    (m : Mem) (p : ℕ) (bytes : List ℕ) (q : ℕ) → q < p → store_bytes m p bytes q ≡ m q
unfolding store_bytes
store_bytes_below m p [] q below = refl
store_bytes_below m p (b ∷ bytes) q below =
    store_bytes_below (store8 m p b) (p + 1) bytes q (omega arith) ∙ ground (arith, below)

-- Byte `i` of a literal, 0 past its end.
unfoldable byte : List ℕ → ℕ → ℕ
byte [] i = 0
byte (b ∷ bytes) zero = b
byte (b ∷ bytes) (suc i) = byte bytes i

store_bytes-byte :
    (m : Mem) (p : ℕ) (bytes : List ℕ) (i : ℕ)
    → i < length bytes
    → store_bytes m p bytes (p + i) ≡ byte bytes i
unfolding store_bytes byte
store_bytes-byte m p [] i inside = absurd (omega arith)
store_bytes-byte m p (b ∷ bytes) zero inside =
    store_bytes_below (store8 m p b) (p + 1) bytes (p + 0) (omega arith) ∙ ground arith
store_bytes-byte m p (b ∷ bytes) (suc i) inside =
    ap (store_bytes (store8 m p b) (p + 1) bytes) {x = p + suc i} {y = p + 1 + i} (omega arith)
    ∙ store_bytes-byte (store8 m p b) (p + 1) bytes i (omega arith)

-- The word of a literal that starts at its byte `i`.
abbrev word : List ℕ → ℕ → ℕ
word bytes i =
    byte bytes (i + 0)
    + 256 * (byte bytes (i + 1) + 256 * (byte bytes (i + 2) + 256 * (byte bytes (i + 3) + 256 * 0)))

load32-store_bytes :
    (m : Mem) (p : ℕ) (bytes : List ℕ) (i : ℕ)
    → i + 4 ≤ length bytes
    → load32 (store_bytes m p bytes) (p + i) ≡ word bytes i
unfolding load32 load_bytes
load32-store_bytes m p bytes i inside =
    let at : (k a : ℕ) → a ≡ p + (i + k) → k < 4 → store_bytes m p bytes a ≡ byte bytes (i + k) =
      λ k a e lt. ap (store_bytes m p bytes) e ∙ store_bytes-byte m p bytes (i + k) (omega arith) in
    rw
      (
        at 0 (p + i) (omega arith) (omega arith),
        at 1 (p + i + 1) (omega arith) (omega arith),
        at 2 (p + i + 1 + 1) (omega arith) (omega arith),
        at 3 (p + i + 1 + 1 + 1) (omega arith) (omega arith),
      )
      refl

-- The vendors as the compiler's header gives them.
abbrev pub intel : Vendor
intel = vendor_intel 0x756e_6547

abbrev pub amd : Vendor
amd = vendor_amd 0x6874_7541

-- What stands at `p`: the three words of leaf 0 in the order EBX, EDX, ECX, and a NUL.
abbrev pub VendorAt : Mem → ℕ → Registers → Type 0
VendorAt m p r =
    (load32 m p ≡ r.ebx)
    × (load32 m (p + 4) ≡ r.edx)
    × (load32 m (p + 8) ≡ r.ecx)
    × (m (p + 12) ≡ 0)

-- A processor whose EBX is that of a known vendor is of that vendor.
abbrev pub IsGenuine : Registers → Type 0
IsGenuine r =
    (r.ebx ≡ 0x756e_6547 → (r.edx ≡ 0x4965_6e69) × (r.ecx ≡ 0x6c65_746e))
    × (r.ebx ≡ 0x6874_7541 → (r.edx ≡ 0x6974_6e65) × (r.ecx ≡ 0x444d_4163))

-- The NUL at the end does not touch the words before it.
VendorAt-ended :
    (m : Mem) (p : ℕ) (r : Registers)
    → load32 m p ≡ r.ebx
    → load32 m (p + 4) ≡ r.edx
    → load32 m (p + 8) ≡ r.ecx
    → VendorAt (store8 m (p + 12) 0) p r
VendorAt-ended m p r e0 e1 e2 = (
  load32-store8 m (p + 12) 0 p (ground arith) ∙ e0,
  load32-store8 m (p + 12) 0 (p + 4) (ground arith) ∙ e1,
  load32-store8 m (p + 12) 0 (p + 8) (ground arith) ∙ e2,
  ground arith,
)

-- A literal of twelve bytes whose words are the registers'.
literal-VendorAt :
    (m : Mem) (p : ℕ) (bytes : List ℕ) (r : Registers)
    → 12 ≤ length bytes
    → r.ebx ≡ word bytes 0
    → r.edx ≡ word bytes 4
    → r.ecx ≡ word bytes 8
    → VendorAt (store8 (store_bytes m p bytes) (p + 12) 0) p r
literal-VendorAt m p bytes r long e0 e1 e2 =
    VendorAt-ended (store_bytes m p bytes) p r
      (ap (load32 (store_bytes m p bytes)) {x = p} {y = p + 0} (omega arith)
        ∙ load32-store_bytes m p bytes 0 (omega arith)
        ∙ sym e0)
      (load32-store_bytes m p bytes 4 (omega arith) ∙ sym e1)
      (load32-store_bytes m p bytes 8 (omega arith) ∙ sym e2)

words-VendorAt :
    (m : Mem) (p : ℕ) (r : Registers)
    → IsWords r
    → VendorAt
        (store8 (store32 (store32 (store32 m p r.ebx) (p + 8) r.ecx) (p + 4) r.edx) (p + 12) 0)
        p
        r
words-VendorAt m p r words =
    let m1 = store32 m p r.ebx in
    let m2 = store32 m1 (p + 8) r.ecx in
    VendorAt-ended (store32 m2 (p + 4) r.edx) p r
      (load32-store32_apart m2 (p + 4) r.edx p (ground arith)
        ∙ load32-store32_apart m1 (p + 8) r.ecx p (ground arith)
        ∙ load32-stored m p r.ebx words.1)
      (load32-stored m2 (p + 4) r.edx words.3)
      (load32-store32_apart m2 (p + 4) r.edx (p + 8) (ground arith)
        ∙ load32-stored m1 (p + 8) r.ecx words.2)

vendor_string-VendorAt :
    (beyond : List ℕ) (m : Mem) (p : ℕ) (r : Registers)
    → IsWords r
    → IsGenuine r
    → VendorAt (vendor_string intel amd beyond m p (some r)) p r
unfolding vendor_string vendor_intel vendor_amd byte
vendor_string-VendorAt beyond m p r words genuine = elim (Bool-cases (r.ebx == 0x756e_6547)) [
  | inl is ↦
      let e : r.ebx ≡ 0x756e_6547 = ground (arith, is) in
      let rest = genuine.0 e in
      rw is (literal-VendorAt m p intel.vendor_name r (omega arith) e rest.0 rest.1)
  | inr other ↦ elim (Bool-cases (r.ebx == 0x6874_7541)) [
    | inl is ↦
        let e : r.ebx ≡ 0x6874_7541 = ground (arith, is) in
        let rest = genuine.1 e in
        rw (other, is) (literal-VendorAt m p amd.vendor_name r (omega arith) e rest.0 rest.1)
    | inr neither ↦ rw (other, neither) (words-VendorAt m p r words)
  ]
]

-- When CPUID answers leaf 0 with 32-bit words, and a processor with the EBX of Intel or AMD has the
-- other two words of that vendor too, `get_cpu_vendor` writes the words in the order EBX, EDX, ECX
-- and a NUL, whether it copies a literal or the words, and whatever stood in its own array.
pub get_cpu_vendor-VendorAt :
    (get_cpuid : ℕ → Option Registers) (beyond : List ℕ) (cpu_manufacturer : ℕ) (m : Mem)
    (copy_to : ℕ) (r : Registers)
    → get_cpuid 0 ≡ some r
    → IsWords r
    → IsGenuine r
    → VendorAt (get_cpu_vendor get_cpuid intel amd beyond cpu_manufacturer m copy_to) copy_to r
unfolding get_cpu_vendor
get_cpu_vendor-VendorAt get_cpuid beyond cpu_manufacturer m copy_to r answer words genuine =
    rw answer (
      vendor_string-VendorAt beyond
        (if m cpu_manufacturer == 0 then m else memcpy m copy_to cpu_manufacturer 13) copy_to r
        words genuine)
