-- ===== src/Page.antt =====
-- Pages of the store (PAGE_SIZE in include/sqlyt.h) as bytes at offsets, and what the C code does
-- to them: a 32-bit word read or written through a `uint32_t *`, memcpy and memset.
pub mod Words
pub mod Slices
use sqlyt.Base.{
  ℕ, zero, suc, ◌+◌, ◌-◌, ◌*◌, ◌/◌, ◌%◌, ◌^◌, ◌<◌, ◌&&◌, List, [], ◌∷◌, ltb, leb, ◌==◌,
  if◌then◌else◌, update,
}

-- A byte for each offset; the code uses those below `page_size`.
abbrev pub Page : Type 0
Page = ℕ → ℕ

abbrev pub page_size : ℕ
page_size = 4096

abbrev pub u32_mod : ℕ
u32_mod = 2 ^ 32

abbrev pub u32_max : ℕ
u32_max = 4294967295

abbrev pub zero_page : Page
zero_page = λ k. 0

-- `*(uint32_t *)(p + off)`: four bytes, the lowest first.
unfoldable pub get_u32 : Page → ℕ → ℕ
get_u32 p off = p off + p (off + 1) * 0x100 + p (off + 2) * 0x1_0000 + p (off + 3) * 0x100_0000

-- `*(uint32_t *)(p + off) = v`
unfoldable pub put_u32 : Page → ℕ → ℕ → Page
put_u32 p off v k =
    if k == off
    then v % 0x100
    else if k == off + 1
    then v / 0x100 % 0x100
    else if k == off + 2
    then v / 0x1_0000 % 0x100
    else if k == off + 3
    then v / 0x100_0000 % 0x100
    else p k

-- `*(p + off) = b` for a `uint8_t *`.
unfoldable pub put_u8 : Page → ℕ → ℕ → Page
put_u8 p off b = update p off (b % 0x100)

-- `memcpy(p + dst, q + src, n)`; also memmove, since the source is read as it was before.
unfoldable pub memcpy : Page → ℕ → Page → ℕ → ℕ → Page
memcpy p dst q src n k = if leb dst k && ltb k (dst + n) then q (src + (k - dst)) else p k

-- `memset(p + dst, b, n)`
unfoldable pub memset : Page → ℕ → ℕ → ℕ → Page
memset p dst b n k = if leb dst k && ltb k (dst + n) then b else p k

-- A buffer given as a list of bytes, and the bytes from an offset on.
unfoldable pub of_bytes : List ℕ → Page
of_bytes [] k = 0
of_bytes (b ∷ bs) zero = b
of_bytes (b ∷ bs) (suc k) = of_bytes bs k

unfoldable pub slice : Page → ℕ → ℕ → List ℕ
slice p off zero = []
slice p off (suc n) = p off ∷ slice p (off + 1) n

-- Every offset holds a byte.
abbrev pub IsBytes : Page → Type 0
IsBytes p = (k : ℕ) → p k < 0x100
