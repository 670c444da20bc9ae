-- ===== src/Page/Words.antt =====
-- Words and bytes read back from a page after a write.
use sqlyt.Base.{ℕ, ◌+◌, ◌≤◌, ◌<◌, ◌≡◌, ◌≢◌, ◌⊎◌, arith}
use sqlyt.Page.{Page, u32_mod, get_u32, put_u32, put_u8, memcpy, memset, IsBytes}

pub get_u32-put_u32_self : (p : Page) (off v : ℕ) → v < u32_mod → get_u32 (put_u32 p off v) off ≡ v
unfolding get_u32 put_u32
get_u32-put_u32_self p off v h = ground arith

pub put_u32_outside : (p : Page) (off v k : ℕ) → (k < off) ⊎ (off + 4 ≤ k) → put_u32 p off v k ≡ p k
unfolding put_u32
put_u32_outside p off v k h = ground arith

pub put_u8_outside : (p : Page) (off b k : ℕ) → k ≢ off → put_u8 p off b k ≡ p k
unfolding put_u8
put_u8_outside p off b k h = ground arith

-- A word depends on its four bytes alone.
pub get_u32_ext :
    (p q : Page) (a b : ℕ)
    → ((i : ℕ) → i < 4 → p (a + i) ≡ q (b + i))
    → p a ≡ q b
    → get_u32 p a ≡ get_u32 q b
unfolding get_u32
get_u32_ext p q a b h h0 = ground (arith, h 1 (omega arith), h 2 (omega arith), h 3 (omega arith))

pub get_u32-put_u32_ne :
    (p : Page) (off v q : ℕ)
    → (q + 4 ≤ off) ⊎ (off + 4 ≤ q)
    → get_u32 (put_u32 p off v) q ≡ get_u32 p q
get_u32-put_u32_ne p off v q h =
    get_u32_ext (put_u32 p off v) p q q (λ i hi. put_u32_outside p off v (q + i) (omega arith))
      (put_u32_outside p off v q (omega arith))

pub get_u32-put_u8_ne :
    (p : Page) (off b q : ℕ)
    → (q + 4 ≤ off) ⊎ (off + 1 ≤ q)
    → get_u32 (put_u8 p off b) q ≡ get_u32 p q
get_u32-put_u8_ne p off b q h =
    get_u32_ext (put_u8 p off b) p q q (λ i hi. put_u8_outside p off b (q + i) (omega arith))
      (put_u8_outside p off b q (omega arith))

pub memcpy_inside :
    (p : Page) (dst : ℕ) (q : Page) (src n i : ℕ)
    → i < n
    → memcpy p dst q src n (dst + i) ≡ q (src + i)
unfolding memcpy
memcpy_inside p dst q src n i h = ground arith

pub memcpy_outside :
    (p : Page) (dst : ℕ) (q : Page) (src n k : ℕ)
    → (k < dst) ⊎ (dst + n ≤ k)
    → memcpy p dst q src n k ≡ p k
unfolding memcpy
memcpy_outside p dst q src n k h = ground arith

pub memset_outside :
    (p : Page) (dst b n k : ℕ) → (k < dst) ⊎ (dst + n ≤ k) → memset p dst b n k ≡ p k
unfolding memset
memset_outside p dst b n k h = ground arith

pub get_u32-lt : (p : Page) (off : ℕ) → IsBytes p → get_u32 p off < u32_mod
unfolding get_u32
get_u32-lt p off h = omega (arith, h off, h (off + 1), h (off + 2), h (off + 3))

pub put_u32-IsBytes : (p : Page) (off v : ℕ) → IsBytes p → IsBytes (put_u32 p off v)
unfolding put_u32
put_u32-IsBytes p off v h k = ground (arith, h k)

pub put_u8-IsBytes : (p : Page) (off b : ℕ) → IsBytes p → IsBytes (put_u8 p off b)
unfolding put_u8
put_u8-IsBytes p off b h k = ground (arith, h k)
