-- ===== src/Page/Slices.antt =====
-- Runs of bytes: what `slice` reads after the writes.
use sqlyt.Base.{ℕ, zero, suc, ◌+◌, ◌<◌, ◌≡◌, refl, ap, arith, length}
use sqlyt.Page.{Page, slice}

pub length-slice : (p : Page) (off n : ℕ) → length (slice p off n) ≡ n
unfolding slice
length-slice p off zero = refl
length-slice p off (suc n) = ap suc (length-slice p (off + 1) n)

pub slice_ext :
    (p q : Page) (a b n : ℕ) → ((i : ℕ) → i < n → p (a + i) ≡ q (b + i)) → slice p a n ≡ slice q b n
unfolding slice
slice_ext p q a b zero h = refl
slice_ext p q a b (suc n) h = ground (
  arith,
  h 0 (omega arith),
  slice_ext p q (a + 1) (b + 1) n λ i hi. ground (arith, h (suc i) (omega arith)),
)
