-- ===== src/Pager/Wal/Append.antt =====
-- What a transaction at the end of a log, whole or cut short, makes durable.
use Prim.Native.Nat.add
use sqlyt.Base.{
  ℕ, ◌+◌, ◌≡◌, ap, fun_ext, List, [], ◌∷◌, ◌++◌, arith, ◌==◌, if◌then◌else◌, take, length,
  length-append, take_all, take-append_left,
}
use sqlyt.Pager.{Frame}
use sqlyt.Pager.Wal.Durable.{
  nothing, overlay, overlay-append, durable, durable-overlay, committed_length, committed_length-le,
}
use sqlyt.Pager.Wal.Transaction.{Commits}

pub committed_length-append :
    (xs ys : List Frame)
    → committed_length (xs ++ ys)
      ≡ (if committed_length ys == 0 then committed_length xs else length xs + committed_length ys)
unfolding committed_length
committed_length-append [] ys = ground arith
committed_length-append (x ∷ xs) ys =
    ground (arith, committed_length-append xs ys, committed_length-le xs)

pub take-append_right {ℓ} :
    {A : Type ℓ} (xs ys : List A) (k : ℕ) → take (length xs + k) (xs ++ ys) ≡ xs ++ take k ys
take-append_right [] ys k = ground arith
take-append_right (x ∷ xs) ys k = rw add.suc (ap (λ zs. x ∷ zs) (take-append_right xs ys k))

-- Frames without a commit behind a log change nothing that is durable.
pub durable-append_part :
    (old fs : List Frame) (n : ℕ) → committed_length fs ≡ 0 → durable (old ++ fs) n ≡ durable old n
durable-append_part old fs n h = rw (
  durable-overlay (old ++ fs) n,
  durable-overlay old n,
  committed_length-append,
  h,
  take-append_left (committed_length old) old fs (committed_length-le old),
)

-- A log that ends in a commit.
abbrev pub IsCommitted : List Frame → Type 0
IsCommitted fs = committed_length fs ≡ length fs

durable-IsCommitted :
    (fs : List Frame) (n : ℕ) → IsCommitted fs → durable fs n ≡ overlay nothing fs n
durable-IsCommitted fs n h = rw (durable-overlay fs n, h, take_all (length fs) fs (omega arith))

module _ (old fs : List Frame) (committed : IsCommitted old) (c : Commits fs) where
  pub append-IsCommitted : IsCommitted (old ++ fs)
  append-IsCommitted = ground (
    arith,
    committed_length-append old fs,
    length-append old fs,
    c.whole,
    c.some_frame,
    committed,
  )

  -- A whole transaction becomes durable.
  pub durable-append_whole : (n : ℕ) → durable (old ++ fs) n ≡ overlay (durable old) fs n
  durable-append_whole n = rw (
    durable-IsCommitted (old ++ fs) n append-IsCommitted,
    overlay-append nothing old fs,
    fun_ext {f = durable old} (λ k. durable-IsCommitted old k committed),
  )
