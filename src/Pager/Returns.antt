-- ===== src/Pager/Returns.antt =====
-- Total correctness of a run: it returns, and its result and final state satisfy a postcondition.
use sqlyt.Pager.{Pager, Run, done, M, and_then}

pub data Returns {A : Type 0} (P : A → Pager → Type 0) : Run A → Type 0 where
  returns : {a : A} {s : Pager} → P a s → Returns P (done a s)

module _ {A : Type 0} {P : A → Pager → Type 0} where
  pub bind :
      {B : Type 0} {Q : B → Pager → Type 0} {r : Run A} {k : A → M B}
      → Returns P r
      → ((a : A) (s : Pager) → P a s → Returns Q (k a s))
      → Returns Q (and_then r k)
  bind (returns p) next = next _ _ p

  pub mono :
      {Q : A → Pager → Type 0} {r : Run A}
      → Returns P r
      → ((a : A) (s : Pager) → P a s → Q a s)
      → Returns Q r
  mono (returns p) weaken = returns (weaken _ _ p)
