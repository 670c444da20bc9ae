-- ===== src/Pager/Keeps.antt =====
-- Predicates on the pager that code keeps, and what code ends with: one rule for each way to build a
-- program, kept in a set for `search`.
use sqlyt.Base.{◌≡◌, subst, Bool, true, false, if◌then◌else◌}
use sqlyt.Pager.{
  Pager, Run, done, exited, fault, out_of_fuel, M, and_then, pure, exit_failure, spent, gets, ◌>>=◌,
}

-- A run that does not return, or whose result and state satisfy `Q`.
pub data After {A : Type 0} (Q : A → Pager → Type 0) : Run A → Type 0 where
  after_done : {a : A} {s : Pager} → Q a s → After Q (done a s)
  after_exited : After Q exited
  after_fault : After Q fault
  after_out_of_fuel : After Q out_of_fuel

-- From a state with `P`, code that returns ends with `Q`.
pub record Ends {A : Type 0} (P : Pager → Type 0) (m : M A) (Q : A → Pager → Type 0) : Type 0 where
  pub at : (s : Pager) → P s → After Q (m s)

-- Code that keeps `P` as long as it runs.
pub record Keeps {A : Type 0} (P : Pager → Type 0) (m : M A) : Type 0 where
  pub at : (s : Pager) → P s → After (λ _ s'. P s') (m s)

module _ {A : Type 0} {P : Pager → Type 0} where
  pub Keeps-pure : (a : A) → Keeps P (pure a)
  unfolding pure
  Keeps-pure a = record { at = λ s h. after_done h }

  pub Keeps-exit_failure : Keeps P (exit_failure {A = A})
  unfolding exit_failure
  Keeps-exit_failure = record { at = λ s h. after_exited }

  pub Keeps-spent : Keeps P (spent {A = A})
  unfolding spent
  Keeps-spent = record { at = λ s h. after_out_of_fuel }

  pub Keeps-gets : (f : Pager → A) → Keeps P (gets f)
  unfolding gets
  Keeps-gets f = record { at = λ s h. after_done h }

  pub Keeps-if : (b : Bool) (m n : M A) → Keeps P m → Keeps P n → Keeps P (if b then m else n)
  Keeps-if true m n km kn = km
  Keeps-if false m n km kn = kn

module _ {A : Type 0} where
  pub After-map :
      {Q R : A → Pager → Type 0} {r : Run A}
      → After Q r
      → ((a : A) (s : Pager) → Q a s → R a s)
      → After R r
  After-map (after_done q) f = after_done (f _ _ q)
  After-map after_exited f = after_exited
  After-map after_fault f = after_fault
  After-map after_out_of_fuel f = after_out_of_fuel

  -- What is known of a run that returned.
  pub After-at :
      {Q : A → Pager → Type 0} {r : Run A} {a : A} {s : Pager} → After Q r → r ≡ done a s → Q a s
  After-at {Q = Q} {a = a} {s = s} h e = invert (subst (After Q) e h)
    where
      invert : After Q (done a s) → Q a s
      invert (after_done q) = q

module _ {A B : Type 0} where
  pub After-bind :
      {Q : A → Pager → Type 0} {R : B → Pager → Type 0} {r : Run A} {k : A → M B}
      → After Q r
      → ((a : A) (s : Pager) → Q a s → After R (k a s))
      → After R (and_then r k)
  After-bind (after_done q) next = next _ _ q
  After-bind after_exited next = after_exited
  After-bind after_fault next = after_fault
  After-bind after_out_of_fuel next = after_out_of_fuel

module _ {A B : Type 0} {P : Pager → Type 0} where
  pub Keeps-bind :
      (m : M A) (k : A → M B) → Keeps P m → ((a : A) → Keeps P (k a)) → Keeps P (m >>= k)
  unfolding ◌>>=◌
  Keeps-bind m k km kk = record { at = λ s h. After-bind (km.at s h) (λ a s' h'. (kk a).at s' h') }

  -- The last step may do more than keep `P`.
  Ends-bind :
      {Q : B → Pager → Type 0} (m : M A) (k : A → M B)
      → Keeps P m
      → ((a : A) → Ends P (k a) Q)
      → Ends P (m >>= k) Q
  unfolding ◌>>=◌
  Ends-bind m k km kk = record { at = λ s h. After-bind (km.at s h) (λ a s' h'. (kk a).at s' h') }

module _ {A : Type 0} {P : Pager → Type 0} {Q : A → Pager → Type 0} where
  Ends-if : (b : Bool) (m n : M A) → Ends P m Q → Ends P n Q → Ends P (if b then m else n) Q
  Ends-if true m n km kn = km
  Ends-if false m n km kn = kn

pub ruleset keeps_rules =
    (Keeps-pure, Keeps-exit_failure, Keeps-spent, Keeps-gets, Keeps-if, Keeps-bind)
