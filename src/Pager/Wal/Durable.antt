-- ===== src/Pager/Wal/Durable.antt =====
-- What a log of frames means, told without indices or mappings: frames are laid over one another,
-- and become durable when a commit frame is read.
use sqlyt.Base.{
  ℕ, suc, ◌≡◌, refl, Option, none, some, List, [], ◌∷◌, ◌++◌, arith, ◌==◌, if◌then◌else◌, update,
  take, length, ◌≤◌,
}
use sqlyt.Page.{Page}
use sqlyt.Pager.{Frame}

abbrev pub View : Type 0
View = ℕ → Option Page

abbrev pub nothing : View
nothing n = none

-- All frames, committed or not, over a view; the last frame of a page wins.
unfoldable pub overlay : View → List Frame → View
overlay v [] = v
overlay v (f ∷ fs) = overlay (update v f.page_num (some f.content)) fs

-- The view at the last commit frame: `base` until one is read.
unfoldable pub durable_from : View → View → List Frame → View
durable_from base pending [] = base
durable_from base pending (f ∷ fs) =
    let pending' = update pending f.page_num (some f.content) in
    if f.is_commit == 0 then durable_from base pending' fs else durable_from pending' pending' fs

unfoldable pub durable : List Frame → View
unfolding durable_from
durable fs = durable_from nothing nothing fs

-- How many frames there are up to the last commit frame, that one included.
unfoldable pub committed_length : List Frame → ℕ
committed_length [] = 0
committed_length (f ∷ fs) =
    if committed_length fs == 0
    then (if f.is_commit == 0 then 0 else 1)
    else suc (committed_length fs)

pub committed_length-le : (fs : List Frame) → committed_length fs ≤ length fs
unfolding committed_length
committed_length-le [] = omega arith
committed_length-le (f ∷ fs) = ground (arith, committed_length-le fs)

-- What is durable is the frames up to the last commit.
pub durable_from-overlay :
    (base pending : View) (fs : List Frame) (n : ℕ)
    → durable_from base pending fs n ≡ (
        if committed_length fs == 0
        then base n
        else overlay pending (take (committed_length fs) fs) n)
unfolding durable_from committed_length overlay
durable_from-overlay base pending [] n = refl
durable_from-overlay base pending (f ∷ fs) n = ground (
  arith,
  durable_from-overlay base (update pending f.page_num (some f.content)) fs n,
  durable_from-overlay (update pending f.page_num (some f.content))
      (update pending f.page_num (some f.content)) fs n,
)

pub durable-overlay :
    (fs : List Frame) (n : ℕ) → durable fs n ≡ overlay nothing (take (committed_length fs) fs) n
unfolding durable overlay
durable-overlay fs n = ground (arith, durable_from-overlay nothing nothing fs n)

pub overlay-append :
    (v : View) (fs gs : List Frame) → overlay v (fs ++ gs) ≡ overlay (overlay v fs) gs
unfolding overlay
overlay-append v [] gs = refl
overlay-append v (f ∷ fs) gs = overlay-append (update v f.page_num (some f.content)) fs gs
