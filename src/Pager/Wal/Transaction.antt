-- ===== src/Pager/Wal/Transaction.antt =====
-- The frames that one commit appends: one for each dirty page in page order, the last one marked.
use sqlyt.Base.{
  ℕ, zero, suc, ◌+◌, ◌≡◌, ◌≢◌, refl, sym, subst, ◌⊎◌, inl, inr, Bool, true, false, Option, none,
  some, List, [], ◌∷◌, arith, leb, ltb, ◌&&◌, ◌==◌, if◌then◌else◌, update, take, length, ◌<◌, ◌≤◌,
  Bool-cases, ==_iff, Option-cases,
}
use sqlyt.Page.{Page}
use sqlyt.Pager.{Frame}
use sqlyt.Pager.Wal.{count_page, count_dirty}
use sqlyt.Pager.Wal.Durable.{View, overlay, committed_length}

abbrev pub page_frame : ℕ → ℕ → Page → Frame
page_frame i last p = record { page_num = i; is_commit = if i == last then 1 else 0; content = p }

-- A transaction: the whole list ends in a commit frame, and no shorter beginning of it has one.
pub record Commits (fs : List Frame) : Type 0 where
  pub whole : committed_length fs ≡ length fs
  pub some_frame : 0 < length fs
  pub part : (k : ℕ) → k < length fs → committed_length (take k fs) ≡ 0

Commits-last : (f : Frame) → f.is_commit ≡ 1 → Commits (f ∷ [])
unfolding committed_length
Commits-last f e = record { whole = ground arith; some_frame = omega arith; part = part_last }
  where
    part_last : (k : ℕ) → k < 1 → committed_length (take k (f ∷ [])) ≡ 0
    part_last zero h = refl
    part_last (suc k) h = absurd (omega arith)

Commits-cons : (f : Frame) (fs : List Frame) → f.is_commit ≡ 0 → Commits fs → Commits (f ∷ fs)
unfolding committed_length
Commits-cons f fs e c = record { whole = ground arith; some_frame = omega arith; part = part_cons }
  where
    part_cons : (k : ℕ) → k < suc (length fs) → committed_length (take k (f ∷ fs)) ≡ 0
    part_cons zero h = refl
    part_cons (suc k) h = ground (arith, c.part k)

-- Every dirty page is in the cache.
abbrev pub AllCached : (ℕ → Bool) → (ℕ → Option Page) → Type 0
AllCached dirty pages = (i : ℕ) → dirty i ≡ true → pages i ≢ none

-- `last` is the last dirty page among the `n` pages from page `i` on.
abbrev pub IsLastDirty : (ℕ → Bool) → (last n i : ℕ) → Type 0
IsLastDirty dirty last n i =
    (i ≤ last)
    × (last < i + n)
    × (dirty last ≡ true)
    × ((j : ℕ) → last < j → j < i + n → dirty j ≡ false)

abbrev pub NoneDirty : (ℕ → Bool) → (n i : ℕ) → Type 0
NoneDirty dirty n i = (j : ℕ) → i ≤ j → j < i + n → dirty j ≡ false

module _ (dirty : ℕ → Bool) (pages : ℕ → Option Page) (last : ℕ) where
  -- The frames of the dirty pages among the `n` pages from page `i` on.
  unfoldable pub dirty_frames : ℕ → ℕ → List Frame
  dirty_frames zero i = []
  dirty_frames (suc n) i =
      if dirty i
      then elim (pages i) [
        | none ↦ dirty_frames n (i + 1)
        | some p ↦ page_frame i last p ∷ dirty_frames n (i + 1)
      ]
      else dirty_frames n (i + 1)

  pub length-dirty_frames : (n i : ℕ) → length (dirty_frames n i) ≤ n
  unfolding dirty_frames
  length-dirty_frames zero i = omega arith
  length-dirty_frames (suc n) i = ground (arith, length-dirty_frames n (i + 1))

  -- Laid over a view, they show the dirty pages and leave the others as they were.
  pub overlay-dirty_frames :
      AllCached dirty pages
      → (n i : ℕ) (v : View) (k : ℕ)
      → overlay v (dirty_frames n i) k
        ≡ (if dirty k && (leb i k && ltb k (i + n)) then pages k else v k)
  unfolding dirty_frames overlay
  overlay-dirty_frames cached zero i v k = ground arith
  overlay-dirty_frames cached (suc n) i v k = elim (Bool-cases (dirty i)) [
    | inl d ↦ elim (Option-cases (pages i)) [
      | inl e ↦ absurd (cached i d e)
      | inr (p, e) ↦
          rw (d, e) (ground (arith, overlay-dirty_frames cached n (i + 1) (update v i (some p)) k))
    ]
    | inr d ↦ rw d (ground (arith, overlay-dirty_frames cached n (i + 1) v k))
  ]

  -- Without the last dirty page among them no frame commits.
  none_commits :
      (n i k : ℕ) → (last < i) ⊎ (i + n ≤ last) → committed_length (take k (dirty_frames n i)) ≡ 0
  unfolding dirty_frames committed_length
  none_commits n i zero h = refl
  none_commits zero i (suc k) h = refl
  none_commits (suc n) i (suc k) h =
      ground (arith, none_commits n (i + 1) (suc k), none_commits n (i + 1) k)

  none_dirty : (n i : ℕ) → NoneDirty dirty n i → dirty_frames n i ≡ []
  unfolding dirty_frames
  none_dirty zero i h = refl
  none_dirty (suc n) i h =
      rw (h i (omega arith) (omega arith))
        (none_dirty n (i + 1) (λ j a b. h j (omega arith) (omega arith)))

  -- The frames of the dirty pages are one transaction.
  pub dirty_frames-Commits :
      AllCached dirty pages → (n i : ℕ) → IsLastDirty dirty last n i → Commits (dirty_frames n i)
  unfolding dirty_frames
  dirty_frames-Commits cached zero i (a, b, d, above) = absurd (omega arith)
  dirty_frames-Commits cached (suc n) i (a, b, d, above) = elim (Bool-cases (i == last)) [
    | inl e ↦
        let here : i ≡ last = (==_iff i last).0 e in
        let dirty_here : dirty i ≡ true = rw here d in
        elim (Option-cases (pages i)) [
          | inl missing ↦ absurd (cached i dirty_here missing)
          | inr (p, found) ↦
              rw
                (
                  dirty_here,
                  found,
                  none_dirty n (i + 1) (λ j lo hi. above j (omega arith) (omega arith)),
                )
                (Commits-last (page_frame i last p) (ground arith))
        ]
    | inr e ↦
        let after : IsLastDirty dirty last n (i + 1) =
          (ground arith, omega arith, d, λ j lo hi. above j lo (omega arith)) in
        elim (Bool-cases (dirty i)) [
          | inr clean ↦ rw clean (dirty_frames-Commits cached n (i + 1) after)
          | inl marked ↦ elim (Option-cases (pages i)) [
            | inl missing ↦ absurd (cached i marked missing)
            | inr (p, found) ↦
                rw (marked, found)
                  (Commits-cons (page_frame i last p) _ (ground arith)
                    (dirty_frames-Commits cached n (i + 1) after))
          ]
        ]
  ]

-- A count finds no dirty page and changes nothing, or it counts some and finds the last one.
abbrev pub Counted : (ℕ → Bool) → (n i : ℕ) → (before after : ℕ × ℕ) → Type 0
Counted dirty n i before after =
    (NoneDirty dirty n i × (after ≡ before))
    ⊎ ((before.0 < after.0) × IsLastDirty dirty after.1 n i)

Counted-marked :
    (dirty : ℕ → Bool) (n i c l : ℕ) (r : ℕ × ℕ)
    → dirty i ≡ true
    → Counted dirty n (i + 1) (c + 1, i) r
    → Counted dirty (suc n) i (c, l) r
Counted-marked dirty n i c l r marked (inl (clean, e)) = rw e (
    inr (
      omega arith,
      (omega arith, omega arith, marked, λ j a b. clean j (omega arith) (omega arith)),
    ))
Counted-marked dirty n i c l r marked (inr (more, last)) =
    inr (omega arith, (omega arith, omega arith, last.2, λ j a b. last.3 j a (omega arith)))

Counted-clean :
    (dirty : ℕ → Bool) (n i : ℕ) (b r : ℕ × ℕ)
    → dirty i ≡ false
    → Counted dirty n (i + 1) b r
    → Counted dirty (suc n) i b r
Counted-clean dirty n i b r clean (inl (others, e)) = inl (clean_all, e)
  where
    clean_all : NoneDirty dirty (suc n) i
    clean_all j lo hi = ground (arith, clean, others j)
Counted-clean dirty n i b r clean (inr (more, last)) =
    inr (more, (omega arith, omega arith, last.2, λ j a c. last.3 j a (omega arith)))

count_page-marked :
    (dirty : ℕ → Bool) (i c l : ℕ) → dirty i ≡ true → count_page dirty i (c, l) ≡ (c + 1, i)
unfolding count_page
count_page-marked dirty i c l e = rw e

count_page-clean :
    (dirty : ℕ → Bool) (i c l : ℕ) → dirty i ≡ false → count_page dirty i (c, l) ≡ (c, l)
unfolding count_page
count_page-clean dirty i c l e = rw e

pub count_dirty-Counted :
    (dirty : ℕ → Bool) (n i c l : ℕ) → Counted dirty n i (c, l) (count_dirty dirty n i (c, l))
unfolding count_dirty
count_dirty-Counted dirty zero i c l = inl (λ j a b. absurd (omega arith), refl)
count_dirty-Counted dirty (suc n) i c l = elim (Bool-cases (dirty i)) [
  | inl marked ↦
      subst (λ x. Counted dirty (suc n) i (c, l) (count_dirty dirty n (i + 1) x))
        (sym (count_page-marked dirty i c l marked))
        (Counted-marked dirty n i c l _ marked (count_dirty-Counted dirty n (i + 1) (c + 1) i))
  | inr clean ↦
      subst (λ x. Counted dirty (suc n) i (c, l) (count_dirty dirty n (i + 1) x))
        (sym (count_page-clean dirty i c l clean))
        (Counted-clean dirty n i (c, l) _ clean (count_dirty-Counted dirty n (i + 1) c l))
]
