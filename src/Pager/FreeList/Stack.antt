-- ===== src/Pager/FreeList/Stack.antt =====
-- The list of free pages that a pager holds, and what keeps it.
use sqlyt.Base.{ℕ, ◌<◌, ◌≡◌, ◌≢◌, sym, ◌∙◌, some, List, [], ◌∷◌, arith}
use sqlyt.Page.{Page, get_u32}
use sqlyt.Node.{table_max_pages}
use sqlyt.Pager.{Pager}
use sqlyt.Pager.Cache.Load.{seen, with_cached, seen-with_cached}
use sqlyt.Pager.Header.{version_offset, free_page_head_offset, db_format_version}
use sqlyt.Pager.FreeList.{next_free_offset}

-- The pages of a list of free pages, from the number of the first on.
abbrev pub Chain : Pager → ℕ → List ℕ → Type 0
Chain s h [] = h ≡ 0
Chain s h (x ∷ xs) =
    (h ≡ x)
    × (0 < x)
    × (x < table_max_pages)
    × ((p : Page) × (seen s x ≡ some p) × Chain s (get_u32 p next_free_offset) xs)

abbrev pub NotIn : ℕ → List ℕ → Type 0
NotIn x [] = Unit {0}
NotIn x (y ∷ ys) = (x ≢ y) × NotIn x ys

abbrev pub Distinct : List ℕ → Type 0
Distinct [] = Unit {0}
Distinct (x ∷ xs) = NotIn x xs × Distinct xs

-- The pager has the free pages `xs`, in the order in which they will be taken.
pub record FreeStack (s : Pager) (xs : List ℕ) : Type 0 where
  pub header : Page
  pub shown : seen s 0 ≡ some header
  pub version : get_u32 header version_offset ≡ db_format_version
  pub chain : Chain s (get_u32 header free_page_head_offset) xs
  pub distinct : Distinct xs

-- No page but the header and page `x` shows other bytes.
abbrev pub SameOthers : (x : ℕ) → Pager → Pager → Type 0
SameOthers x s s' = (m : ℕ) → 0 < m → m ≢ x → seen s' m ≡ seen s m

pub Chain-frame :
    (x h : ℕ) (xs : List ℕ) (s s' : Pager)
    → SameOthers x s s'
    → NotIn x xs
    → Chain s h xs
    → Chain s' h xs
Chain-frame x h [] s s' same out c = c
Chain-frame x h (y ∷ ys) s s' same out (e, pos, small, (p, shown, rest)) = (
  e,
  pos,
  small,
  (
    p,
    same y pos (λ q. out.0 (sym q)) ∙ shown,
    Chain-frame x (get_u32 p next_free_offset) ys s s' same out.1 rest,
  ),
)

pub Chain-head-lt : (s : Pager) (h : ℕ) (xs : List ℕ) → Chain s h xs → h < table_max_pages
Chain-head-lt s h [] c = omega arith
Chain-head-lt s h (x ∷ xs) c = omega (arith, c.0, c.2)

pub with_cached-SameOthers :
    (s : Pager) (n x : ℕ) (p : Page) → seen s n ≡ some p → SameOthers x s (with_cached s n p)
with_cached-SameOthers s n x p shown m pos ne = seen-with_cached s n p shown m

pub SameOthers-trans :
    (x : ℕ) (s t u : Pager) → SameOthers x s t → SameOthers x t u → SameOthers x s u
SameOthers-trans x s t u a b m pos ne = b m pos ne ∙ a m pos ne
