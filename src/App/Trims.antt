-- ===== src/App/Trims.antt =====
-- What normalize_input_line leaves of a line.
use sqlyt.Base.{
  ℕ, zero, suc, ◌+◌, ◌-◌, ◌≤◌, ◌<◌, ◌≡◌, inl, inr, refl, sym, ap, ◌∙◌, arith, true, false, [], ◌∷◌,
  ◌++◌, ltb, length, take, drop, Bool-cases, take-append-drop, length-take, ltb→lt, ltb→ge,
}
use sqlyt.Table.{Text}
use sqlyt.Parser.Text.{is_blank, all}
use sqlyt.App.{leading_blanks, blank_at, trim_end, normalize_input_line}

leading_blanks-blank : (s : Text) (i : ℕ) → i < leading_blanks s → blank_at s i ≡ true
unfolding leading_blanks
leading_blanks-blank [] i h = absurd (omega arith)
leading_blanks-blank (c ∷ s) zero h = ground arith
leading_blanks-blank (c ∷ s) (suc i) h = ground (arith, leading_blanks-blank s i)

leading_blanks-end : (s : Text) → blank_at s (leading_blanks s) ≡ false
unfolding leading_blanks
leading_blanks-end [] = refl
leading_blanks-end (c ∷ s) = ground (arith, leading_blanks-end s)

leading_blanks-le : (s : Text) → leading_blanks s ≤ length s
unfolding leading_blanks
leading_blanks-le [] = omega arith
leading_blanks-le (c ∷ s) = ground (arith, leading_blanks-le s)

trim_end-le : (s : Text) (start n : ℕ) → trim_end s start n ≤ n
unfolding trim_end
trim_end-le s start zero = omega arith
trim_end-le s start (suc n) = ground (arith, trim_end-le s start n)

trim_end-ge : (s : Text) (start n : ℕ) → start ≤ n → start ≤ trim_end s start n
unfolding trim_end
trim_end-ge s start zero h = ground arith
trim_end-ge s start (suc n) h = ground (arith, trim_end-ge s start n)

trim_end-blank : (s : Text) (start n i : ℕ) → trim_end s start n ≤ i → i < n → blank_at s i ≡ true
unfolding trim_end
trim_end-blank s start zero i lo hi = absurd (omega arith)
trim_end-blank s start (suc n) i lo hi = ground (arith, trim_end-blank s start n i)

trim_end-last :
    (s : Text) (start n : ℕ)
    → start < trim_end s start n
    → blank_at s (trim_end s start n - 1) ≡ false
unfolding trim_end
trim_end-last s start zero h = absurd (omega arith)
trim_end-last s start (suc n) h = ground (arith, trim_end-last s start n)

blank_at-drop : (k : ℕ) (s : Text) (i : ℕ) → blank_at (drop k s) i ≡ blank_at s (k + i)
blank_at-drop zero s i = ap (blank_at s) (omega arith)
blank_at-drop (suc k) [] i = refl
blank_at-drop (suc k) (c ∷ s) i =
    let next : suc (k + i) ≡ suc k + i = omega arith in
    blank_at-drop k s i ∙ ap (blank_at (c ∷ s)) next

blank_at-take : (n : ℕ) (s : Text) (i : ℕ) → i < n → blank_at (take n s) i ≡ blank_at s i
blank_at-take zero s i h = absurd (omega arith)
blank_at-take (suc n) [] i h = refl
blank_at-take (suc n) (c ∷ s) zero h = refl
blank_at-take (suc n) (c ∷ s) (suc i) h = blank_at-take n s i (omega arith)

length-drop : (k : ℕ) (s : Text) → length (drop k s) ≡ length s - k
length-drop zero s = omega arith
length-drop (suc k) [] = omega arith
length-drop (suc k) (c ∷ s) = omega (arith, length-drop k s)

all-blank : (s : Text) → ((i : ℕ) → i < length s → blank_at s i ≡ true) → all is_blank s ≡ true
all-blank [] h = refl
all-blank (c ∷ s) h = rw (h 0 (omega arith)) (all-blank s (λ i hi. h (suc i) (omega arith)))

-- A line, and what is left of it when the blanks around it are cut off.
pub record Trims (s t : Text) : Type 0 where
  pub front : Text
  pub back : Text
  pub parts : s ≡ front ++ (t ++ back)
  pub front_blank : all is_blank front ≡ true
  pub back_blank : all is_blank back ≡ true
  pub first_kept : blank_at t 0 ≡ false
  pub last_kept : blank_at t (length t - 1) ≡ false

-- normalize_input_line cuts off blanks at both ends of a line, and what it leaves neither begins nor
-- ends with a blank.
pub normalize_input_line-Trims : (s : Text) → Trims s (normalize_input_line s)
unfolding normalize_input_line
normalize_input_line-Trims s = record {
  front = take start s;
  back = drop (end - start) (drop start s);
  parts =
      sym (take-append-drop start s)
      ∙ ap (λ r. take start s ++ r) (sym (take-append-drop (end - start) (drop start s)));
  front_blank = all-blank (take start s) front_blank_at;
  back_blank = all-blank (drop (end - start) (drop start s)) back_blank_at;
  first_kept = first_kept_at;
  last_kept = last_kept_at;
}
  where
    start : ℕ
    start = leading_blanks s

    end : ℕ
    end = trim_end s start (length s)

    start_le : start ≤ end
    start_le = trim_end-ge s start (length s) (leading_blanks-le s)

    kept : Text
    kept = take (end - start) (drop start s)

    length_kept : length kept ≡ end - start
    length_kept = omega (
      arith,
      length-take {0} (end - start) (drop start s),
      length-drop start s,
      trim_end-le s start (length s),
    )

    front_blank_at : (i : ℕ) → i < length (take start s) → blank_at (take start s) i ≡ true
    front_blank_at i h =
        let inside : i < start = omega (arith, length-take {0} start s) in
        blank_at-take start s i inside ∙ leading_blanks-blank s i inside

    back_blank_at :
        (i : ℕ)
        → i < length (drop (end - start) (drop start s))
        → blank_at (drop (end - start) (drop start s)) i ≡ true
    back_blank_at i h =
        let inside : start + (end - start + i) < length s =
          omega (arith, length-drop (end - start) (drop start s), length-drop start s) in
        blank_at-drop (end - start) (drop start s) i
        ∙ blank_at-drop start s (end - start + i)
        ∙ trim_end-blank s start (length s) (start + (end - start + i)) (omega (arith, start_le))
            inside

    empty : ltb start end ≡ false → end - start ≡ 0
    empty e = omega (arith, ltb→ge start end e)

    first_kept_at : blank_at kept 0 ≡ false
    first_kept_at = elim (Bool-cases (ltb start end)) [
      | inl e ↦
          blank_at-take (end - start) (drop start s) 0 (omega (arith, ltb→lt start end e))
          ∙ blank_at-drop start s 0
          ∙ ap (blank_at s) (omega arith)
          ∙ leading_blanks-end s
      | inr e ↦ ap (λ n. blank_at (take n (drop start s)) 0) (empty e)
    ]

    last_kept_at : blank_at kept (length kept - 1) ≡ false
    last_kept_at = elim (Bool-cases (ltb start end)) [
      | inl e ↦
          let order : start < end = ltb→lt start end e in
          let index : length kept - 1 ≡ end - start - 1 = omega (arith, length_kept) in
          let place : start + (end - start - 1) ≡ end - 1 = omega arith in
          ap (blank_at kept) index
          ∙ blank_at-take (end - start) (drop start s) (end - start - 1) (omega arith)
          ∙ blank_at-drop start s (end - start - 1)
          ∙ ap (blank_at s) place
          ∙ trim_end-last s start (length s) order
      | inr e ↦
          ap (λ n. blank_at (take n (drop start s)) (length (take n (drop start s)) - 1)) (empty e)
    ]
