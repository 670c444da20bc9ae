-- ===== src/Parser/Prints.antt =====
-- Decimal numbers that are printed and parsed again.
use Prim.Native.Nat.{◌^◌}
use native.Mathlib.Numerals.{unary_clauses}
use sqlyt.Base.{
  ℕ, zero, suc, ◌+◌, ◌-◌, ◌*◌, ◌/◌, ◌%◌, ◌≤◌, ◌<◌, ◌≡◌, refl, arith, Bool, true, false, some, [],
  ◌∷◌, ◌++◌, ltb, length, length-append, Bool-cases, inl, inr, ltb→lt, lt→ltb, gt→leb, le→leb,
}
use sqlyt.Page.{u32_mod, u32_max}
use sqlyt.Table.{Text}
use sqlyt.Parser.Text.{is_digit, all, span}
use sqlyt.Parser.Number.{
  u64_mod, skip_white, sign, decimal_value, strtoul, parse_u32, decimal_digits, print_u32,
}

pub all-append :
    (f : ℕ → Bool) (s t : Text) → all f s ≡ true → all f t ≡ true → all f (s ++ t) ≡ true
all-append f [] t hs ht = ht
all-append f (c ∷ s) t hs ht = elim (Bool-cases (f c)) [
  | inl e ↦ rw e (all-append f s t (rw e at hs) ht)
  | inr e ↦ ground arith
]

span-all : (f : ℕ → Bool) (s : Text) → all f s ≡ true → span f s ≡ (s, [])
span-all f [] h = refl
span-all f (c ∷ s) h = elim (Bool-cases (f c)) [
  | inl e ↦ rw (e, span-all f s (rw e at h)) refl
  | inr e ↦ ground arith
]

decimal_value-append :
    (acc : ℕ) (s : Text) (c : ℕ)
    → decimal_value acc (s ++ c ∷ []) ≡ decimal_value acc s * 10 + (c - 48)
unfolding decimal_value
decimal_value-append acc [] c = refl
decimal_value-append acc (d ∷ s) c = decimal_value-append (acc * 10 + (d - 48)) s c

decimal_value-digits : (n v : ℕ) → v < 10 ^ n → decimal_value 0 (decimal_digits n v) ≡ v
unfolding decimal_value decimal_digits
decimal_value-digits zero v h = omega arith
decimal_value-digits (suc n) v h = elim (Bool-cases (ltb v 10)) [
  | inl e ↦ rw e (omega arith)
  | inr e ↦
      let h' : v < 10 ^ n * 10 = simp unary_clauses at h in
      let front : v / 10 < 10 ^ n = omega arith in
      rw
        (
          e,
          decimal_value-append 0 (decimal_digits n (v / 10)) (v % 10 + 48),
          decimal_value-digits n (v / 10) front,
        )
        (omega arith)
]

pub decimal_digits-all : (n v : ℕ) → all is_digit (decimal_digits n v) ≡ true
unfolding decimal_digits
decimal_digits-all zero v = refl
decimal_digits-all (suc n) v = elim (Bool-cases (ltb v 10)) [
  | inl e ↦ let l : v < 10 = ltb→lt v 10 e in rw e (ground arith)
  | inr e ↦ rw e (
      all-append is_digit (decimal_digits n (v / 10)) ((v % 10 + 48) ∷ [])
        (decimal_digits-all n (v / 10)) (ground arith))
]

pub length-decimal_digits : (n v : ℕ) → length (decimal_digits n v) ≤ n
unfolding decimal_digits
length-decimal_digits zero v = omega arith
length-decimal_digits (suc n) v = elim (Bool-cases (ltb v 10)) [
  | inl e ↦ rw e (omega arith)
  | inr e ↦ rw e (
      omega (
        arith,
        length-append {0} (decimal_digits n (v / 10)) ((v % 10 + 48) ∷ []),
        length-decimal_digits n (v / 10),
      ))
]

digits_nonempty : (n v : ℕ) → 0 < length (decimal_digits (suc n) v)
unfolding decimal_digits
digits_nonempty n v = elim (Bool-cases (ltb v 10)) [
  | inl e ↦ rw e (omega arith)
  | inr e ↦ rw e (omega (arith, length-append {0} (decimal_digits n (v / 10)) ((v % 10 + 48) ∷ [])))
]

pub print_u32-nonempty : (v : ℕ) → 0 < length (print_u32 v)
unfolding print_u32
print_u32-nonempty v = digits_nonempty 9 v

skip_white_digit : (c : ℕ) (s : Text) → is_digit c ≡ true → skip_white (c ∷ s) ≡ c ∷ s
unfolding skip_white
skip_white_digit c s h = ground arith

sign_digit : (c : ℕ) (s : Text) → is_digit c ≡ true → sign (c ∷ s) ≡ (false, c ∷ s)
unfolding sign
sign_digit c s h = ground arith

-- A text of digits is read by strtoul as its value.
strtoul_digits :
    (s : Text)
    → all is_digit s ≡ true
    → 0 < length s
    → decimal_value 0 s < u32_mod
    → strtoul s ≡ some (decimal_value 0 s, [])
unfolding strtoul
strtoul_digits [] h l v = absurd (omega arith)
strtoul_digits (c ∷ s) h l v =
    let first : is_digit c ≡ true = elim (Bool-cases (is_digit c)) [
      | inl e ↦ e
      | inr e ↦ ground arith
    ] in
    rw
      (
        skip_white_digit c s first,
        sign_digit c s first,
        span-all is_digit (c ∷ s) h,
        lt→ltb 0 (length (c ∷ s)) l,
        gt→leb u64_mod (decimal_value 0 (c ∷ s)) (omega arith),
      )
      refl

-- A 32-bit number that is printed with %u is read back by parse_u32.
pub parse_u32-print : (v : ℕ) → v < u32_mod → parse_u32 (print_u32 v) ≡ some v
unfolding parse_u32 print_u32
parse_u32-print v h =
    let value : decimal_value 0 (decimal_digits 10 v) ≡ v =
      decimal_value-digits 10 v (omega arith) in
    rw
      (
        strtoul_digits (decimal_digits 10 v) (decimal_digits-all 10 v) (digits_nonempty 9 v)
            (rw value h),
        value,
        le→leb v u32_max (omega arith),
      )
      refl

pub span-append :
    (f : ℕ → Bool) (s t : Text) → all f s ≡ true → span f t ≡ ([], t) → span f (s ++ t) ≡ (s, t)
span-append f [] t h e = e
span-append f (c ∷ s) t h e = elim (Bool-cases (f c)) [
  | inl f_c ↦ rw (f_c, span-append f s t (rw f_c at h) e) refl
  | inr f_c ↦ ground arith
]

pub all_mono :
    (f g : ℕ → Bool)
    → ((c : ℕ) → f c ≡ true → g c ≡ true)
    → (s : Text) → all f s ≡ true
    → all g s ≡ true
all_mono f g h [] e = refl
all_mono f g h (c ∷ s) e = elim (Bool-cases (f c)) [
  | inl f_c ↦ rw (h c f_c) (all_mono f g h s (rw f_c at e))
  | inr f_c ↦ ground arith
]
