-- ===== src/Catalog/Reads.antt =====
-- What catalog_read_value finds in a value that catalog_write_value wrote.
use native.Mathlib.Numerals.{unary_clauses}
use sqlyt.Base.{
  ℕ, zero, suc, ◌+◌, ◌-◌, ◌≤◌, ◌<◌, ◌≡◌, ◌≢◌, ◌⊎◌, refl, ap, subst, ◌∙◌, arith, [], ◌∷◌, length,
  take, take_all, ==_ne,
}
use sqlyt.Page.{Page, u32_mod, get_u32, put_u32, memset, of_bytes}
use sqlyt.Page.Words.{
  get_u32_ext, memcpy_inside, memcpy_outside, memset_outside, get_u32-put_u32_self,
}
use sqlyt.Table.{Text}
use sqlyt.Catalog.{strncpy, read_text, catalog_write_value, catalog_read_value}

-- A text in C: no byte of it is zero.
pub data IsText : Text → Type 0 where
  empty : IsText []
  byte : {c : ℕ} {s : Text} → c ≢ 0 → IsText s → IsText (c ∷ s)

-- A buffer that holds a text from an offset on, and a zero behind it, is read as that text.
pub read_text-of_bytes :
    (s : Text)
    → IsText s
    → (p : Page) (off n : ℕ) → length s ≤ n
    → ((k : ℕ) → k ≤ length s → p (off + k) ≡ of_bytes s k)
    → read_text p off n ≡ s
unfolding read_text of_bytes
read_text-of_bytes [] t p off zero h e = refl
read_text-of_bytes (c ∷ s) t p off zero h e = absurd (omega arith)
read_text-of_bytes [] t p off (suc n) h e =
    let z : p off ≡ 0 = simp unary_clauses at (e 0 (omega arith)) in rw z refl
read_text-of_bytes (c ∷ s) (byte c_ne t) p off (suc n) h e =
    let z : p off ≡ c = simp unary_clauses at (e 0 (omega arith)) in
    rw (z, ==_ne c 0 c_ne)
      (ap (λ r. c ∷ r)
        (read_text-of_bytes s t p (off + 1) n (omega arith)
          (λ k hk. later off k (e (suc k) (omega arith)))))
  where
    later : (off k : ℕ) {v : ℕ} → p (off + suc k) ≡ v → p (off + 1 + k) ≡ v
    later off k {v = v} h = subst (λ i. p i ≡ v) (omega arith) h

-- The bytes that strncpy of a text that fits leaves there.
strncpy-of_bytes :
    (p : Page) (off : ℕ) (s : Text) (n k : ℕ)
    → length s ≤ n
    → k < n
    → strncpy p off s n (off + k) ≡ of_bytes s k
unfolding strncpy
strncpy-of_bytes p off s n k h hk =
    rw (take_all n s h, memcpy_inside p off (of_bytes s) 0 n k hk) (ap (of_bytes s) (omega arith))

strncpy_outside :
    (p : Page) (off : ℕ) (s : Text) (n k : ℕ)
    → (k < off) ⊎ (off + n ≤ k)
    → strncpy p off s n k ≡ p k
unfolding strncpy
strncpy_outside p off s n k h = memcpy_outside p off (of_bytes (take n s)) 0 n k h

module _ (dest : Page) (key : ℕ) (name schema : Text) where
  -- The value before the last two steps of catalog_write_value, and behind all of them.
  named : Page
  named = strncpy (memset (put_u32 dest 0 key) 4 0 32) 4 name 31

  written : Page
  unfolding named
  written = strncpy (memset named 36 0 512) 36 schema 511

  catalog_write_value-written : catalog_write_value key name schema dest ≡ written
  unfolding catalog_write_value named written
  catalog_write_value-written = refl

  written_before : (k : ℕ) → k < 36 → written k ≡ named k
  unfolding written
  written_before k h =
      strncpy_outside (memset named 36 0 512) 36 schema 511 k (omega arith)
      ∙ memset_outside named 36 0 512 k (omega arith)

  written_key : key < u32_mod → get_u32 written 0 ≡ key
  unfolding named
  written_key h =
      get_u32_ext written (put_u32 dest 0 key) 0 0 (λ i hi. byte_of (0 + i) (omega arith))
        (byte_of 0 (omega arith))
      ∙ get_u32-put_u32_self dest 0 key h
    where
      byte_of : (k : ℕ) → k < 4 → written k ≡ put_u32 dest 0 key k
      byte_of k hk =
          written_before k (omega arith)
          ∙ strncpy_outside (memset (put_u32 dest 0 key) 4 0 32) 4 name 31 k (omega arith)
          ∙ memset_outside (put_u32 dest 0 key) 4 0 32 k (omega arith)

  written_name : length name ≤ 28 → (k : ℕ) → k ≤ length name → written (4 + k) ≡ of_bytes name k
  unfolding named
  written_name h k hk =
      written_before (4 + k) (omega arith)
      ∙ strncpy-of_bytes (memset (put_u32 dest 0 key) 4 0 32) 4 name 31 k (omega arith)
          (omega arith)

  written_schema :
      length schema < 511 → (k : ℕ) → k ≤ length schema → written (36 + k) ≡ of_bytes schema k
  unfolding written
  written_schema h k hk =
      strncpy-of_bytes (memset named 36 0 512) 36 schema 511 k (omega arith) (omega arith)

-- A value that catalog_write_value wrote is read by catalog_read_value as the same key, name and
-- schema text: for a key below 2 ^ 32, a name of 28 bytes at most, and a schema text of 510 bytes at
-- most that is shorter than the buffer it is read into, neither of them with a zero byte.
pub catalog_read_value-write :
    (key : ℕ) (name schema : Text) (dest : Page) (cap : ℕ)
    → key < u32_mod
    → IsText name
    → length name ≤ 28
    → IsText schema
    → length schema < 511
    → length schema < cap
    → catalog_read_value (catalog_write_value key name schema dest) 0 cap ≡ (key, name, schema)
unfolding catalog_read_value
catalog_read_value-write key name schema dest cap key_lt name_text name_le schema_text schema_lt
      cap_lt =
    rw
      (
        catalog_write_value-written dest key name schema,
        written_key dest key name schema key_lt,
        read_text-of_bytes name name_text (written dest key name schema) 4 28 name_le
            (written_name dest key name schema name_le),
        read_text-of_bytes schema schema_text (written dest key name schema) 36 (cap - 1)
            (omega arith) (written_schema dest key name schema schema_lt),
      )
      refl
