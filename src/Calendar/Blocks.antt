-- ===== src/Calendar/Blocks.antt =====
-- Months counted through the years: month number `i` is month `i % 12 + 1` of year `i / 12`. It
-- holds `span i` days, and `start i` days come before it.
use native.Mathlib.Decide.{le_ind, dec_lt}
use native.Mathlib.Nat.{le_refl}
use oublie_pas_backend.Base.{
  ℕ, zero, suc, ◌+◌, ◌-◌, ◌*◌, ◌/◌, ◌%◌, ◌≤◌, ◌<◌, min, ◌≡◌, ap, refl, arith,
}
use oublie_pas_backend.Calendar.{
  is_leap, month_length, days_before_year, days_before_month, to_ordinal,
}

unfoldable pub span : ℕ → ℕ
span i = month_length (i / 12) (i % 12 + 1)

unfoldable pub start : ℕ → ℕ
start i = days_before_year (i / 12) + days_before_month (i / 12) (i % 12 + 1)

pub month_length_bounds : (y m : ℕ) → (28 ≤ month_length y m) × (month_length y m ≤ 31)
unfolding month_length
month_length_bounds y m = ground arith

pub days_before_year-suc :
    (y : ℕ) → 1 ≤ y → days_before_year (suc y) ≡ days_before_year y + days_before_month y 13
unfolding days_before_year days_before_month month_length is_leap
days_before_year-suc y h = ground arith

pub days_before_month-suc :
    (y m : ℕ) → 1 ≤ m → days_before_month y (suc m) ≡ days_before_month y m + month_length y m
unfolding days_before_month
days_before_month-suc y zero h = absurd (omega arith)
days_before_month-suc y (suc m) h = refl

-- Number `i + 1` is in the same year, or is January of the next one.
data Successor (i : ℕ) : Type 0 where
  same_year : suc i / 12 ≡ i / 12 → suc i % 12 + 1 ≡ suc (i % 12 + 1) → Successor i
  new_year : suc i / 12 ≡ suc (i / 12) → suc i % 12 + 1 ≡ 1 → i % 12 + 1 ≡ 12 → Successor i

Successor-cases : (i : ℕ) → Successor i
Successor-cases i = elim (dec_lt (i % 12) 11) [
  | yes p ↦ same_year (omega arith) (omega arith)
  | no p ↦ new_year (omega arith) (omega arith) (omega arith)
]

pub days_before_january : (y : ℕ) → days_before_month y 1 ≡ 0
unfolding days_before_month
days_before_january y = refl

start-suc_cases : (i : ℕ) → 12 ≤ i → Successor i → start (suc i) ≡ start i + span i
unfolding start span
start-suc_cases i h (same_year e f) =
    rw (e, f) (omega (arith, days_before_month-suc (i / 12) (i % 12 + 1) (omega arith)))
start-suc_cases i h (new_year e f g) =
    rw (e, f, g)
      (omega (
        arith,
        days_before_year-suc (i / 12) (omega arith),
        days_before_month-suc (i / 12) 12 (omega arith),
        days_before_january (suc (i / 12)),
      ))

-- Within a year the next month follows; December is followed by January.
pub start-suc : (i : ℕ) → 12 ≤ i → start (suc i) ≡ start i + span i
start-suc i h = start-suc_cases i h (Successor-cases i)

pub start_mono : (i j : ℕ) → 12 ≤ i → i ≤ j → start i ≤ start j
start_mono i j h =
    le_ind (λ m. start i ≤ start m) (le_refl _)
      (λ m le ih. omega (arith, start-suc m (omega arith))) j

-- A day of an earlier month comes before each day of a later one.
pub start-lt : (i j a b : ℕ) → 12 ≤ i → i < j → a ≤ span i → 1 ≤ b → start i + a < start j + b
start-lt i j a b h lt ha hb = omega (arith, start-suc i h, start_mono (suc i) j (omega arith) lt)

-- A month and a day within it are determined by the ordinal.
pub start_inj :
    (i j a b : ℕ)
    → 12 ≤ i
    → 12 ≤ j
    → (1 ≤ a) × (a ≤ span i)
    → (1 ≤ b) × (b ≤ span j)
    → start i + a ≡ start j + b
    → (i ≡ j) × (a ≡ b)
start_inj i j a b hi hj ha hb e = elim (dec_lt i j) [
  | yes p ↦ absurd (omega (arith, start-lt i j a b hi p ha.1 hb.0))
  | no p ↦ elim (dec_lt j i) [
    | yes q ↦ absurd (omega (arith, start-lt j i b a hj q hb.1 ha.0))
    | no q ↦ same_month (omega arith)
  ]
]
  where
    same_month : i ≡ j → (i ≡ j) × (a ≡ b)
    same_month s = (s, omega (arith, ap start s))

-- Any three months in a row hold 92 days at most.
pub three_months : (i : ℕ) → span i + span (suc i) + span (suc (suc i)) ≤ 92
unfolding span month_length
three_months i = ground arith

-- A date that keeps its day of the month, where the month has it, moves on by 366 days at most in
-- a year.
year_gap :
    (y m d : ℕ)
    → 1 ≤ m
    → m ≤ 12
    → days_before_month y 13 + days_before_month (suc y) m + min d (month_length (suc y) m)
      ≤ days_before_month y m + min d (month_length y m) + 366
unfolding days_before_month month_length
year_gap y zero d h k = absurd (omega arith)
year_gap y (suc zero) d h k = ground arith
year_gap y (suc (suc zero)) d h k = ground arith
year_gap y (suc (suc (suc zero))) d h k = ground arith
year_gap y (suc (suc (suc (suc zero)))) d h k = ground arith
year_gap y (suc (suc (suc (suc (suc zero))))) d h k = ground arith
year_gap y (suc (suc (suc (suc (suc (suc zero)))))) d h k = ground arith
year_gap y (suc (suc (suc (suc (suc (suc (suc zero))))))) d h k = ground arith
year_gap y (suc (suc (suc (suc (suc (suc (suc (suc zero)))))))) d h k = ground arith
year_gap y (suc (suc (suc (suc (suc (suc (suc (suc (suc zero))))))))) d h k = ground arith
year_gap y (suc (suc (suc (suc (suc (suc (suc (suc (suc (suc zero)))))))))) d h k = ground arith
year_gap y (suc (suc (suc (suc (suc (suc (suc (suc (suc (suc (suc zero))))))))))) d h k =
    ground arith
year_gap y (suc (suc (suc (suc (suc (suc (suc (suc (suc (suc (suc (suc zero)))))))))))) d h k =
    ground arith
year_gap y (suc (suc (suc (suc (suc (suc (suc (suc (suc (suc (suc (suc (suc m))))))))))))) d h k =
    absurd (omega arith)

pub start-year_gap :
    (i d : ℕ) → 12 ≤ i → start (i + 12) + min d (span (i + 12)) ≤ start i + min d (span i) + 366
unfolding start span
start-year_gap i d h =
    rw (next_year, same_month)
      (omega (
        arith,
        days_before_year-suc (i / 12) (omega arith),
        year_gap (i / 12) (i % 12 + 1) d (omega arith) (omega arith),
      ))
  where
    next_year : (i + 12) / 12 ≡ suc (i / 12)
    next_year = omega arith

    same_month : (i + 12) % 12 ≡ i % 12
    same_month = omega arith

pub to_ordinal-start :
    (y m d : ℕ) → 1 ≤ m → m ≤ 12 → to_ordinal y m d ≡ start (y * 12 + (m - 1)) + d
unfolding to_ordinal start
to_ordinal-start y m d lo hi =
    let e : (y * 12 + (m - 1)) / 12 ≡ y = omega arith in
    let f : (y * 12 + (m - 1)) % 12 + 1 ≡ m = omega arith in rw (e, f)

pub span_lem : (y m : ℕ) → 1 ≤ m → m ≤ 12 → span (y * 12 + (m - 1)) ≡ month_length y m
unfolding span
span_lem y m lo hi =
    let e : (y * 12 + (m - 1)) / 12 ≡ y = omega arith in
    let f : (y * 12 + (m - 1)) % 12 + 1 ≡ m = omega arith in rw (e, f)

pub span_bounds : (i : ℕ) → (28 ≤ span i) × (span i ≤ 31)
unfolding span
span_bounds i = month_length_bounds (i / 12) (i % 12 + 1)
