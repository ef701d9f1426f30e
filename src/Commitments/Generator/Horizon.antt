-- ===== src/Commitments/Generator/Horizon.antt =====
-- `horizon_days`: with the horizon that the generator passes, a commitment that recurs always has a
-- due date ahead, and a date for a single payment is kept also when it is past.
use oublie_pas_backend.Calendar.{Date, max_date}
use oublie_pas_backend.Base.{
  ℕ, List, IsAscending, ◌∷◌, ◌≤◌, ◌≡◌, ◌+◌, arith, inl, max, none, inr, refl, suc, ◌∙◌, ap, All,
}
use oublie_pas_backend.Commitments.Generator.{horizon_days, occurrence_dates, longest_period_days}
use oublie_pas_backend.Models.Columns.{Frequency}
use oublie_pas_backend.Commitments.Generator.Periods.{
  IsRecurring, due_at, due_at-zero, nth_due_date-due_at, due_step,
}
use oublie_pas_backend.Commitments.Generator.Dates.{Member, IsDate}
use mathlib.Core.List.{[]}
use oublie_pas_backend.Errors.{ok}
use oublie_pas_backend.Commitments.Generator.FirstIndex.{first_index-StartsBefore}
use oublie_pas_backend.Commitments.Generator.Window.{occurrence_dates-Lists}
use native.Mathlib.Decide.{dec_lt}
use Prim.Native.Nat.{zero}

module _ (s : Date) (f : Frequency) (r : IsRecurring f) (h : IsDate s) (floor : Date) where
  -- The first due date from `floor` on comes within a period, or is the start.
  crossing :
      (m : ℕ)
      → floor ≤ due_at s f m
      → (j : ℕ) × (floor ≤ due_at s f j) × (due_at s f j ≤ max s (floor + longest_period_days f))
  crossing zero le = (0, le, omega (arith, due_at-zero s f r h.0))
  crossing (suc m) le = elim (dec_lt (due_at s f m) floor) [
    | yes lt ↦ (suc m, le, omega (arith, due_step s f m r h.0))
    | no ge ↦ crossing m (omega arith)
  ]

head-le : (x : ℕ) (xs : List ℕ) (d : ℕ) → IsAscending (x ∷ xs) → Member d (x ∷ xs) → x ≤ d
head-le x xs d a (inl e) = omega arith
head-le x (y ∷ ys) d a (inr m) = omega (arith, head-le y ys d a.1 m)
head-le x [] d a (inr m) = absurd m

first_of {κ} :
    (P : ℕ → Type κ) (ds : List ℕ) (d : ℕ)
    → IsAscending ds
    → All P ds
    → Member d ds
    → (x : ℕ) × (xs : List ℕ) × (ds ≡ x ∷ xs) × (x ≤ d) × P x
first_of P (x ∷ xs) d a p m = (x, xs, refl, head-le x xs d a m, p.0)
first_of P [] d a p m = absurd m

horizon_days-longest :
    (f : Frequency) → (longest_period_days f + 30 ≤ horizon_days f) × (horizon_days f ≤ 396)
unfolding horizon_days
horizon_days-longest f = ground arith

-- A recurring commitment without an end, which starts by the horizon of its frequency, has a due
-- date in that horizon. The first one comes within its longest period, or is its start.
pub occurrence_dates-horizon_days :
    (s : Date) (f : Frequency) (today : Date)
    → IsRecurring f
    → IsDate s
    → 1 ≤ today
    → s ≤ today + horizon_days f
    → today + 762 ≤ max_date
    → (d : Date) × (rest : List Date) × (occurrence_dates s f none today (today + horizon_days f)
        ≡ ok (d ∷ rest))
      × (today ≤ d)
      × (d ≤ max s (today + longest_period_days f))
occurrence_dates-horizon_days s f today r h ht hs hb =
    let (n, e, b) = first_index-StartsBefore s today h.0 ht f r in
    let (j, lo, hi) = crossing s f r h today (n + 2) b.reaches in
    let l =
      occurrence_dates-Lists s f none today (today + horizon_days f) r h ht (omega arith)
        (omega (arith, horizon_days-longest f)) in
    let m =
      l.complete (omega (arith, horizon_days-longest f)) j (due_at s f j)
        (nth_due_date-due_at s f j r h.0 (omega (arith, h.1, horizon_days-longest f)))
        (record { from = lo; until = omega (arith, horizon_days-longest f); within = refl }) in
    let (d, rest, shape, le, p) = first_of _ l.dates (due_at s f j) l.ascending l.sound m in
    (d, rest, l.returns ∙ ap ok shape, p.0.from, omega arith)
