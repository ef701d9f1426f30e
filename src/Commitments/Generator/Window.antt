-- ===== src/Commitments/Generator/Window.antt =====
-- `occurrence_dates`: which dates it returns.
use oublie_pas_backend.Calendar.{Date, max_date}
use oublie_pas_backend.Commitments.Generator.{
  nth_due_date, occurrence_dates, is_oneoff, recurring_dates,
}
use oublie_pas_backend.Models.Columns.{Frequency, weekly, monthly, quarterly, yearly, oneoff}
use oublie_pas_backend.Commitments.Generator.Periods.{
  due_at, IsRecurring, due_at-zero, due_step, nth_due_date-due_at, due_at-nth_due_date,
}
use oublie_pas_backend.Base.{
  Option, List, ℕ, ◌≤◌, ◌≡◌, ◌+◌, IsAscending, arith, length, All, suc, All-map, ◌<◌, false, ltb,
  ◌∙◌, ap, refl, sym,
}
use oublie_pas_backend.Errors.{Result, ok}
use oublie_pas_backend.Commitments.Generator.Dates.{
  IsDate, dates_from-Listed, InWindow, longest_le, Member,
}
use oublie_pas_backend.Commitments.Generator.FirstIndex.{StartsBefore, first_index-StartsBefore}
use native.Mathlib.Decide.{dec_lt}
use Prim.Native.Nat.{zero}
use mathlib.Core.Path.{subst}

-- What `occurrence_dates` returns for a recurring commitment.
pub record Lists (s : Date) (f : Frequency) (ends_on : Option Date) (floor horizon : Date)
    (r : Result (List Date)) : Type 0 where
  pub dates : List Date
  pub returns : r ≡ ok dates
  pub ascending : IsAscending dates
  pub bounded : length dates ≤ 60
  pub sound :
      All (λ d. InWindow ends_on floor horizon d × ((k : ℕ) × (nth_due_date s f k ≡ ok d))) dates
  pub complete :
      horizon < floor + 420
      → (k d : ℕ) → nth_due_date s f k ≡ ok d
      → InWindow ends_on floor horizon d
      → Member d dates

is_oneoff-IsRecurring : (f : Frequency) → IsRecurring f → is_oneoff f ≡ false
unfolding is_oneoff
is_oneoff-IsRecurring weekly r = refl
is_oneoff-IsRecurring monthly r = refl
is_oneoff-IsRecurring quarterly r = refl
is_oneoff-IsRecurring yearly r = refl
is_oneoff-IsRecurring oneoff r = absurd r

module _ (s : Date) (f : Frequency) (r : IsRecurring f) (h : IsDate s) (ends_on : Option Date)
    (floor horizon : Date) (hf : 1 ≤ floor) (fh : floor ≤ horizon)
    (hb : horizon + 366 ≤ max_date) where
  in_calendar : (n : ℕ) → StartsBefore s f floor n → due_at s f n ≤ max_date
  in_calendar zero b = omega (arith, h.1, due_at-zero s f r h.0)
  in_calendar (suc n) b =
      omega (arith, b.skips_none n (omega arith), due_step s f n r h.0, longest_le s f r h.0 f)

  not_before : (n : ℕ) → StartsBefore s f floor n → (k : ℕ) → floor ≤ due_at s f k → n ≤ k
  not_before n b k le = elim (dec_lt k n) [
    | no p ↦ omega arith
    | yes p ↦ absurd (omega (arith, b.skips_none k p))
  ]

  recurring_dates-Lists :
      Lists s f ends_on floor horizon (recurring_dates s f ends_on floor horizon)
  unfolding recurring_dates
  recurring_dates-Lists =
      let (n, e, b) = first_index-StartsBefore s floor h.0 hf f r in
      let l =
        dates_from-Listed s f r h.0 ends_on floor horizon 64 0 n 2 hb fh (omega arith)
          (in_calendar n b) b.reaches (omega arith) in
      record {
        dates = l.dates;
        returns = rw e l.returns;
        ascending = l.ascending;
        bounded = omega (arith, l.bounded);
        sound =
            All-map _ _
              (λ d p. (
                p.0,
                (
                  p.1.0,
                  nth_due_date-due_at s f p.1.0 r h.0 (omega (arith, p.0.until, p.1.2))
                      ∙ ap ok p.1.2,
                ),
              ))
              l.dates l.sound;
        complete = λ c k d e2 w.
            let due = due_at-nth_due_date s f k d r h.0 e2 in
            subst (λ x. Member x l.dates) due
              (l.complete (omega arith) k (not_before n b k (omega (arith, w.from, due)))
                (subst (InWindow ends_on floor horizon) (sym due) w));
      }

-- For a recurring commitment `occurrence_dates` ends without an error, with a horizon that lies a
-- year before the end of the calendar. It returns at most 60 dates, in ascending order, each a due
-- date from the floor to the horizon that is not past the commitment's end; over a window of less
-- than 420 days it returns every such due date.
pub occurrence_dates-Lists :
    (s : Date) (f : Frequency) (ends_on : Option Date) (floor horizon : Date)
    → IsRecurring f
    → IsDate s
    → 1 ≤ floor
    → floor ≤ horizon
    → horizon + 366 ≤ max_date
    → Lists s f ends_on floor horizon (occurrence_dates s f ends_on floor horizon)
unfolding occurrence_dates is_oneoff
occurrence_dates-Lists s f ends_on floor horizon r h hf fh hb =
    rw (in_order, is_oneoff-IsRecurring f r)
      (recurring_dates-Lists s f r h ends_on floor horizon hf fh hb)
  where
    in_order : ltb horizon floor ≡ false
    in_order = ground arith
