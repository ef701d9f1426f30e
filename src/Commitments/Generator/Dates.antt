-- ===== src/Commitments/Generator/Dates.antt =====
-- The loop of `occurrence_dates`: it ends, raises nothing within the calendar, and lists the due
-- dates of the window.
use oublie_pas_backend.Calendar.{Date, max_date}
use oublie_pas_backend.Base.{
  ℕ, Option, ◌≤◌, List, ◌∷◌, ◌≡◌, leb, ◌<◌, ◌+◌, ◌⊎◌, true, arith, false, ◌*◌, IsAscending, max,
  suc, All, length, refl, All-map, inr, Bool-cases, inl, ltb, ap, ltb→ge, ltb→lt, leb→le, leb→gt,
  ◌-◌,
}
use oublie_pas_backend.Models.Columns.{Frequency}
use oublie_pas_backend.Models.Commitments.{null_or}
use oublie_pas_backend.Commitments.Generator.Periods.{
  IsRecurring, due_at, due_step, nth_due_date-due_at,
}
use oublie_pas_backend.Errors.{Result, ok}
use native.Mathlib.Decide.{le_ind, dec_lt}
use mathlib.Core.List.{[]}
use native.Mathlib.Nat.{le_refl}
use oublie_pas_backend.Commitments.Generator.{cons, longest_period_days, dates_from}
use native.Mathlib.Numerals.{add-one}
use Prim.Native.Nat.{zero}

-- The dates that the program can hold.
abbrev pub IsDate : Date → Type 0
IsDate t = (1 ≤ t) × (t ≤ max_date)

abbrev pub Member : ℕ → List ℕ → Type 0
Member d [] = ⊥
Member d (x ∷ xs) = (d ≡ x) ⊎ Member d xs

-- A date of the window that the commitment's end allows.
pub record InWindow (ends_on : Option Date) (floor horizon d : Date) : Type 0 where
  pub from : floor ≤ d
  pub until : d ≤ horizon
  pub within : null_or (λ e. leb d e) ends_on ≡ true

module _ (s : Date) (f : Frequency) (recurs : IsRecurring f) (h : 1 ≤ s) where
  pub due_at_mono : (i k : ℕ) → i ≤ k → due_at s f i ≤ due_at s f k
  due_at_mono i k =
      le_ind (λ m. due_at s f i ≤ due_at s f m) (le_refl _)
        (λ m le ih. omega (arith, due_step s f m recurs h)) k

  pub due_next :
      (k : ℕ)
      → (due_at s f k + 7 ≤ due_at s f (k + 1))
        × (due_at s f (k + 1) ≤ due_at s f k + longest_period_days f)
  due_next k = rw (add-one k) (due_step s f k recurs h)

  pub due_at-lt : (i k : ℕ) → i < k → due_at s f i < due_at s f k
  due_at-lt i k lt = omega (arith, due_step s f i recurs h, due_at_mono (suc i) k lt)

  pub longest_le : (f : Frequency) → longest_period_days f ≤ 366
  longest_le f = ground arith

  -- What a call of the loop at `index` returns, when `taken` dates are already there.
  pub record Listed (ends_on : Option Date) (floor horizon taken index : ℕ) (r : Result (List Date))
      : Type 0 where
    pub dates : List Date
    pub returns : r ≡ ok dates
    pub ascending : IsAscending dates
    pub sound :
        All
          (λ d. InWindow ends_on floor horizon d × ((k : ℕ) × (index ≤ k) × (due_at s f k ≡ d)))
          dates
    pub bounded : length dates + taken ≤ 60
    pub complete :
        horizon + 7 * taken < max floor (due_at s f index) + 420
        → (k : ℕ) → index ≤ k
        → InWindow ends_on floor horizon (due_at s f k)
        → Member (due_at s f k) dates

  module _ (ends_on : Option Date) (floor horizon : Date) where
    past_end :
        (d e : ℕ)
        → d ≤ e
        → null_or (λ e. leb d e) ends_on ≡ false
        → null_or (λ x. leb e x) ends_on ≡ true
        → ⊥
    past_end d e le past w = ground arith

    stops :
        (taken index : ℕ)
        → taken ≤ 60
        → ((k : ℕ)
            → horizon + 7 * taken < max floor (due_at s f index) + 420
            → index ≤ k
            → InWindow ends_on floor horizon (due_at s f k)
            → ⊥)
        → Listed ends_on floor horizon taken index (ok [])
    stops taken index ht no_more = record {
      dates = [];
      returns = refl;
      ascending = tt;
      sound = tt;
      bounded = omega arith;
      complete = λ c k le w. absurd (no_more k c le w);
    }

    later :
        (index : ℕ) (ds : List Date)
        → All
            (λ d.
              InWindow ends_on floor horizon d × ((k : ℕ) × (index + 1 ≤ k) × (due_at s f k ≡ d)))
            ds
        → All
            (λ d. InWindow ends_on floor horizon d × ((k : ℕ) × (index ≤ k) × (due_at s f k ≡ d)))
            ds
    later index = All-map _ _ (λ d p. (p.0, (p.1.0, omega (arith, p.1.1), p.1.2)))

    -- A round past the floor adds its date to those of the later rounds.
    adds :
        (taken index : ℕ) (r : Result (List Date))
        → floor ≤ due_at s f index
        → InWindow ends_on floor horizon (due_at s f index)
        → Listed ends_on floor horizon (taken + 1) (index + 1) r
        → Listed ends_on floor horizon taken index (cons (due_at s f index) r)
    adds taken index r reached w rest = record {
      dates = due_at s f index ∷ rest.dates;
      returns = rw rest.returns;
      ascending = (
        All-map _ _ (λ d p. rw (← p.1.2) (due_at-lt index p.1.0 (omega (arith, p.1.1)))) rest.dates
            rest.sound,
        rest.ascending,
      );
      sound = ((w, (index, le_refl index, refl)), later index rest.dates rest.sound);
      bounded = omega (arith, rest.bounded);
      complete = λ c k le v. here_or_later c k le v;
    }
      where
        here_or_later :
            horizon + 7 * taken < max floor (due_at s f index) + 420
            → (k : ℕ) → index ≤ k
            → InWindow ends_on floor horizon (due_at s f k)
            → (due_at s f k ≡ due_at s f index) ⊎ Member (due_at s f k) rest.dates
        here_or_later c k le v = elim (dec_lt index k) [
          | yes lt ↦ inr (rest.complete (omega (arith, due_next index)) k (omega arith) v)
          | no ge ↦ inl (ap (due_at s f) (omega arith))
        ]

    -- A round before the floor adds nothing.
    skips :
        (taken index : ℕ) (r : Result (List Date))
        → due_at s f index < floor
        → Listed ends_on floor horizon taken (index + 1) r
        → Listed ends_on floor horizon taken index r
    skips taken index r before rest = record {
      dates = rest.dates;
      returns = rest.returns;
      ascending = rest.ascending;
      sound = later index rest.dates rest.sound;
      bounded = rest.bounded;
      complete = λ c k le w. rest.complete (omega (arith, due_next index)) k (passed k w) w;
    }
      where
        passed : (k : ℕ) → InWindow ends_on floor horizon (due_at s f k) → index + 1 ≤ k
        passed k w = elim (dec_lt index k) [
          | yes lt ↦ omega arith
          | no ge ↦ absurd (omega (arith, w.from, due_at_mono k index (omega arith)))
        ]

    gap_pos : (index b : ℕ) → floor ≤ due_at s f (index + b) → due_at s f index < floor → 0 < b
    gap_pos index b reach before = elim (dec_lt 0 b) [
      | yes p ↦ p
      | no p ↦ absurd (omega (arith, due_at_mono (index + b) index (omega arith)))
    ]

    -- With enough fuel, the loop returns the due dates of the window from `index` on.
    pub dates_from-Listed :
        (fuel taken index b : ℕ)
        → horizon + 366 ≤ max_date
        → floor ≤ horizon
        → taken ≤ 60
        → due_at s f index ≤ max_date
        → floor ≤ due_at s f (index + b)
        → 60 + b < fuel + taken
        → Listed ends_on floor horizon taken index
            (dates_from s f ends_on floor horizon fuel taken index)
    unfolding dates_from
    dates_from-Listed zero taken index b hb fh ht hi reach enough = absurd (omega arith)
    dates_from-Listed (suc fuel) taken index b hb fh ht hi reach enough =
        elim (Bool-cases (ltb taken 60)) [
          | inr full ↦ rw full (
              stops taken index ht (λ k c le w.
                omega (arith, ltb→ge taken 60 full, w.until, w.from, due_at_mono index k le)))
          | inl free ↦
              rw (free, nth_due_date-due_at s f index recurs h hi)
                (elim (Bool-cases (ltb horizon (due_at s f index))) [
                  | inl late ↦ rw late (
                      stops taken index ht (λ k c le w. omega (
                        arith,
                        ltb→lt horizon (due_at s f index) late,
                        w.until,
                        due_at_mono index k le,
                      )))
                  | inr soon ↦ elim (Bool-cases (null_or (λ e. leb (due_at s f index) e) ends_on)) [
                    | inr past ↦
                        rw (soon, past)
                          (stops taken index ht (λ k c le w.
                            past_end (due_at s f index) (due_at s f k) (due_at_mono index k le) past
                              w.within))
                    | inl within ↦
                        rw (soon, within)
                          (elim (Bool-cases (leb floor (due_at s f index))) [
                            | inl reached ↦ rw reached (
                                adds taken index _ (leb→le floor (due_at s f index) reached)
                                  (record {
                                    from = leb→le floor (due_at s f index) reached;
                                    until = ltb→ge horizon (due_at s f index) soon;
                                    within = within;
                                  })
                                  (dates_from-Listed fuel (taken + 1) (index + 1) 0 hb fh
                                    (omega (arith, ltb→lt taken 60 free))
                                    (omega (
                                      arith,
                                      due_next index,
                                      ltb→ge horizon (due_at s f index) soon,
                                      longest_le f,
                                    ))
                                    (omega (
                                      arith,
                                      leb→le floor (due_at s f index) reached,
                                      due_at_mono index (index + 1 + 0) (omega arith),
                                    ))
                                    (omega arith)))
                            | inr before ↦ rw before (
                                skips taken index _ (leb→gt floor (due_at s f index) before) (
                                  dates_from-Listed fuel taken (index + 1) (b - 1) hb fh ht
                                    (omega (
                                      arith,
                                      due_next index,
                                      ltb→ge horizon (due_at s f index) soon,
                                      longest_le f,
                                    ))
                                    (omega (
                                      arith,
                                      reach,
                                      due_at_mono (index + b) (index + 1 + (b - 1)) (omega arith),
                                    ))
                                    (omega (
                                      arith,
                                      gap_pos index b reach
                                          (leb→gt floor (due_at s f index) before),
                                    ))))
                          ])
                  ]
                ])
        ]
