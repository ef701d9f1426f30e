-- ===== src/Commitments/ActionWindow/Choice.antt =====
-- Which of a commitment's windows `action_window` returns.
use oublie_pas_backend.Models.Commitments.{Commitment, null_or}
use oublie_pas_backend.Commitments.ActionWindow.{
  trial_window, cancellation_window, earliest, ActionWindow, keep_ahead, cancellation, trial,
  action_window, key_lt, reason_rank,
}
use oublie_pas_backend.Calendar.{Date, sub_days}
use oublie_pas_backend.Base.{
  Option, ◌≡◌, ◌≤◌, ◌<◌, some, arith, ◌⊎◌, inl, true, false, Bool-cases, sym, leb, ◌∙◌, leb→le, inr,
  if◌then◌else◌, refl, ltb, Option-cases, ◌-◌,
}
use oublie_pas_backend.Errors.{ok}
use mathlib.Core.Option.{none}

-- The windows that an occurrence of the commitment has.
pub data Candidate (c : Commitment) (due_date : Date) (v : ActionWindow) : Type 0 where
  of_trial : trial_window c due_date ≡ some v → Candidate c due_date v
  of_notice : cancellation_window c due_date ≡ ok (some v) → Candidate c due_date v

abbrev pub IsNoticeBefore : Commitment → Date → Type 0
IsNoticeBefore c due_date = null_or (λ n. ltb n due_date) c.cancellation_notice_days ≡ true

-- The choice among the windows whose deadline has not passed.
pub record IsEarliest (c : Commitment) (due_date reference : Date) (w : ActionWindow) : Type 0 where
  pub candidate : Candidate c due_date w
  pub ahead : reference ≤ w.deadline
  pub first :
      (v : ActionWindow) → Candidate c due_date v → reference ≤ v.deadline → w.deadline ≤ v.deadline
  pub tie :
      (v : ActionWindow)
      → Candidate c due_date v
      → v.deadline ≡ w.deadline
      → v.reason ≡ cancellation
      → w.reason ≡ cancellation

abbrev pub Chosen : Commitment → Date → Date → Option ActionWindow → Type 0
Chosen c due_date reference none =
    (v : ActionWindow) → Candidate c due_date v → v.deadline < reference
Chosen c due_date reference (some w) = IsEarliest c due_date reference w

trial_reason :
    (c : Commitment) (d : Date) (v : ActionWindow) → trial_window c d ≡ some v → v.reason ≡ trial
unfolding trial_window
trial_reason c d v e = ground arith

notice_reason :
    (c : Commitment) (d : Date) (v : ActionWindow)
    → cancellation_window c d ≡ ok (some v)
    → v.reason ≡ cancellation
unfolding cancellation_window sub_days
notice_reason c d v e = ground arith

ok_injective {ℓ} : {A : Type ℓ} {a b : A} → ok a ≡ ok b → a ≡ b
ok_injective e = cc

module _ (c : Commitment) (d reference : Date) (t n : Option ActionWindow)
    (et : trial_window c d ≡ t) (en : cancellation_window c d ≡ ok n) where
  Candidate-cases : (v : ActionWindow) → Candidate c d v → (t ≡ some v) ⊎ (n ≡ some v)
  Candidate-cases v (of_trial q) = inl (sym et ∙ q)
  Candidate-cases v (of_notice q) = inr (ok_injective (sym en ∙ q))

key_lt-le : (v w : ActionWindow) → key_lt v w ≡ true → v.deadline ≤ w.deadline
unfolding key_lt
key_lt-le v w h = ground arith

key_lt-ge : (v w : ActionWindow) → key_lt v w ≡ false → w.deadline ≤ v.deadline
unfolding key_lt
key_lt-ge v w h = ground arith

key_lt-tie :
    (v w : ActionWindow)
    → key_lt v w ≡ false
    → v.deadline ≡ w.deadline
    → v.reason ≡ cancellation
    → w.reason ≡ cancellation
unfolding key_lt reason_rank
key_lt-tie v w h e r = ground arith

both :
    (c : Commitment) (d reference : Date) (t n : ActionWindow)
    → trial_window c d ≡ some t
    → cancellation_window c d ≡ ok (some n)
    → reference ≤ t.deadline
    → reference ≤ n.deadline
    → Chosen c d reference (if key_lt n t then some n else some t)
both c d reference t n et en ht hn = elim (Bool-cases (key_lt n t)) [
  | inl p ↦ rw p (record {
    candidate = of_notice en;
    ahead = hn;
    first = λ v k le.
        ground (arith, Candidate-cases c d reference (some t) (some n) et en v k, key_lt-le n t p);
    tie = λ v k e r. notice_reason c d n en;
  })
  | inr p ↦ rw p (record {
    candidate = of_trial et;
    ahead = ht;
    first = λ v k le.
        ground (arith, Candidate-cases c d reference (some t) (some n) et en v k, key_lt-ge n t p);
    tie = λ v k e r. tied p v k e r;
  })
]
  where
    tied :
        key_lt n t ≡ false
        → (v : ActionWindow) → Candidate c d v
        → v.deadline ≡ t.deadline
        → v.reason ≡ cancellation
        → t.reason ≡ cancellation
    tied p v k e r = elim (Candidate-cases c d reference (some t) (some n) et en v k) [
      | inl same ↦ ground arith
      | inr same ↦ ground (arith, key_lt-tie n t)
    ]

choose :
    (c : Commitment) (d reference : Date) (t n : Option ActionWindow)
    → trial_window c d ≡ t
    → cancellation_window c d ≡ ok n
    → Chosen c d reference (earliest (keep_ahead reference t) (keep_ahead reference n))
unfolding earliest keep_ahead reason_rank
choose c d reference none none et en =
    λ v q. ground (arith, Candidate-cases c d reference none none et en v q)
choose c d reference none (some n) et en = elim (Bool-cases (leb reference n.deadline)) [
  | inl p ↦ rw p (record {
    candidate = of_notice en;
    ahead = leb→le reference n.deadline p;
    first = λ v q le. ground (arith, Candidate-cases c d reference none (some n) et en v q);
    tie = λ v q e r. notice_reason c d n en;
  })
  | inr p ↦ rw p (λ v q. ground (arith, Candidate-cases c d reference none (some n) et en v q))
]
choose c d reference (some t) none et en = elim (Bool-cases (leb reference t.deadline)) [
  | inl p ↦ rw p (record {
    candidate = of_trial et;
    ahead = leb→le reference t.deadline p;
    first = λ v q le. ground (arith, Candidate-cases c d reference (some t) none et en v q);
    tie = λ v q e r. ground (arith, Candidate-cases c d reference (some t) none et en v q);
  })
  | inr p ↦ rw p (λ v q. ground (arith, Candidate-cases c d reference (some t) none et en v q))
]
choose c d reference (some t) (some n) et en = elim (Bool-cases (leb reference t.deadline)) [
  | inr p ↦ elim (Bool-cases (leb reference n.deadline)) [
    | inr q ↦
        rw (p, q) (λ v k. ground (arith, Candidate-cases c d reference (some t) (some n) et en v k))
    | inl q ↦
        rw (p, q)
          (record {
            candidate = of_notice en;
            ahead = leb→le reference n.deadline q;
            first =
                λ v k le. ground (arith, Candidate-cases c d reference (some t) (some n) et en v k);
            tie = λ v k e r. notice_reason c d n en;
          })
  ]
  | inl p ↦ elim (Bool-cases (leb reference n.deadline)) [
    | inr q ↦
        rw (p, q)
          (record {
            candidate = of_trial et;
            ahead = leb→le reference t.deadline p;
            first =
                λ v k le. ground (arith, Candidate-cases c d reference (some t) (some n) et en v k);
            tie = λ v k e r.
                ground (arith, Candidate-cases c d reference (some t) (some n) et en v k);
          })
    | inl q ↦
        rw (p, q)
          (both c d reference t n et en (leb→le reference t.deadline p)
            (leb→le reference n.deadline q))
  ]
]

notice_fits :
    (c : Commitment) (d : Date)
    → IsNoticeBefore c d
    → (m : Option ActionWindow) × (cancellation_window c d ≡ ok m)
unfolding cancellation_window sub_days
notice_fits c d h = elim (Option-cases c.cancellation_notice_days) [
  | inl e ↦ (none, rw e refl)
  | inr (n, e) ↦ (
    some (record { deadline = d - n; reason = cancellation; lead_days = c.reminder_days_before }),
    rw (e, let short : ltb n d ≡ true = rw e at h in short) refl,
  )
]

-- Where the cancellation notice of the commitment is shorter than the number of days up to the due
-- date, `action_window` returns: among the windows of the occurrence whose deadline has not passed,
-- one with the earliest deadline, and the cancellation window where the two end on one day. It
-- returns none just when every window has passed.
pub action_window-Chosen :
    (c : Commitment) (due_date reference : Date)
    → IsNoticeBefore c due_date
    → (r : Option ActionWindow) × (action_window c due_date reference ≡ ok r)
      × Chosen c due_date reference r
unfolding action_window
action_window-Chosen c d reference h =
    let (n, e) = notice_fits c d h in
    let r = earliest (keep_ahead reference (trial_window c d)) (keep_ahead reference n) in
    (r, rw e refl, choose c d reference (trial_window c d) n refl e)
