-- ===== src/Repositories/Digests.antt =====
-- repositories/digest_repository.py: the journal of the weekly digests.
use oublie_pas_backend.Base.{ℕ, Bool, List, ◌++◌, ◌∷◌, [], ◌==◌, ◌&&◌, ◌≟◌, ◌+◌, map, if◌then◌else◌}
use oublie_pas_backend.Base.Sql.{select, exists}
use oublie_pas_backend.Calendar.{Date}
use oublie_pas_backend.Errors.{Result, ok, err, integrity_error}
use oublie_pas_backend.Models.Columns.{email, channel_eq}
use oublie_pas_backend.Models.Commitments.{WeeklyDigest}
use oublie_pas_backend.Session.{Db}

abbrev pub is_week : Date → WeeklyDigest → Bool
is_week week_start d = d.week_start == week_start && d.channel ≟ email

abbrev pub is_digest : ℕ → Date → WeeklyDigest → Bool
is_digest user_id week_start d = d.user_id == user_id && is_week week_start d

unfoldable pub sent_for_week : Date → Db → List ℕ
sent_for_week week_start db = map (λ d. d.user_id) (select (is_week week_start) db.digests)

-- The row is written when the session flushes, where `uq_weekly_digest` may refuse it.
unfoldable pub mark_sent : ℕ → Date → ℕ → Db → Result (Unit {0}) × Db
mark_sent user_id week_start at db =
    let row : WeeklyDigest = record {
      id = db.next_id;
      user_id = user_id;
      week_start = week_start;
      channel = email;
      sent_at = at;
    } in
    if exists (is_digest user_id week_start) db.digests
    then (err integrity_error, db)
    else (ok tt, record db { digests = db.digests ++ (row ∷ []); next_id = db.next_id + 1 })
