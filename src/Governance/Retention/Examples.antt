-- ===== src/Governance/Retention/Examples.antt =====
-- A purge 1,000 days after time 0, with rows on both sides of each limit.
use envelockserver.Prelude.{
  ℕ, ◌*◌, ◌≡◌, refl, none, some, [], ◌∷◌, arith, text_comparable, number_comparable,
}
use envelockserver.Prelude.Time.{day}
use envelockserver.Governance.Retention.Statements.{purged, purge_expired_by}
use envelockserver.Governance.Retention.{
  cutoff_after, policy_for, cutoff, expired, old_alert_ids, refers_to, purge_expired, purge_counts,
  MessageRow, Tables,
}
use envelockserver.Governance.Retention.Limits.{
  purge_expired-IsWithinLimits, IsWithinLimits, IsAccounted,
}
use envelockserver.Governance.Retention.References.{
  IsClosed, purge_expired-IsClosed, purge_expired_blocked,
}

abbrev letter : ℕ → MessageRow
letter at = record {
  received_at = at * day;
  body_storage_key = some "blob/1";
  subject = some "Invoice";
  features = "len=3";
}

-- One alert made at `at`, with one finding made at `later`.
abbrev office : ℕ → ℕ → Tables
office at later = record {
  messages = letter 100 ∷ letter 999 ∷ [];
  sensor_sessions = record { last_seen_at = 3 * day } ∷ record { last_seen_at = 900 * day } ∷ [];
  audit_events = record { created_at = 3 * day } ∷ [];
  findings = record { created_at = later; alert_id = some 7 } ∷ [];
  notification_deliveries = record { alert_id = 7 } ∷ [];
  alerts = record { id = 7; created_at = at } ∷ [];
}

limits_example :
    IsWithinLimits (1000 * day) (purged (1000 * day) (office 0 0))
    × IsAccounted
        (purge_counts (1000 * day) (office 0 0))
        (office 0 0)
        (purged (1000 * day) (office 0 0))
unfolding purged refers_to cutoff cutoff_after policy_for expired old_alert_ids
limits_example =
    purge_expired-IsWithinLimits (1000 * day) (office 0 0) (purged (1000 * day) (office 0 0))
      (purge_expired_by (1000 * day) (office 0 0))

keys_example :
    (purge_expired (1000 * day) (office 0 0) ≡ some (purged (1000 * day) (office 0 0)))
    × IsClosed (purged (1000 * day) (office 0 0))
unfolding purged refers_to cutoff cutoff_after policy_for expired old_alert_ids
keys_example = purge_expired-IsClosed (1000 * day) (office 0 0) (refl, refl) refl

-- The alert is made at the start and its finding a day after the limit of both.
blocked_example : purge_expired (1000 * day) (office 0 (271 * day)) ≡ none
blocked_example =
    purge_expired_blocked (1000 * day) (office 0 (271 * day)) (record { id = 7; created_at = 0 })
      (record { created_at = 271 * day; alert_id = some 7 }) [] [] [] [] refl refl refl
      (omega arith) (omega arith)
