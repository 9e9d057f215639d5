-- ===== src/Jobs/Retry.antt =====
-- The delay before the next attempt, as the queues for invoices, e-mails and WhatsApp compute it.
use aurum_pos.Prelude.{ℕ, ◌+◌, ◌^◌, min}
use aurum_pos.Tables.Access.{minutes}

-- `now + timedelta(minutes=min(60, 2**attempts))`
unfoldable pub retry_at : ℕ → ℕ → ℕ
retry_at now attempts = now + minutes (min 60 (2 ^ attempts))
