-- ===== src/Postgres/Replication/Acknowledge.antt =====
-- The status messages that answer what the server sends.
use go_dblog.Prelude.{
  ℕ, ◌+◌, ◌-◌, ◌≤◌, ◌≡◌, refl, ◌||◌, some, List, [], ◌∷◌, ◌++◌, append-nil, length, ltb,
  if◌then◌else◌, arith, Bool-cases, inl, inr,
}
use go_dblog.Prelude.Text.{Bytes}
use go_dblog.Postgres.Wire.{WireData, standby_status_data}
use go_dblog.Postgres.Replication.{WireDecoder, send_message, acknowledge}

-- The status message that answers the data, where `n` messages were sent before.
unfoldable pub status : (ℕ → ℕ) → ℕ → WireData → List Bytes
unfolding standby_status_data
status clock n change =
    if ltb 0 change.lsn || change.reply
    then standby_status_data change.lsn (clock n) change.reply ∷ []
    else []

-- With a flush left, the status is sent, and nothing else of the decoder changes.
pub acknowledge_lem :
    {F : Type 0} (clock : ℕ → ℕ) (d : WireDecoder F) (change : WireData)
    → 1 ≤ d.writes_left
    → (w : ℕ) × (d.writes_left ≤ w + 1)
      × (acknowledge clock change d
          ≡ some
              (record d { sent = d.sent ++ status clock (length d.sent) change; writes_left = w }))
unfolding acknowledge send_message status
acknowledge_lem clock d change h = elim (Bool-cases (ltb 0 change.lsn || change.reply)) [
  | inl asked ↦ (d.writes_left - 1, omega arith, ground (arith, asked, h))
  | inr silent ↦ (d.writes_left, omega arith, rw (silent, append-nil d.sent) refl)
]

-- The statuses that answer all of the data, where `n` messages were sent before.
unfoldable pub statuses : (ℕ → ℕ) → ℕ → List WireData → List Bytes
unfolding status
statuses clock n [] = []
statuses clock n (change ∷ rest) =
    status clock n change ++ statuses clock (n + length (status clock n change)) rest
