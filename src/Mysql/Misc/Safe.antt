-- ===== src/Mysql/Misc/Safe.antt =====
-- The decoders of E_MISC_EVENTS.go do not panic.
use go_dblog.Prelude.{ℕ, ◌+◌, ◌≤◌, ◌≢◌, length, arith, ltb, ltb→lt, Bool-cases, inl, inr, not, ◌==◌}
use go_dblog.Prelude.Result.{panic}
use go_dblog.Prelude.Text.{Bytes}
use go_dblog.Mysql.Bytes.{byte_at, from, slice, uint, require_data, require_from}
use go_dblog.Mysql.Bytes.Safe.{
  bind-safe, if-safe, ok-safe, byte_at-safe, from-safe, slice-safe, uint-safe, require_data-safe,
  require_data-le, require_from-safe, require_from-le,
}
use go_dblog.Mysql.Misc.{
  decode_start, decode_file, decode_exec_load, decode_rand, decode_incident,
  decode_transaction_context, decode_view_change,
}
use go_dblog.Mysql.UserVar.{decode_user_var, user_var_value, user_var_flags}

start-safe : (s : Bytes) → decode_start s ≢ panic
unfolding decode_start
start-safe s = bind-safe (require_data s 56) _ (require_data-safe s 56) λ _ e.
    let h = require_data-le s 56 e in
    bind-safe (uint 2 s 0) _ (uint-safe 2 s 0 (omega (arith, h))) λ v _.
      bind-safe (slice s 2 50) _ (slice-safe s 2 50 (omega (arith, h)))
        λ w _. bind-safe (uint 4 s 52) _ (uint-safe 4 s 52 (omega (arith, h))) λ t _. ok-safe _

file-safe : (typ : ℕ) (s : Bytes) → decode_file typ s ≢ panic
unfolding decode_file
file-safe typ s = bind-safe (require_data s 4) _ (require_data-safe s 4) λ _ e.
    let h = require_data-le s 4 e in
    bind-safe (uint 4 s 0) _ (uint-safe 4 s 0 (omega (arith, h)))
      λ v _. bind-safe (from s 4) _ (from-safe s 4 (omega (arith, h))) λ b _. ok-safe _

exec_load-safe : (s : Bytes) → decode_exec_load s ≢ panic
unfolding decode_exec_load
exec_load-safe s = bind-safe (require_data s 4) _ (require_data-safe s 4) λ _ e.
    let h = require_data-le s 4 e in
    bind-safe (uint 4 s 0) _ (uint-safe 4 s 0 (omega (arith, h))) λ v _. ok-safe _

rand-safe : (s : Bytes) → decode_rand s ≢ panic
unfolding decode_rand
rand-safe s = bind-safe (require_data s 16) _ (require_data-safe s 16) λ _ e.
    let h = require_data-le s 16 e in
    bind-safe (uint 8 s 0) _ (uint-safe 8 s 0 (omega (arith, h)))
      λ v _. bind-safe (uint 8 s 8) _ (uint-safe 8 s 8 (omega (arith, h))) λ w _. ok-safe _

incident-safe : (s : Bytes) → decode_incident s ≢ panic
unfolding decode_incident
incident-safe s = bind-safe (require_data s 3) _ (require_data-safe s 3) λ _ e.
    let h = require_data-le s 3 e in
    bind-safe (byte_at s 2) _ (byte_at-safe s 2 (omega (arith, h))) λ n _.
      bind-safe (require_from s 3 n) _ (require_from-safe s 3 n (omega (arith, h))) λ _ e'.
        let k = require_from-le s 3 n (omega (arith, h)) e' in
        bind-safe (uint 2 s 0) _ (uint-safe 2 s 0 (omega (arith, h)))
          λ t _. bind-safe (slice s 3 n) _ (slice-safe s 3 n (omega (arith, k))) λ m _. ok-safe _

transaction_context-safe : (s : Bytes) → decode_transaction_context s ≢ panic
unfolding decode_transaction_context
transaction_context-safe s = bind-safe (require_data s 18) _ (require_data-safe s 18) λ _ e.
    let h = require_data-le s 18 e in
    bind-safe (uint 4 s 0) _ (uint-safe 4 s 0 (omega (arith, h))) λ _ _.
      bind-safe (uint 4 s 4) _ (uint-safe 4 s 4 (omega (arith, h))) λ _ _.
        bind-safe (uint 8 s 8) _ (uint-safe 8 s 8 (omega (arith, h))) λ _ _.
          bind-safe (slice s 0 18) _ (slice-safe s 0 18 (omega (arith, h)))
            λ _ _. bind-safe (from s 18) _ (from-safe s 18 (omega (arith, h))) λ _ _. ok-safe _

view_change-safe : (s : Bytes) → decode_view_change s ≢ panic
unfolding decode_view_change
view_change-safe s = bind-safe (require_data s 52) _ (require_data-safe s 52) λ _ e.
    let h = require_data-le s 52 e in
    bind-safe (slice s 0 52) _ (slice-safe s 0 52 (omega (arith, h))) λ _ _.
      bind-safe (slice s 0 52) _ (slice-safe s 0 52 (omega (arith, h)))
        λ _ _. bind-safe (from s 52) _ (from-safe s 52 (omega (arith, h))) λ _ _. ok-safe _

-- The decoders of START_EVENT_V3, CREATE_FILE / APPEND_BLOCK / BEGIN_LOAD_QUERY / DELETE_FILE,
-- EXEC_LOAD, RAND, INCIDENT, TRANSACTION_CONTEXT and VIEW_CHANGE events read no byte out of range,
-- whatever the event type and the data are.
pub fixed_layout-ne-panic :
    (typ : ℕ) (s : Bytes)
    → (decode_start s ≢ panic)
      × (decode_file typ s ≢ panic)
      × (decode_exec_load s ≢ panic)
      × (decode_rand s ≢ panic)
      × (decode_incident s ≢ panic)
      × (decode_transaction_context s ≢ panic)
      × (decode_view_change s ≢ panic)
fixed_layout-ne-panic typ s = (
  start-safe s,
  file-safe typ s,
  exec_load-safe s,
  rand-safe s,
  incident-safe s,
  transaction_context-safe s,
  view_change-safe s,
)

flags-safe : (s : Bytes) (p : ℕ) → user_var_flags s p ≢ panic
unfolding user_var_flags
flags-safe s p = elim (Bool-cases (ltb p (length s))) [
  | inl less ↦
      rw less (bind-safe (byte_at s p) _ (byte_at-safe s p (ltb→lt _ _ less)) λ _ _. ok-safe _)
  | inr done ↦ rw done (ok-safe _)
]

value-safe : (s name : Bytes) (p : ℕ) → p ≤ length s → user_var_value s name p ≢ panic
unfolding user_var_value
value-safe s name p h = bind-safe (require_from s p 9) _ (require_from-safe s p 9 h) λ _ e.
    let k = require_from-le s p 9 h e in
    bind-safe (byte_at s p) _ (byte_at-safe s p (omega (arith, k))) λ _ _.
      bind-safe (uint 4 s (p + 1)) _ (uint-safe 4 s (p + 1) (omega (arith, k))) λ _ _.
        bind-safe (uint 4 s (p + 5)) _ (uint-safe 4 s (p + 5) (omega (arith, k))) λ n _.
          bind-safe (require_from s (p + 9) n) _ (require_from-safe s (p + 9) n k) λ _ e'.
            let l = require_from-le s (p + 9) n k e' in
            bind-safe (slice s (p + 9) n) _ (slice-safe s (p + 9) n l)
              λ _ _. bind-safe (user_var_flags s (p + 9 + n)) _ (flags-safe s _) λ r _. ok-safe _

-- The decoder of a USER_VAR event reads no byte out of range, whatever lengths its data claims.
pub decode_user_var-ne-panic : (s : Bytes) → decode_user_var s ≢ panic
unfolding decode_user_var
decode_user_var-ne-panic s = bind-safe (require_data s 5) _ (require_data-safe s 5) λ _ e.
    let h = require_data-le s 5 e in
    bind-safe (uint 4 s 0) _ (uint-safe 4 s 0 (omega (arith, h))) λ n _.
      bind-safe (require_from s 4 (n + 1)) _ (require_from-safe s 4 (n + 1) (omega (arith, h)))
        λ _ e'.
          let k = require_from-le s 4 (n + 1) (omega (arith, h)) e' in
          bind-safe (slice s 4 n) _ (slice-safe s 4 n (omega (arith, k))) λ name _.
            bind-safe (byte_at s (4 + n)) _ (byte_at-safe s (4 + n) (omega (arith, k))) λ b _.
              if-safe (not (b == 0)) (ok-safe _) (value-safe s name (4 + n + 1) (omega (arith, k)))
