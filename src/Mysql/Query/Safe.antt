-- ===== src/Mysql/Query/Safe.antt =====
-- The ends and the panics of the decoder of query events.
use go_dblog.Prelude.{ℕ, ◌+◌, ◌≤◌, ◌≡◌, ◌≢◌, refl, Option, none, some, length, leb, arith}
use go_dblog.Prelude.Result.{ok, err, panic}
use go_dblog.Prelude.Text.{Bytes}
use go_dblog.Mysql.Bytes.{Decoded, byte_at, from, slice, uint, require_data, require_from}
use go_dblog.Mysql.Bytes.Safe.{from-safe}
use go_dblog.Mysql.Bytes.Post.{
  Post, Post-ok, Post-bind, Post-if, Post-Any, Any, from-Post, data-Post, byte_at-Post, slice-Post,
  uint-Post,
}
use go_dblog.Mysql.Description.{FmtDescEvent}
use go_dblog.Mysql.Query.{
  status_of, status_bytes, query_texts, QueryHead, query_head, query_event, then_ends, decode_query,
}
use go_dblog.Mysql.Rows.Event.{and_then}
use go_dblog.Mysql.StatusVars.{QueryStatusVars, decode_query_status_vars}
use go_dblog.Mysql.StatusVars.Safe.{Returns, Returns-some, status_vars-Returns}

status_of-Returns :
    (vars : Bytes) (o : Option (Decoded QueryStatusVars)) → Returns o → Returns (status_of vars o)
unfolding status_of
status_of-Returns vars none r = absurd (r.ends refl)
status_of-Returns vars (some (ok v)) r = r
status_of-Returns vars (some (err e)) r = Returns-some _ (λ q. cc)
status_of-Returns vars (some panic) r = absurd (r.safe refl)

status_bytes-Post :
    (version : ℕ) (s : Bytes)
    → 11 ≤ length s
    → Post (λ (r : Bytes × ℕ). r.1 ≤ length s) (status_bytes version s)
unfolding status_bytes
status_bytes-Post version s h =
    Post-if (leb 4 version)
      (λ _.
        Post-bind (λ _. 11 + 2 ≤ length s) (require_from s 11 2) (from-Post s 11 2 h)
          λ _ k. Post-bind Any (uint 2 s 11) (uint-Post 2 s 11 k) λ n _.
            Post-bind (λ _. 13 + n ≤ length s) (require_from s 13 n) (from-Post s 13 n k)
              λ _ l. Post-bind Any (slice s 13 n) (slice-Post s 13 n l) λ _ _. Post-ok _ l)
      λ _. Post-ok _ h

head-Post :
    (version : ℕ) (s : Bytes) → Post (λ (r : QueryHead). r.pos ≤ length s) (query_head version s)
unfolding query_head
head-Post version s =
    Post-bind (λ _. 11 ≤ length s) (require_data s 11) (data-Post s 11)
      λ _ h. Post-bind Any (uint 4 s 0) (uint-Post 4 s 0 (omega (arith, h))) λ _ _.
        Post-bind Any (uint 4 s 4) (uint-Post 4 s 4 (omega (arith, h))) λ _ _.
          Post-bind Any (byte_at s 8) (byte_at-Post s 8 (omega (arith, h))) λ _ _.
            Post-bind Any (uint 2 s 9) (uint-Post 2 s 9 h) λ _ _.
              Post-bind (λ (r : Bytes × ℕ). r.1 ≤ length s) (status_bytes version s)
                (status_bytes-Post version s h) λ r l. Post-ok _ l

texts-Post : (s : Bytes) (p n : ℕ) → p ≤ length s → Post Any (query_texts s p n)
unfolding query_texts
texts-Post s p n h =
    Post-bind (λ _. p + (n + 1) ≤ length s) (require_from s p (n + 1)) (from-Post s p (n + 1) h)
      λ _ k. Post-bind Any (slice s p n) (slice-Post s p n (omega (arith, k))) λ _ _.
        Post-bind Any (from s (p + n + 1)) (Post-Any _ (from-safe s (p + n + 1) (omega (arith, k))))
          λ _ _. Post-ok _ tt

event-Post :
    (s : Bytes) (head : QueryHead) (v : QueryStatusVars)
    → head.pos ≤ length s
    → Post Any (query_event s head v)
unfolding query_event
event-Post s head v h =
    Post-bind Any (query_texts s head.pos head.schema_length)
      (texts-Post s head.pos head.schema_length h) λ _ _. Post-ok _ tt

then_ends-Returns :
    {A B : Type 0} (o : Option (Decoded A)) {next : A → Decoded B}
    → Returns o
    → ((a : A) → next a ≢ panic)
    → Returns (then_ends o next)
then_ends-Returns none r k = absurd (r.ends refl)
then_ends-Returns (some (ok a)) r k = Returns-some _ (k a)
then_ends-Returns (some (err e)) r k = Returns-some (err e) (λ q. cc)
then_ends-Returns (some panic) r k = absurd (r.safe refl)

and_then-Returns :
    {A B : Type 0} (m : Decoded A) {next : A → Option (Decoded B)}
    → m ≢ panic
    → ((a : A) → m ≡ ok a → Returns (next a))
    → Returns (and_then m next)
unfolding and_then
and_then-Returns (ok a) p k = k a refl
and_then-Returns (err e) p k = Returns-some (err e) (λ q. cc)
and_then-Returns panic p k = absurd (p refl)

-- `Decode` of a query event comes to an end on all data, with an event or an error: it has enough
-- fuel for the status variables, and reads no byte out of range, whatever lengths the data claims.
pub decode_query-Returns : (o : Option FmtDescEvent) (s : Bytes) → Returns (decode_query o s)
unfolding decode_query
decode_query-Returns none s = Returns-some _ (λ q. cc)
decode_query-Returns (some fde) s =
    let head : Post (λ (r : QueryHead). r.pos ≤ length s) (query_head fde.binlog_version s) =
      head-Post fde.binlog_version s in
    and_then-Returns (query_head fde.binlog_version s) head.safe λ r e.
      then_ends-Returns (status_of r.status_vars (decode_query_status_vars r.status_vars))
        (status_of-Returns r.status_vars _ (status_vars-Returns r.status_vars))
        λ v. (event-Post s r v (head.holds r e)).safe
