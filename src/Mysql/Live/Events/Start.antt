-- ===== src/Mysql/Live/Events/Start.antt =====
-- What a live decoder asks the server for.
use go_dblog.Prelude.{
  ℕ, zero, suc, ◌^◌, ◌<◌, ◌≡◌, refl, Bool, true, false, not, ◌&&◌, ◌||◌, Option, none, some, [],
  ◌∷◌, ltb, leb, ltb→lt, ◌==◌, if◌then◌else◌, arith, ◌⊎◌, inl, inr,
}
use go_dblog.Prelude.Result.{Result, ok, err, panic, guard, ◌>>=◌}
use mathlib.Core.Path.{subst}
use go_dblog.Prelude.Text.{Bytes, codes, is_empty, same, trim_space}
use go_dblog.Prelude.Decimal.{parse_uint, digits_value}
use go_dblog.Dblog.Types.{Source}
use go_dblog.Mysql.Registry.{EventRegistry}
use go_dblog.Mysql.File.{DecodeOption}
use go_dblog.Mysql.Live.{
  LiveConfig, LiveMetadata, LiveError, invalid_dsn, invalid_field, Url, positive, parse_port,
  parse_uint32, live_config, parse_live_dsn, Connection, or_fail, or_else, connect_failed,
  version_failed, status_failed, file_failed, position_failed, sync_failed, load_server_version,
  load_binlog_position, load_live_metadata,
}
use go_dblog.Mysql.Live.Events.{LiveDecoder, start_at, completed, live_decoder, new_live_decoder}

-- The server id and the position are of 32 bits, and the server id is not 0.
abbrev pub InRange : LiveConfig → Type 0
InRange cfg = (0 < cfg.server_id) × (cfg.server_id < 2 ^ 32) × (cfg.pos < 2 ^ 32)

parse_uint-bound : (bound : ℕ) (s : Bytes) (n : ℕ) → parse_uint bound s ≡ some n → n < bound
unfolding parse_uint
parse_uint-bound bound [] n e = absurd cc
parse_uint-bound bound (c ∷ s) n e = value (digits_value 0 (c ∷ s)) e
  where
    within :
        (v : ℕ) (b : Bool) → ltb v bound ≡ b → (if b then some v else none) ≡ some n → n < bound
    within v true lt k = let same : v ≡ n = cc in rw (← same) (ltb→lt v bound lt)
    within v false lt k = absurd cc

    value :
        (o : Option ℕ)
        → ◌≡◌ {A = Option ℕ}
            (elim o [ none ↦ none | some v ↦ if ltb v bound then some v else none ])
            (some n)
        → n < bound
    value none k = absurd cc
    value (some v) k = within v (ltb v bound) refl k

-- A predicate of the value, where there is one.
record Holds {A : Type 0} (Q : A → Type 0) (m : Result LiveError A) : Type 0 where
  value : (a : A) → m ≡ ok a → Q a

Holds-bind :
    {A B : Type 0} {Q : B → Type 0} (m : Result LiveError A) {f : A → Result LiveError B}
    → ((a : A) → m ≡ ok a → Holds Q (f a))
    → Holds Q (m >>= f)
Holds-bind (ok a) k = k a refl
Holds-bind (err e) k = record { value = λ b h. absurd cc }
Holds-bind panic k = record { value = λ b h. absurd cc }

Holds-ok : {A : Type 0} {Q : A → Type 0} (a : A) → Q a → Holds Q (ok a)
Holds-ok {A} {Q} a q = record { value = λ b e. subst Q (ok_eq e) q }
  where
    ok_eq : {b : A} → ◌≡◌ {A = Result LiveError A} (ok a) (ok b) → a ≡ b
    ok_eq e = cc

Holds-err : {A : Type 0} {Q : A → Type 0} (e : LiveError) → Holds Q (err e)
Holds-err e = record { value = λ a h. absurd cc }

Holds-when :
    {A : Type 0} {Q : A → Type 0} (b : Bool) {m k : Result LiveError A}
    → (b ≡ true → Holds Q m)
    → (b ≡ false → Holds Q k)
    → Holds Q (if b then m else k)
Holds-when true p q = p refl
Holds-when false p q = q refl

positive-Holds :
    (e : LiveError) (o : Option ℕ) → Holds (λ (n : ℕ). (0 < n) × (o ≡ some n)) (positive e o)
unfolding positive
positive-Holds e none = Holds-err e
positive-Holds e (some zero) = Holds-err e
positive-Holds e (some (suc m)) = Holds-ok (suc m) (omega arith, refl)

-- The fallback, or a number of 32 bits that is not 0.
uint32-Holds :
    (raw field : Bytes) (fallback : ℕ)
    → Holds (λ (n : ℕ). (fallback ≡ n) ⊎ ((0 < n) × (n < 2 ^ 32))) (parse_uint32 raw fallback field)
unfolding parse_uint32
uint32-Holds raw field fallback =
    Holds-when (is_empty raw) (λ _. Holds-ok fallback (inl refl))
      λ _. record {
        value = λ n e.
            let (p, q) =
              (positive-Holds (invalid_field field raw) (parse_uint (2 ^ 32) raw)).value n e in
            inr (p, parse_uint-bound (2 ^ 32) raw n q);
      }

config-InRange :
    (join_host_port : Bytes → ℕ → Bytes) (u : Option Url)
    → Holds InRange (live_config join_host_port u)
unfolding live_config
config-InRange join_host_port none = Holds-err invalid_dsn
config-InRange join_host_port (some u) =
    Holds-bind (guard (same u.scheme (codes "mysql") && not (is_empty u.host)) invalid_dsn) λ _ _.
      Holds-bind (parse_port u.port) λ port _.
        Holds-bind (parse_uint32 (u.query (codes "server_id")) 1001 (codes "server_id")) λ id i.
          Holds-bind (parse_uint32 (u.query (codes "pos")) 0 (codes "pos")) λ pos p. Holds-ok _ (
            in_range id pos
              ((uint32-Holds (u.query (codes "server_id")) (codes "server_id") 1001).value id i)
              ((uint32-Holds (u.query (codes "pos")) (codes "pos") 0).value pos p))
  where
    in_range :
        (id pos : ℕ)
        → (1001 ≡ id) ⊎ ((0 < id) × (id < 2 ^ 32))
        → (0 ≡ pos) ⊎ ((0 < pos) × (pos < 2 ^ 32))
        → (0 < id) × (id < 2 ^ 32) × (pos < 2 ^ 32)
    in_range id pos h k = (ground (arith, h), ground (arith, h), ground (arith, k))

start_at-InRange : (cfg : LiveConfig) (start : ℕ) → InRange cfg → Holds InRange (start_at cfg start)
unfolding start_at
start_at-InRange cfg start (a, b, c) =
    Holds-when (cfg.pos == 0 && ltb 0 start)
      (λ _.
        Holds-when (leb (2 ^ 32) start) (λ _. Holds-err _)
          λ h. Holds-ok _ (a, b, ground (arith, h)))
      (λ _. Holds-ok cfg (a, b, c))

version-pos :
    (c : Connection) (meta : LiveMetadata)
    → Holds (λ (m : LiveMetadata). m.pos ≡ meta.pos) (load_server_version c meta)
unfolding load_server_version
version-pos c meta = Holds-bind (or_fail version_failed c.version) λ version _. Holds-ok _ refl

position-small :
    (c : Connection) (meta : LiveMetadata)
    → Holds (λ (m : LiveMetadata). m.pos < 2 ^ 32) (load_binlog_position c meta)
unfolding load_binlog_position
position-small c meta =
    Holds-bind (or_fail status_failed (or_else c.binary_log_status c.master_status)) λ status _.
      Holds-bind (or_fail file_failed status.file)
        λ file _. Holds-bind (or_fail position_failed status.pos) λ pos _. Holds-ok _ (omega arith)

metadata-small :
    (connect : LiveConfig → Option Connection) (cfg : LiveConfig)
    → cfg.pos < 2 ^ 32
    → Holds (λ (m : LiveMetadata). m.pos < 2 ^ 32) (load_live_metadata connect cfg)
unfolding load_live_metadata
metadata-small connect cfg h =
    let first : LiveMetadata = record {
      file = cfg.file;
      pos = cfg.pos;
      version = codes "8.0.0";
      has_checksum = false;
    } in
    Holds-bind (or_fail connect_failed (connect cfg)) λ c _.
      Holds-bind (load_server_version c first) λ meta e.
        Holds-when (is_empty meta.file || meta.pos == 0) (λ _. position-small c meta)
          λ _. Holds-ok meta (omega (arith, (version-pos c first).value meta e, h))

-- `d` and its stream come from a start with a configuration in range, whose file `d` names.
abbrev Started : {D A : Type 0} → (LiveConfig → Option A) → LiveDecoder D × A → Type 0
Started start_sync r =
    (cfg : LiveConfig) × InRange cfg × (start_sync cfg ≡ some r.1) × (r.0.source.name ≡ cfg.file)

completed-InRange :
    (cfg : LiveConfig) (meta : LiveMetadata)
    → InRange cfg
    → meta.pos < 2 ^ 32
    → InRange (completed cfg meta)
unfolding completed
completed-InRange cfg meta (a, b, c) h = (a, b, ground (arith, c, h))

or_fail-some : {A : Type 0} (e : LiveError) (o : Option A) (a : A) → or_fail e o ≡ ok a → o ≡ some a
unfolding or_fail
or_fail-some e none a h = absurd cc
or_fail-some e (some b) a h = cc

-- Where `NewLiveDecoder` returns a decoder, it has started the stream with a configuration whose
-- server id is of 32 bits and not 0, and whose position is of 32 bits; the events name its file.
pub new_live_decoder-InRange :
    {D A : Type 0} (parse_url : Bytes → Option Url) (join_host_port : Bytes → ℕ → Bytes)
    (connect : LiveConfig → Option Connection) (start_sync : LiveConfig → Option A)
    (registry : EventRegistry D) (source : Source) (dsn : Bytes) (option : DecodeOption D)
    (d : LiveDecoder D) (a : A)
    → new_live_decoder parse_url join_host_port connect start_sync registry source dsn option
      ≡ ok (d, a)
    → (cfg : LiveConfig) × InRange cfg × (start_sync cfg ≡ some a) × (d.source.name ≡ cfg.file)
unfolding new_live_decoder parse_live_dsn live_decoder
new_live_decoder-InRange parse_url join connect start_sync registry source dsn option d a e =
    whole.value (d, a) e
  where
    whole :
        Holds
          (Started start_sync)
          (new_live_decoder parse_url join connect start_sync registry source dsn option)
    whole = Holds-bind (parse_live_dsn parse_url join dsn) λ parsed e1.
        Holds-bind (start_at parsed option.start_pos) λ cfg e2.
          Holds-bind (load_live_metadata connect cfg) λ meta e3.
            Holds-bind (or_fail sync_failed (start_sync (completed cfg meta))) λ a e4.
              let first = (config-InRange join (parse_url (trim_space dsn))).value parsed e1 in
              let second = (start_at-InRange parsed option.start_pos first).value cfg e2 in
              let small = (metadata-small connect cfg second.2).value meta e3 in
              Holds-ok _ (
                completed cfg meta,
                completed-InRange cfg meta second small,
                or_fail-some sync_failed (start_sync (completed cfg meta)) a e4,
                refl,
              )
