-- ===== src/Tests/MysqlLive.antt =====
-- The theorems on the events of mysql/ as they are seen from outside, and on its live decoder, at
-- concrete inputs.
use go_dblog.Prelude.{
  ℕ, suc, ◌≡◌, refl, ◌⊎◌, ◌↔◌, Bool, true, false, Option, none, some, List, [], ◌∷◌, ◌++◌, take,
  arith,
}
use go_dblog.Prelude.Text.{Bytes, codes, same}
use go_dblog.Prelude.Result.{ok, ◌>>=◌}
use go_dblog.Dblog.Types.{Source, position_of}
use go_dblog.Mysql.Bytes.{Decoded, put_le, uint, le, slice}
use go_dblog.Mysql.Header.{EventHeader}
use go_dblog.Mysql.Registry.{
  EventContext, new_event_context, get_event_header_length, new_event_registry,
}
use go_dblog.Mysql.Rows.Event.{BinRowsEvent}
use go_dblog.Mysql.Small.{XidEvent, decode_xid}
use go_dblog.Mysql.Description.{FmtDescEvent}
use go_dblog.Mysql.File.{FileEvent, DecodeOption, auto, decode_raw_event}
use go_dblog.Mysql.Event.{DblogEvent, position, raw, as_event}
use go_dblog.Mysql.Event.Raw.{Body, decode_raw_event-raw}
use go_dblog.Mysql.Backend.{start_position, start_file, events_after_position}
use go_dblog.Mysql.Backend.Checkpoints.{start_position-checkpoint}
use go_dblog.Mysql.Live.{
  LiveConfig, LiveMetadata, Url, Connection, parse_live_dsn, load_live_metadata,
}
use go_dblog.Mysql.Live.Events.{
  LiveDecoder, Streamer, LiveFailure, live_events, live_decoder, new_live_decoder,
}
use go_dblog.Mysql.Live.Events.After.{string_of, AreBytes, Received, live_events-after}
use go_dblog.Mysql.Live.Events.Start.{InRange, new_live_decoder-InRange}
use go_dblog.Tests.MysqlFile.{
  body_of, no_description_of, no_sum, header_bytes, file, stop_event, empty_registry,
}

abbrev log_source : Source
log_source = record { driver = []; name = codes "dir:a/log.1" }

abbrev stop : DblogEvent Bytes
stop = record { source = log_source; event = some stop_event }

abbrev itself : Bytes → Bytes
itself s = s

abbrev no_rows : Bytes → Option BinRowsEvent
no_rows s = none

abbrev empty_body : BinRowsEvent → Bytes
empty_body e = []

start_position-checkpoint_example :
    (start_position (position_of (some (as_event itself no_rows empty_body stop))) ≡ ok 30)
    × (start_file (position_of (some (as_event itself no_rows empty_body stop)))
        ≡ codes "dir:a/log.1")
unfolding position
start_position-checkpoint_example =
    start_position-checkpoint itself no_rows empty_body stop (omega arith)

-- The data of that event with two bytes behind it.
abbrev received : Bytes
received = header_bytes ++ codes "abcd"

-- An XID event, whose body keeps nothing of its data, as `BaseEventBody.Encode` says.
abbrev xid_header : Bytes
xid_header = put_le 4 1 ++ (16 ∷ (put_le 4 2 ++ (put_le 4 27 ++ (put_le 4 40 ++ put_le 2 0))))

abbrev xid_body :
    List ℕ ⊎ ℕ → EventContext (List ℕ) → ℕ → Bytes → Decoded (XidEvent × EventContext (List ℕ))
xid_body d c typ s = decode_xid s >>= λ x. ok (x, c)

abbrev not_kept : XidEvent → Bytes
not_kept x = []

abbrev not_described : XidEvent → Option FmtDescEvent
not_described x = none

abbrev xid_event : FileEvent XidEvent
xid_event = record {
  frame = record {
    header = some (record {
      timestamp = 1;
      event_type = 16;
      server_id = 2;
      event_size = 27;
      log_pos = 40;
      flag = 0;
      base = xid_header;
    });
    checksum_type = 0;
    checksum_val = [];
  };
  body = record { xid = 9 };
}

xid_eq :
    decode_raw_event no_sum xid_body not_described file (xid_header ++ put_le 8 9)
    ≡ ok (some xid_event, file)
unfolding decode_raw_event put_le le uint slice new_event_context get_event_header_length
    new_event_registry decode_xid
xid_eq = refl

decode_raw_event-raw_example :
    (h : EventHeader) × (payload : Bytes) × (xid_event.frame.header ≡ some h)
    × Body xid_body file h payload xid_event.body
    × (h.base ++ (payload ++ []) ≡ take h.event_size (xid_header ++ put_le 8 9))
    × ((raw not_kept (some xid_event) ≡ take h.event_size (xid_header ++ put_le 8 9))
        ↔ ([] ≡ payload))
decode_raw_event-raw_example =
    decode_raw_event-raw no_sum xid_body not_described not_kept file file (xid_header ++ put_le 8 9)
      xid_event xid_eq

abbrev live : LiveDecoder (List ℕ)
live = record { source = log_source; decoder = file; start_position = 29 }

abbrev streamer : Streamer
streamer = record { received = some received ∷ none ∷ []; cancelled = false }

abbrev count : ℕ → Option (DblogEvent Bytes) × Option LiveFailure → ℕ × Bool
count n item = (suc n, true)

received_bytes : AreBytes received
unfolding put_le
received_bytes = (
  omega arith,
  (
    omega arith,
    (
      omega arith,
      (
        omega arith,
        (
          omega arith,
          (
            omega arith,
            (
              omega arith,
              (
                omega arith,
                (
                  omega arith,
                  (
                    omega arith,
                    (
                      omega arith,
                      (
                        omega arith,
                        (
                          omega arith,
                          (
                            omega arith,
                            (
                              omega arith,
                              (
                                omega arith,
                                (
                                  omega arith,
                                  (
                                    omega arith,
                                    (
                                      omega arith,
                                      (
                                        omega arith,
                                        (omega arith, (omega arith, (omega arith, tt))),
                                      ),
                                    ),
                                  ),
                                ),
                              ),
                            ),
                          ),
                        ),
                      ),
                    ),
                  ),
                ),
              ),
            ),
          ),
        ),
      ),
    ),
  ),
)

live_events-after_example :
    events_after_position string_of
      (live_events no_sum body_of no_description_of (record live { start_position = 0 }) streamer)
      29
      count
      0
    ≡ live_events no_sum body_of no_description_of live streamer count 0
unfolding Received
live_events-after_example =
    live_events-after no_sum body_of no_description_of live streamer count 0 (omega arith)
      (received_bytes, (tt, tt))

abbrev some_query : Bytes → Bytes
some_query key = []

abbrev parsed : Bytes → Option Url
parsed dsn = some (record {
  scheme = codes "mysql";
  host = codes "h";
  hostname = codes "h";
  port = [];
  username = codes "u";
  password = [];
  path = codes "/d";
  query = some_query;
})

abbrev joined : Bytes → ℕ → Bytes
joined host port = host

abbrev connected : LiveConfig → Option Connection
connected cfg = some (record {
  version = some (codes "8.0.0");
  binary_log_status = some (record { file = some (codes "log.7"); pos = some 157 });
  master_status = none;
})

abbrev started : LiveConfig → Option LiveConfig
started cfg = some cfg

abbrev option : DecodeOption (List ℕ)
option = record {
  start_pos = 30;
  end_pos = 0;
  start_time = none;
  end_time = none;
  compatibility_mode = auto;
  event_plugins = [];
}

abbrev started_cfg : LiveConfig
started_cfg = record {
  address = codes "h";
  user = codes "u";
  password = [];
  database = codes "d";
  flavor = codes "mysql";
  server_id = 1001;
  file = codes "log.7";
  pos = 30;
}

abbrev read_meta : LiveMetadata
read_meta = record {
  file = codes "log.7";
  pos = 157;
  version = codes "8.0.0";
  has_checksum = false;
}

started_eq :
    new_live_decoder parsed joined connected started empty_registry log_source (codes "x") option
    ≡ ok (live_decoder empty_registry log_source option started_cfg read_meta, started_cfg)
unfolding new_live_decoder parse_live_dsn load_live_metadata same
started_eq = refl

new_live_decoder-InRange_example :
    (cfg : LiveConfig) × InRange cfg × (started cfg ≡ some started_cfg) × (codes "log.7" ≡ cfg.file)
unfolding live_decoder
new_live_decoder-InRange_example =
    new_live_decoder-InRange parsed joined connected started empty_registry log_source (codes "x")
      option (live_decoder empty_registry log_source option started_cfg read_meta) started_cfg
      started_eq
