-- ===== src/Consumer/Record.antt =====
-- wakuwaku-iggy/src/consumer/record.rs: a polled message whose headers parsed.
use wakuwaku.Base.{ℕ, List, map, Option, Result, ok, ◌>>=◌}
use wakuwaku.Events.{EventParseError}
use wakuwaku.Events.Headers
use wakuwaku.Events.Headers.{EventHeaders, HeaderKeys, RetryProperties}
use wakuwaku.Partition.Plan.{PlanRecord}

pub record ParsedRecord : Type 0 where
  pub offset : ℕ  -- u64
  pub headers : EventHeaders
  pub payload : List ℕ

unfoldable pub plan_records : List ParsedRecord → List PlanRecord
plan_records records =
    map
      (λ r. record {
        key = r.headers.key;
        tag = r.headers.tag;
        ordering = r.headers.properties.atomic_level;
      })
      records

-- What Iggy gives of a message: its offset, its payload and the result of `user_headers_map`.
pub record Message (IggyError HeaderKey HeaderValue : Type 0) : Type 0 where
  pub offset : ℕ
  pub payload : List ℕ
  pub user_headers : Result IggyError (Option (HeaderKey → Option HeaderValue))

unfoldable pub parse :
    {IggyError HeaderKey HeaderValue : Type 0}
    → (HeaderValue → List ℕ)
    → Message IggyError HeaderKey HeaderValue
    → HeaderKeys HeaderKey
    → Result EventParseError (ParsedRecord × Option RetryProperties)
parse as_bytes message keys = do
  (headers, retry) ← Headers.parse as_bytes message.user_headers keys
  ok (record { offset = message.offset; headers = headers; payload = message.payload }, retry)
