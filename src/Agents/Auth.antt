-- ===== src/Agents/Auth.antt =====
-- The authentication of a worker's callback: backend/app/core/worker_auth.py. HMAC-SHA256 in hex,
-- and the reading of ISO 8601, are parameters; a time is a count of microseconds, and one without a
-- zone is in UTC, as `parse` gives it.
pub mod Skew
use gp_portal.Base.{
  ℕ, ◌+◌, ◌*◌, String, Bool, true, false, not, ◌||◌, Option, none, some, ltb, str_eq,
}
use gp_portal.Domain.{DateTime, Json}
use gp_portal.Store.{M, http, raise_if, or_raise, pure, ◌>>=◌, ◌>>◌, type_error}

-- What the environment has: the two secrets, and the functions of Python's library.
pub record WorkerKeys : Type 0 where
  pub worker_shared_secret : String
  pub worker_hmac_key : String
  pub hexdigest : String → String → String
  pub parse : String → Option DateTime
  -- `==` of two values that were read from JSON, of which neither is a list or an object.
  pub equal : Json → Json → Bool

-- The parameter `now` of the dependency, which FastAPI reads from the query: missing, no datetime,
-- one without a zone, or one with a zone.
pub data NowQuery : Type 0 where
  absent malformed naive : NowQuery
  aware : DateTime → NowQuery

pub record WorkerCallback : Type 0 where
  pub x_worker_token : Option String
  pub x_worker_timestamp : Option String
  pub x_worker_signature : Option String
  pub body : String
  pub now : NowQuery

-- 5 minutes and 30 seconds.
abbrev pub max_timestamp_skew_past : ℕ
max_timestamp_skew_past = 300000000

abbrev pub max_timestamp_skew_future : ℕ
max_timestamp_skew_future = 30000000

module _ (keys : WorkerKeys) where
  -- `sign_worker_payload`
  abbrev pub sign_worker_payload : String → String → String
  sign_worker_payload body secret = keys.hexdigest secret body

  -- none is a time without a zone, from which no time with one is subtracted.
  abbrev pub verify_timestamp : String → Option DateTime → M (Unit {0})
  verify_timestamp ts_str time = do
    ts ← or_raise (keys.parse ts_str) (http 401)
    now ← or_raise time type_error
    raise_if (ltb (ts + max_timestamp_skew_past) now) (http 401)
    raise_if (ltb (now + max_timestamp_skew_future) ts) (http 401)

  abbrev pub verify_signature : String → String → String → M (Unit {0})
  verify_signature body signature_hex secret =
      raise_if (not (str_eq signature_hex (keys.hexdigest secret body))) (http 401)

  -- `if not header`
  abbrev pub present : Option String → Option String
  present none = none
  present (some String.[]) = none
  present (some (String.◌∷◌ c s)) = some (String.◌∷◌ c s)

  -- `now or datetime.now(UTC)`
  abbrev pub time_of : NowQuery → DateTime → Option DateTime
  time_of absent clock = some clock
  time_of (aware t) clock = some t
  time_of _ clock = none

  abbrev pub is_malformed : NowQuery → Bool
  is_malformed malformed = true
  is_malformed _ = false

  -- A query that is no datetime is refused before the dependency is called.
  unfoldable pub require_worker_auth : DateTime → WorkerCallback → M String
  require_worker_auth clock r = do
    raise_if (is_malformed r.now) (http 422)
    token ← or_raise (present r.x_worker_token) (http 401)
    timestamp ← or_raise (present r.x_worker_timestamp) (http 401)
    signature ← or_raise (present r.x_worker_signature) (http 401)
    raise_if (not (str_eq token keys.worker_shared_secret)) (http 401)
    verify_signature r.body signature keys.worker_hmac_key
    verify_timestamp timestamp (time_of r.now clock)
    pure r.body
