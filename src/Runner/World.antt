-- ===== src/Runner/World.antt =====
-- What a run stands on. The file system, the clock, Python's JSON and the sessions of the engines
-- are parameters; the events that the observer is given are kept in order.
use gp_portal.Base.{ℕ, String, Bool, Option, List, [], ◌∷◌, ◌++◌}
use gp_portal.Domain.{Json, JsonFields}
use gp_portal.Runner.Types.{Engine, FailureReason, AgentTask, AttemptLog, AgentResult, Event}

pub data Reading : Type 0 where
  content : String → Reading
  os_error : String → Reading
  -- The bytes are no UTF-8: `UnicodeDecodeError`, which is no `OSError`.
  undecodable : Reading

-- The error has its message, its line and its column, the numbers as they are printed.
pub data Parsing : Type 0 where
  parsed : Json → Parsing
  decode_error : String → String → String → Parsing

-- `Path.exists`, `Path.read_text`, `Path.write_text` in a directory that is made where it is
-- missing (none is a success), `time.monotonic`, `json.loads`, `json.dumps`, `type(x).__name__`.
pub record Platform (W : Type 0) : Type 0 where
  pub exists_at : W → String → Bool
  pub read_text : W → String → Reading
  pub write_text : W → String → String → Option String × W
  pub monotonic : W → ℕ
  pub loads : String → Parsing
  pub dumps : JsonFields → String
  pub type_name : Json → String
  -- A number, and a duration with one decimal, as they are printed.
  pub show_number : ℕ → String
  pub show_seconds : ℕ → String

pub record World (W : Type 0) : Type 0 where
  pub system : W
  pub events : List Event

-- `Observer.emit`
abbrev pub emit : {W : Type 0} → Event → World W → World W
emit e w = record w { events = w.events ++ e ∷ [] }

-- The protocol `AgentRoute`.
pub record AgentRoute (W : Type 0) : Type 0 where
  pub is_available : World W → Bool × Option FailureReason × World W
  -- none is an exception.
  pub execute : AgentTask → World W → Option (AttemptLog × World W)

-- The protocol `AgentProvider`.
pub record AgentProvider (W : Type 0) : Type 0 where
  pub engine : Engine
  -- none is an exception.
  pub run : AgentTask → World W → Option (AgentResult × World W)
