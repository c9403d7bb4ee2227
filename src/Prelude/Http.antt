-- ===== src/Prelude/Http.antt =====
-- What the source uses of httpx: requests, and what comes back.
use Prim.Native.Nat.{ℕ, ◌/◌}
use Prim.Native.String.{String}
use mathlib.Core.Bool.{Bool}
use mathlib.Core.Option.{Option}
use autobench.Prelude.Tests.{eqb}
use autobench.Prelude.Dict.{Dict}
use autobench.Prelude.Json.{Json}

-- A response: `json` is none where its body is not JSON, and `location` its header, "" where it has none.
pub record Response : Type 0 where
  pub status_code : ℕ
  pub json : Option Json
  pub text : String
  pub location : String

-- A request is answered, or raises an `httpx.HTTPError` with a text.
pub data Sent : Type 0 where
  answered : Response → Sent
  unsent : String → Sent

pub data Method : Type 0 where
  get : Method
  post : Method
  delete : Method

pub record Request : Type 0 where
  pub method : Method
  pub url : String
  pub headers : Dict String
  pub params : Dict String
  pub form : Dict String
  pub body : Option Json

-- A server in a world that it may change, and the clock `time.monotonic`, in whole ticks.
pub record Web (W : Type 0) : Type 0 where
  pub send : Request → W → Sent × W
  pub monotonic : W → ℕ × W

-- `resp.is_success`
abbrev pub is_success : ℕ → Bool
is_success status = eqb (status / 100) 2
