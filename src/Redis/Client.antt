-- ===== src/Redis/Client.antt =====
-- internal/adapters/storage/redis: the commands of the client library that the repositories send, and
-- the JSON library. Both are parameters.
use pub_sub_go.Base.{String, Option, List}
use pub_sub_go.Base.Int.{ℤ}
use pub_sub_go.Result.{Error, Result, Action}

-- A command that a pipeline sends. The score of an element is a whole number before its conversion.
pub data Command : Type 0 where
  set : (key data_text : String) → ℤ → Command
  z_add : (key : String) → (score : ℤ) → (member : String) → Command
  r_push : (key value : String) → Command
  expire : (key : String) → (ttl : ℤ) → Command
  h_incr_by : (key field : String) → ℤ → Command

-- `redis.Nil` is the answer `none`. A time to live of 0 is none. `scan` answers the keys that the
-- iterator gives, read ahead of the loop over them, and the error that ended it. `get_all` is a
-- pipeline of `GET`: an entry is `none` where there is no text. `x_read_group` answers the
-- `message_id` of each entry of the stream that has one.
pub record Client : Type 1 where
  pub State : Type 0
  pub set : String → String → ℤ → Action State (Unit {0})
  pub get : String → Action State (Option String)
  pub get_all : List String → Action State (List (Option String))
  pub del : List String → Action State (Unit {0})
  pub exists : String → Action State ℤ
  pub s_add : String → String → Action State (Unit {0})
  pub s_rem : String → String → Action State (Unit {0})
  pub s_members : String → Action State (List String)
  pub incr_by : String → ℤ → Action State (Unit {0})
  pub scan : String → State → (List String × Option Error) × State
  pub z_range : String → ℤ → ℤ → Action State (List String)
  pub z_card : String → Action State ℤ
  pub z_rem_up_to : String → ℤ → Action State ℤ
  pub l_range : String → ℤ → ℤ → Action State (List String)
  pub x_group_create : String → String → Action State (Unit {0})
  pub x_read_group : String → String → String → ℤ → Action State (List String)
  pub exec : List Command → Action State (Unit {0})

-- `json.Marshal` and `json.Unmarshal`
pub record Json (A : Type 0) : Type 0 where
  pub marshal : A → Result String
  pub unmarshal : String → Result A
