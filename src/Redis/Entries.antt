-- ===== src/Redis/Entries.antt =====
-- internal/adapters/storage/redis/message_repository.go: the keys of messages, and which messages the
-- repository picks and changes.
use Prim.Native.String.{◌++◌}
use pub_sub_go.Base.{◌*◌, ◌^◌, String, Bool, false, ◌&&◌, none, some, List, [], ◌∷◌, if◌then◌else◌}
use pub_sub_go.Base.Int.{ℤ, pos, ◌-ℤ◌, ltb_ℤ, leb_ℤ}
use pub_sub_go.Base.Words.{inc64}
use pub_sub_go.Core.Message.{Message, Acknowledgment, acknowledged, failed, is_failed, is_delivered}
use pub_sub_go.Redis.Client.{Command, expire}

abbrev pub day : ℤ
day = pos (24 * 3600 * 10 ^ 9)

abbrev pub message_key : String → String
message_key id = "msg:" ++ id

abbrev pub topic_key : String → String
topic_key topic = "topic:" ++ topic ++ ":messages"

-- A time to live for a message that expires later.
unfoldable pub expiration : Message → ℤ → List Command
expiration m now = elim m.expires_at [
  | none ↦ []
  | some t ↦
      let ttl = t -ℤ now in if ltb_ℤ (pos 0) ttl then expire (message_key m.id) ttl ∷ [] else []
]

-- The failed messages with as many tries behind them as the limit, or more.
unfoldable pub failed_of : ℤ → List Message → List Message
failed_of max_retries [] = []
failed_of max_retries (m ∷ ms) =
    let rest = failed_of max_retries ms in
    if is_failed m.status && leb_ℤ max_retries m.retry_count then m ∷ rest else rest

-- The delivered messages that wait longer than the deadline.
unfoldable pub unacknowledged_of : ℤ → ℤ → List Message → List Message
unacknowledged_of now deadline [] = []
unacknowledged_of now deadline (m ∷ ms) =
    let rest = unacknowledged_of now deadline ms in
    let late : Bool = elim m.delivered_at [ none ↦ false | some t ↦ ltb_ℤ deadline (now -ℤ t) ] in
    if is_delivered m.status && late then m ∷ rest else rest

unfoldable pub acknowledged_message : Acknowledgment → ℤ → Message → Message
acknowledged_message ack now m =
    if ack.success
    then record m { status = acknowledged; acked_at = some now }
    else record m { status = failed; retry_count = inc64 m.retry_count }
