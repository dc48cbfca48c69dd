-- ===== src/Redis/Topics.antt =====
-- internal/adapters/storage/redis/topic_repository.go
use Prim.Native.String.{◌++◌}
use pub_sub_go.Base.{
  String, Bool, Option, none, some, List, [], ◌∷◌, length, take, drop, ◌-◌, if◌then◌else◌,
}
use pub_sub_go.Base.Int.{ℤ, pos, pos_part, ◌+ℤ◌, ltb_ℤ}
use pub_sub_go.Base.Words.{int64}
use pub_sub_go.Core.Topic.{Topic}
use pub_sub_go.Result.{
  Result, plain, ok, err, Action, annotate, pure, raise, ◌>>=◌, ◌>>◌, noting, ignoring, attempt,
}
use pub_sub_go.Ports.{TopicRepository}
use pub_sub_go.Redis.Client.{Client, Json}

module _ {V : Type 0} (client : Client) (json : Json (Topic V)) where
  open client use {State}

  abbrev pub Method : Type 0 → Type 0
  Method A = Action State A

  abbrev pub topic_key : String → String
  topic_key name = "topic:" ++ name

  -- The text of a topic.
  abbrev pub marshalled : Topic V → Method String
  marshalled t s = (annotate "failed to marshal topic" (json.marshal t), s)

  unfoldable pub create : Topic V → Method (Unit {0})
  create t = do
    text ← marshalled t
    noting "failed to store topic" (client.set (topic_key t.name) text (pos 0))
    noting "failed to add topic to set" (client.s_add "topics" t.name)

  -- The topic of a text that was found.
  unfoldable pub parsed : String → Option String → Method (Topic V)
  parsed name none s = raise (plain ("topic not found: " ∷ name ∷ [])) s
  parsed name (some text) s = (annotate "failed to unmarshal topic" (json.unmarshal text), s)

  unfoldable pub get : String → Method (Topic V)
  unfolding parsed
  get name = noting "failed to get topic" (client.get (topic_key name)) >>= parsed name

  unfoldable pub update : Topic V → ℤ → Method (Unit {0})
  update t now = do
    text ← marshalled (record t { updated_at = now })
    noting "failed to update topic" (client.set (topic_key t.name) text (pos 0))

  -- Errors of the deletions are ignored.
  unfoldable pub delete_keys : List String → Method (Unit {0})
  delete_keys [] = pure tt
  delete_keys (k ∷ ks) = ignoring (client.del (k ∷ [])) >> delete_keys ks

  abbrev pub scanned : String → Method (List String)
  scanned pattern s = let r = client.scan pattern s in (ok r.0.0, r.1)

  unfoldable pub remove : String → Method (Unit {0})
  unfolding delete_keys
  remove name = do
    noting "failed to remove topic from set" (client.s_rem "topics" name)
    noting "failed to delete topic" (client.del (topic_key name ∷ []))
    keys ← scanned ("msg:" ++ name ++ ":*")
    delete_keys keys

  -- The topics of the names; one that cannot be read is left out.
  unfoldable pub get_each : List String → Method (List (Topic V))
  unfolding get
  get_each [] = pure []
  get_each (n ∷ ns) = do
    t ← attempt (get n)
    ts ← get_each ns
    elim t [ ok t ↦ pure (t ∷ ts) | err e ↦ pure ts ]

  -- The part of the names from `start` up to `end`. A slice with a negative start or with its end
  -- before its start panics.
  unfoldable pub window : (start end : ℤ) → List String → Result (List String)
  window start end names =
      let n = pos (length names) in
      let stop = if ltb_ℤ n end then n else end in
      if ltb_ℤ n start
      then ok []
      else if ltb_ℤ start (pos 0)
      then err (plain ("runtime error: index out of range" ∷ []))
      else if ltb_ℤ stop start
      then err (plain ("runtime error: makeslice: cap out of range" ∷ []))
      else ok (take (pos_part stop - pos_part start) (drop (pos_part start) names))

  unfoldable pub list : ℤ → ℤ → Method (List (Topic V))
  unfolding get_each window
  list offset limit = do
    names ← noting "failed to list topics" (client.s_members "topics")
    shown ← λ s. (window offset (int64 (offset +ℤ limit)) names, s)
    get_each shown

  unfoldable pub exists : String → Method Bool
  exists name = do
    n ← noting "failed to check topic existence" (client.exists (topic_key name))
    pure (ltb_ℤ (pos 0) n)

  unfoldable pub with_partition : ℤ → List (Topic V) → List (Topic V)
  with_partition partition [] = []
  with_partition partition (t ∷ ts) =
      let rest = with_partition partition ts in
      if ltb_ℤ partition t.partitions then t ∷ rest else rest

  unfoldable pub get_by_partition : ℤ → Method (List (Topic V))
  unfolding list with_partition
  get_by_partition partition = do ts ← list (pos 0) (pos 10000); pure (with_partition partition ts)

  unfoldable pub increment_message_count : String → ℤ → Method (Unit {0})
  increment_message_count name delta =
      noting "failed to increment message count"
        (client.incr_by ("topic:stats:" ++ name ++ ":messages") delta)

  -- `NewTopicRepository`. The instant of an update is the clock's at the call.
  unfoldable pub new_topic_repository : (now : ℤ) → TopicRepository V
  unfolding create get update remove list exists
  new_topic_repository now = record {
    State = State;
    create = create;
    get = get;
    update = λ t. update t now;
    remove = remove;
    list = list;
    exists = exists;
  }
