-- ===== src/Redis/Consumers.antt =====
-- internal/adapters/storage/redis/consumer_repository.go
use Prim.Native.String.{◌++◌}
use pub_sub_go.Base.{
  ◌*◌, ◌^◌, String, Bool, not, ◌&&◌, Option, none, some, List, [], ◌∷◌, insert, delete, ◌==◌,
  if◌then◌else◌,
}
use pub_sub_go.Base.Int.{ℤ, pos, ◌-ℤ◌, ltb_ℤ}
use pub_sub_go.Core.Consumer.{Consumer, ConsumerGroup, active, is_active}
use pub_sub_go.Result.{
  plain, ok, err, Action, annotate, pure, raise, ◌>>=◌, ◌>>◌, noting, ignoring, attempt, ok_or,
}
use pub_sub_go.Ports.{ConsumerGroupRepository}
use pub_sub_go.Redis.Client.{Client, Json}

module _ (client : Client) (groups : Json ConsumerGroup) (consumers : Json Consumer) where
  open client use {State}

  abbrev pub Method : Type 0 → Type 0
  Method A = Action State A

  abbrev pub group_key : String → String
  group_key name = "consumergroup:" ++ name

  abbrev pub consumer_key : String → String → String
  consumer_key name id = "consumer:" ++ name ++ ":" ++ id

  abbrev pub consumers_key : String → String
  consumers_key name = "consumergroup:" ++ name ++ ":consumers"

  abbrev pub topic_set : String → String
  topic_set topic = "topic:" ++ topic ++ ":consumergroups"

  abbrev pub group_text : ConsumerGroup → Method String
  group_text g s = (annotate "failed to marshal consumer group" (groups.marshal g), s)

  abbrev pub consumer_text : Consumer → Method String
  consumer_text c s = (annotate "failed to marshal consumer" (consumers.marshal c), s)

  unfoldable pub create_group : ConsumerGroup → Method (Unit {0})
  create_group g = do
    text ← group_text g
    noting "failed to store consumer group" (client.set (group_key g.name) text (pos 0))
    noting "failed to add consumer group to set" (client.s_add "consumergroups" g.name)
    noting "failed to add consumer group to topic" (client.s_add (topic_set g.topic) g.name)

  unfoldable pub parsed_group : String → Option String → Method ConsumerGroup
  parsed_group name none s = raise (plain ("consumer group not found: " ∷ name ∷ [])) s
  parsed_group name (some text) s =
      (annotate "failed to unmarshal consumer group" (groups.unmarshal text), s)

  unfoldable pub get_group : String → Method ConsumerGroup
  unfolding parsed_group
  get_group name =
      noting "failed to get consumer group" (client.get (group_key name)) >>= parsed_group name

  unfoldable pub update_group : ConsumerGroup → ℤ → Method (Unit {0})
  update_group g now = do
    text ← group_text (record g { updated_at = now })
    noting "failed to update consumer group" (client.set (group_key g.name) text (pos 0))

  unfoldable pub add_consumer : String → Consumer → ℤ → Method (Unit {0})
  unfolding get_group update_group
  add_consumer name c now = do
    text ← consumer_text c
    noting "failed to store consumer" (client.set (consumer_key name c.id) text (pos 0))
    noting "failed to add consumer to group" (client.s_add (consumers_key name) c.id)
    g ← get_group name
    update_group (record g { consumers = insert c.id c g.consumers }) now

  unfoldable pub remove_consumer : String → String → ℤ → Method (Unit {0})
  unfolding get_group update_group
  remove_consumer name id now = do
    noting "failed to remove consumer from group" (client.s_rem (consumers_key name) id)
    noting "failed to delete consumer" (client.del (consumer_key name id ∷ []))
    g ← get_group name
    update_group (record g { consumers = delete id g.consumers }) now

  -- Errors of the removals are ignored.
  unfoldable pub remove_consumers : String → List String → ℤ → Method (Unit {0})
  unfolding remove_consumer
  remove_consumers name [] now = pure tt
  remove_consumers name (id ∷ ids) now =
      ignoring (remove_consumer name id now) >> remove_consumers name ids now

  unfoldable pub delete_group : String → ℤ → Method (Unit {0})
  unfolding get_group remove_consumers
  delete_group name now = do
    g ← get_group name
    noting "failed to remove consumer group from set" (client.s_rem "consumergroups" name)
    noting "failed to remove consumer group from topic" (client.s_rem (topic_set g.topic) name)
    ids ← attempt (client.s_members (consumers_key name))
    remove_consumers name (ok_or [] ids) now
    noting "failed to delete consumer group" (client.del (group_key name ∷ consumers_key name ∷ []))

  -- The groups of the names; one that cannot be read is left out.
  unfoldable pub get_each : List String → Method (List ConsumerGroup)
  unfolding get_group
  get_each [] = pure []
  get_each (n ∷ ns) = do
    g ← attempt (get_group n)
    gs ← get_each ns
    elim g [ ok g ↦ pure (g ∷ gs) | err e ↦ pure gs ]

  unfoldable pub get_groups_by_topic : String → Method (List ConsumerGroup)
  unfolding get_each
  get_groups_by_topic topic = do
    names ← noting "failed to get consumer groups for topic" (client.s_members (topic_set topic))
    get_each names

  unfoldable pub list_groups : String → Method (List ConsumerGroup)
  unfolding get_groups_by_topic
  list_groups topic =
      if not (topic == "")
      then get_groups_by_topic topic
      else noting "failed to list consumer groups" (client.s_members "consumergroups") >>= get_each

  unfoldable pub parsed_consumer : String → String → Option String → Method Consumer
  parsed_consumer name id none s =
      raise (plain ("consumer not found: " ∷ id ∷ " in group " ∷ name ∷ [])) s
  parsed_consumer name id (some text) s =
      (annotate "failed to unmarshal consumer" (consumers.unmarshal text), s)

  unfoldable pub get_consumer : String → String → Method Consumer
  unfolding parsed_consumer
  get_consumer name id =
      noting "failed to get consumer" (client.get (consumer_key name id))
      >>= parsed_consumer name id

  unfoldable pub update_consumer_heartbeat : String → String → ℤ → Method (Unit {0})
  unfolding get_consumer
  update_consumer_heartbeat name id now = do
    c ← get_consumer name id
    text ← consumer_text (record c { last_heartbeat = now; status = active })
    noting "failed to update consumer heartbeat" (client.set (consumer_key name id) text (pos 0))

  -- Active, with a heartbeat after the instant 30 seconds ago.
  abbrev pub is_alive : ℤ → Consumer → Bool
  is_alive now c = is_active c.status && ltb_ℤ (now -ℤ pos (30 * 10 ^ 9)) c.last_heartbeat

  unfoldable pub alive_each : ℤ → String → List String → Method (List Consumer)
  unfolding get_consumer
  alive_each now name [] = pure []
  alive_each now name (id ∷ ids) = do
    c ← attempt (get_consumer name id)
    cs ← alive_each now name ids
    elim c [ err e ↦ pure cs | ok c ↦ pure (if is_alive now c then c ∷ cs else cs) ]

  unfoldable pub get_active_consumers : String → ℤ → Method (List Consumer)
  unfolding alive_each
  get_active_consumers name now = do
    ids ← noting "failed to get consumers for group" (client.s_members (consumers_key name))
    alive_each now name ids

  -- `NewConsumerGroupRepository`. The instant of a call is the clock's.
  unfoldable pub new_consumer_group_repository : (now : ℤ) → ConsumerGroupRepository
  unfolding create_group get_group update_group delete_group list_groups add_consumer
      remove_consumer update_consumer_heartbeat get_active_consumers
  new_consumer_group_repository now = record {
    State = State;
    create_group = create_group;
    get_group = get_group;
    update_group = λ g. update_group g now;
    delete_group = λ name. delete_group name now;
    list_groups = list_groups;
    add_consumer = λ name c. add_consumer name c now;
    remove_consumer = λ name id. remove_consumer name id now;
    update_consumer_heartbeat = λ name id. update_consumer_heartbeat name id now;
    get_active_consumers = λ name. get_active_consumers name now;
  }
