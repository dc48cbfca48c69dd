-- ===== src/Core/Consumer.antt =====
-- internal/core/consumer/consumer.go. A method holds the group's lock for its whole body. A loop over
-- the map runs over the dictionary in its order, which stands for any order: the theorems hold for
-- every dictionary.
pub mod Group
use pub_sub_go.Base.{
  ℕ, ◌*◌, ◌^◌, String, Bool, true, false, List, [], ◌∷◌, Dict, insert, delete, length,
  if◌then◌else◌, Option,
}
use pub_sub_go.Base.Int.{ℤ, pos, ◌-ℤ◌, leb_ℤ, ltb_ℤ}

pub data ConsumerStatus : Type 0 where
  active inactive rebalancing : ConsumerStatus

abbrev pub is_active : ConsumerStatus → Bool
is_active active = true
is_active _ = false

abbrev pub is_rebalancing : ConsumerStatus → Bool
is_rebalancing rebalancing = true
is_rebalancing _ = false

pub record Consumer : Type 0 where
  pub id : String
  pub group_id : String
  pub partitions : List ℤ
  pub last_heartbeat : ℤ
  pub status : ConsumerStatus
  pub metadata : Dict String

pub record ConsumerGroup : Type 0 where
  pub name : String
  pub topic : String
  pub consumers : Dict Consumer
  pub rebalance_method : String
  pub max_consumers : ℤ
  pub created_at : ℤ
  pub updated_at : ℤ

unfoldable pub new_consumer_group : String → String → ℤ → ConsumerGroup
new_consumer_group name topic now = record {
  name = name;
  topic = topic;
  consumers = [];
  rebalance_method = "range";
  max_consumers = pos 100;
  created_at = now;
  updated_at = now;
}

pub add_consumer : ConsumerGroup → Consumer → ℤ → ConsumerGroup × Bool
add_consumer g c now =
    if leb_ℤ g.max_consumers (pos (length g.consumers))
    then (g, false)
    else (record g { consumers = insert c.id c g.consumers; updated_at = now }, true)

pub remove_consumer : ConsumerGroup → String → ℤ → ConsumerGroup
remove_consumer g id now = record g { consumers = delete id g.consumers; updated_at = now }

pub active_of : Dict Consumer → List Consumer
active_of [] = []
active_of ((k, c) ∷ rest) = let cs = active_of rest in if is_active c.status then c ∷ cs else cs

pub get_active_consumers : ConsumerGroup → List Consumer
unfolding active_of
get_active_consumers g = active_of g.consumers

-- A consumer is dead when its last heartbeat is more than 30 seconds old.
abbrev pub is_dead : ℤ → Consumer → Bool
is_dead now c = ltb_ℤ (pos (30 * 10 ^ 9)) (now -ℤ c.last_heartbeat)

pub needs_rebalance_of : ℤ → Dict Consumer → Bool
needs_rebalance_of now [] = false
needs_rebalance_of now ((k, c) ∷ rest) =
    let next = needs_rebalance_of now rest in
    if is_rebalancing c.status then false else if is_dead now c then true else next

pub needs_rebalance : ConsumerGroup → ℤ → Bool
unfolding needs_rebalance_of
needs_rebalance g now = needs_rebalance_of now g.consumers
