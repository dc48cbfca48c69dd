-- ===== src/Topics/Samples.antt =====
-- A store of one topic and numbers in place of floats, for the tests of the topics' service.
use pub_sub_go.Base.{ℕ, true, false, none, [], ◌∷◌}
use pub_sub_go.Base.Int.{ℤ, pos, ◌+ℤ◌, ◌-ℤ◌, ◌*ℤ◌, ltb_ℤ, leb_ℤ, eqb_ℤ}
use pub_sub_go.Publisher.Samples.{config, topic_at}
use pub_sub_go.Ports.{TopicRepository}
use pub_sub_go.Result.{ok}
use pub_sub_go.Topics.Types.{Floats, CreateTopicRequest, ListTopicsRequest, Env, Service}
use pub_sub_go.Topics.Workers.{new_service}

-- Whole numbers, with a division that leaves the dividend.
abbrev pub whole : Floats
whole = record {
  Float = ℤ;
  of_int = λ n. n;
  tenths = λ n. n;
  add = λ a b. a +ℤ b;
  sub = λ a b. a -ℤ b;
  mul = λ a b. a *ℤ b;
  div = λ a b. a;
  sqrt = λ a. a;
  gt = λ a b. ltb_ℤ b a;
  ge = λ a b. leb_ℤ b a;
  le = leb_ℤ;
  eq = eqb_ℤ;
  percent = λ a. "";
}

-- The topic, which has the name that is asked for.
abbrev pub any_name : TopicRepository ℕ
any_name = record {
  State = ℤ;
  create = λ t s. (ok tt, t.partitions);
  get = λ name s. (ok (record (topic_at s) { name = name }), s);
  update = λ t s. (ok tt, t.partitions);
  remove = λ name s. (ok tt, s);
  list = λ offset limit s. (ok (topic_at s ∷ topic_at s ∷ []), s);
  exists = λ name s. (ok false, s);
}

abbrev pub env : Env ℕ
env = record {
  topic_repo = any_name;
  floats = whole;
  config = config;
  to_lower = λ s. s;
  contains = λ s t. true;
  hour_of = λ t. pos 1;
}

abbrev pub creation : CreateTopicRequest ℕ
creation = record {
  name = "orders";
  partitions = pos 2;
  replication = pos 0;
  retention_time = pos 0;
  max_size = pos 0;
  config = none;
}

abbrev pub first_page : ListTopicsRequest
first_page = record { offset = pos 0; limit = pos 1; filter = "" }

unfoldable pub service : Service ℕ ℤ ℤ
unfolding new_service
service = new_service (pos 2)
