-- ===== src/Ack/Setup.antt =====
-- internal/services/acknowledgment/ack_handler.go: `NewService`, its environment and its first state.
use pub_sub_go.Base.{ℕ, String, []}
use pub_sub_go.Base.Int.{ℤ, pos}
use pub_sub_go.Config.{BrokerConfig}
use pub_sub_go.Ports.{MessageRepository, Formats}
use pub_sub_go.Ack.Backoff.{Float64, exponential, new_exponential_backoff_retry}
use pub_sub_go.Ack.DeadLetter.{default_dlq, new_default_dlq_strategy}
use pub_sub_go.Ack.Types.{Env, Service}

unfoldable pub new_env : Float64 → MessageRepository → Formats → (ℕ → String) → BrokerConfig → Env
unfolding exponential new_exponential_backoff_retry default_dlq new_default_dlq_strategy
new_env fl messages formats uuid config = record {
  messages = messages;
  formats = formats;
  uuid = uuid;
  config = config;
  retry_strategy = exponential fl (new_exponential_backoff_retry fl config);
  dlq_strategy = default_dlq formats (new_default_dlq_strategy config);
}

unfoldable pub new_service : {R : Type 0} → R → ℤ → Service R
new_service repo now = record {
  repo = repo;
  pending_acks = [];
  stats = record {
    acknowledged = pos 0;
    nacked = pos 0;
    requeued = pos 0;
    dlq = pos 0;
    expired = pos 0;
    processing_times = [];
    last_reset = now;
  };
  drawn = 0;
}
