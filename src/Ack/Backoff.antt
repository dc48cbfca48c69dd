-- ===== src/Ack/Backoff.antt =====
-- internal/services/acknowledgment/retry.go: when a message is tried again, and after how long.
use pub_sub_go.Base.{Bool, if◌then◌else◌}
use pub_sub_go.Base.Int.{ℤ, pos, ◌-ℤ◌, ◌*ℤ◌, leb_ℤ, ltb_ℤ, rem_ℤ}
use pub_sub_go.Base.Words.{int64, add64}
use pub_sub_go.Config.{BrokerConfig}
use pub_sub_go.Core.Message.{Message}

-- `RetryStrategy`. The last argument of `get_retry_delay` is the clock's nanoseconds.
pub record RetryStrategy : Type 0 where
  pub should_retry : Message → ℤ → Bool
  pub get_retry_delay : Message → ℤ → ℤ → ℤ
  pub get_max_retries : Message → ℤ

-- `float64` and the functions of it that the backoff uses; Go's library is not modelled.
pub record Float64 : Type 1 where
  pub Float : Type 0
  pub of_int : ℤ → Float
  pub tenths : ℤ → Float
  pub add : Float → Float → Float
  pub sub : Float → Float → Float
  pub mul : Float → Float → Float
  pub div : Float → Float → Float
  pub pow : Float → Float → Float
  pub gt : Float → Float → Bool
  pub to_int : Float → ℤ

-- The body that `GetMaxRetries` has in all three strategies, and that of `ShouldRetry`.
unfoldable pub max_retries_of : ℤ → Message → ℤ
max_retries_of default m = if ltb_ℤ (pos 0) m.max_retries then m.max_retries else default

unfoldable pub within_retries : ℤ → Message → ℤ → Bool
unfolding max_retries_of
within_retries default m attempt = leb_ℤ attempt (max_retries_of default m)

module _ (fl : Float64) where
  open fl use {Float, of_int, tenths, add, sub, mul, div, pow, gt, to_int}

  pub record ExponentialBackoffRetry : Type 0 where
    pub base_delay : ℤ
    pub max_delay : ℤ
    pub max_retries : ℤ
    pub multiplier : Float
    pub jitter_factor : Float

  unfoldable pub new_exponential_backoff_retry : BrokerConfig → ExponentialBackoffRetry
  new_exponential_backoff_retry c = record {
    base_delay = c.retry_backoff;
    max_delay = int64 (c.retry_backoff *ℤ pos 60);
    max_retries = c.max_retries;
    multiplier = of_int (pos 2);
    jitter_factor = tenths (pos 1);
  }

  unfoldable pub exponential_retry_delay : ExponentialBackoffRetry → ℤ → ℤ → ℤ
  exponential_retry_delay r attempt nano =
      if leb_ℤ attempt (pos 0)
      then r.base_delay
      else let delay =
          mul (of_int r.base_delay) (pow r.multiplier (of_int (int64 (attempt -ℤ pos 1)))) in
        let share = div (mul (of_int (pos 2)) (of_int (rem_ℤ nano 1000))) (of_int (pos 1000)) in
        let jitter = mul (mul delay r.jitter_factor) (sub share (of_int (pos 1))) in
        let jittered = add delay jitter in
        to_int (if gt jittered (of_int r.max_delay) then of_int r.max_delay else jittered)

  unfoldable pub exponential : ExponentialBackoffRetry → RetryStrategy
  unfolding within_retries exponential_retry_delay
  exponential r = record {
    should_retry = within_retries r.max_retries;
    get_retry_delay = λ m. exponential_retry_delay r;
    get_max_retries = max_retries_of r.max_retries;
  }

pub record LinearBackoffRetry : Type 0 where
  pub base_delay : ℤ
  pub increment : ℤ
  pub max_delay : ℤ
  pub max_retries : ℤ

unfoldable pub new_linear_backoff_retry : BrokerConfig → LinearBackoffRetry
new_linear_backoff_retry c = record {
  base_delay = c.retry_backoff;
  increment = c.retry_backoff;
  max_delay = int64 (c.retry_backoff *ℤ pos 10);
  max_retries = c.max_retries;
}

unfoldable pub linear_retry_delay : LinearBackoffRetry → ℤ → ℤ
linear_retry_delay r attempt =
    let delay = add64 r.base_delay (int64 (int64 (attempt -ℤ pos 1) *ℤ r.increment)) in
    if ltb_ℤ r.max_delay delay then r.max_delay else delay

unfoldable pub linear : LinearBackoffRetry → RetryStrategy
unfolding within_retries linear_retry_delay
linear r = record {
  should_retry = within_retries r.max_retries;
  get_retry_delay = λ m attempt nano. linear_retry_delay r attempt;
  get_max_retries = max_retries_of r.max_retries;
}

pub record FixedDelayRetry : Type 0 where
  pub delay : ℤ
  pub max_retries : ℤ

unfoldable pub new_fixed_delay_retry : BrokerConfig → FixedDelayRetry
new_fixed_delay_retry c = record { delay = c.retry_backoff; max_retries = c.max_retries }

unfoldable pub fixed : FixedDelayRetry → RetryStrategy
unfolding within_retries
fixed r = record {
  should_retry = within_retries r.max_retries;
  get_retry_delay = λ m attempt nano. r.delay;
  get_max_retries = max_retries_of r.max_retries;
}
