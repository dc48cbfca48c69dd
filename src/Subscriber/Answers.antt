-- ===== src/Subscriber/Answers.antt =====
-- internal/services/subscriber/subscriber.go: answering for messages, and the goroutines that pulls
-- start.
use pub_sub_go.Base.{true, false}
use pub_sub_go.Base.Int.{ℤ}
use pub_sub_go.Result.{noting, ignoring}
use pub_sub_go.Subscriber.Types.{
  AcknowledgeRequest, NackRequest, Env, Task, store, mark_delivered, with_messages,
}
use pub_sub_go.Subscriber.Pull.{Method}

module _ {V : Type 0} (env : Env V) where
  open env use {message_repo}

  unfoldable pub acknowledge : AcknowledgeRequest → ℤ → Method env (Unit {0})
  acknowledge req now = noting "failed to acknowledge message" (
      with_messages (
        message_repo.acknowledge (record {
          message_id = req.message_id;
          consumer_id = req.consumer_id;
          consumer_group = req.consumer_group;
          success = true;
          reason = "";
          timestamp = now;
        })))

  -- `Retry` is only logged.
  unfoldable pub negative_acknowledge : NackRequest → ℤ → Method env (Unit {0})
  negative_acknowledge req now = noting "failed to negative acknowledge message" (
      with_messages (
        message_repo.acknowledge (record {
          message_id = req.message_id;
          consumer_id = req.consumer_id;
          consumer_group = req.consumer_group;
          success = false;
          reason = req.reason;
          timestamp = now;
        })))

  -- A goroutine runs: its error is logged.
  unfoldable pub run_task : Task → Method env (Unit {0})
  run_task (store m) = ignoring (with_messages (message_repo.store m))
  run_task (mark_delivered id consumer_id) =
      ignoring (with_messages (message_repo.mark_delivered id consumer_id))
