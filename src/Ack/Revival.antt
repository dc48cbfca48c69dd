-- ===== src/Ack/Revival.antt =====
-- What a tick of `retryWorker` does with a message that was given up.
use pub_sub_go.Core.Message.{Message}
use pub_sub_go.Ack.Types.{Service}
