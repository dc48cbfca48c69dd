-- ===== src/Lib.antt =====
-- PubSubGo: a message broker. Publishers send messages to topics, each split into partitions; a
-- storage behind interfaces keeps them; subscribers and consumer groups read them and acknowledge
-- or refuse them; refused and timed-out messages are tried again, moved to a dead letter queue or
-- given up. The services reach the storage through internal/ports/repository alone, so a service is
-- modelled as actions on its own state and on any storage, and what is shown holds for every storage.
--
-- How the files go with the code:
-- Queue: pkg/collections/ringbuffer.go, the ring buffer. Queue.antt has the methods; panics of
-- indices and slices are `none`. Queue/Window, Queue/Invariant, Queue/Push, Queue/Pop, Queue/Refine
-- and Queue/Bound hold the proofs.
-- Core: internal/core: Core/Message, Core/Topic, Core/Consumer and Core/Subscription are the entities
-- of message/message.go, topic/topic.go, consumer/consumer.go and subscription/subscription.go.
-- Core/Consumer/Group is about the size of a group and when it is rebalanced.
-- Config: internal/config/config.go, the settings of the broker and `Validate`.
-- Ports: internal/ports/repository, the interfaces, as records of operations on a hidden state, and
-- the formats of Go's library, which are parameters.
-- Ack: internal/services/acknowledgment. Ack/Backoff is the strategies of retry.go, Ack/DeadLetter
-- those of dlq.go, Ack/Messages what a message is made into, Ack/Steps the helpers that store it,
-- Ack/Methods the requests of ack_handler.go, retry.go and dlq.go, Ack/Workers one tick of each
-- background worker, Ack/Reprocess the way back from the dead letter queue, Ack/Setup `NewService`,
-- Ack/Reports the statistics and the workers that run.
-- Ack/Serve runs any sequence of requests and ticks. Ack/Counters, Ack/Fate, Ack/Authority,
-- Ack/RoundTrip and Ack/Revival hold the proofs.
-- Publisher: internal/services/publisher. Publisher/Topics has the topics of publisher.go,
-- Publisher/Service `Publish` and Publisher/Batch `PublishBatch`; Publisher/Hash is the choice of a
-- partition, Publisher/Compression the choice of a compressor in compression.go, Publisher/Entropy the
-- rest of that file and `formatBytes`. Publisher/Counts, Publisher/Outcome and Publisher/Stored hold
-- the proofs.
-- Partitions: internal/services/topic/partition.go. Partitions/Assign has the two ways of assigning,
-- Partitions/Manager the manager's state and methods, Partitions/Rebalance `RebalancePartitions`;
-- Partitions/RoundRobin and Partitions/Safety hold the proofs.
-- Subscriber: internal/services/subscriber. Subscriber/Subscriptions is `Subscribe`, `Unsubscribe`
-- and the reads of subscriptions, Subscriber/Pull the pulls of subscriber.go, Subscriber/Answers the
-- answers to messages, Subscriber/Groups the consumer groups of management.go, Subscriber/Workers
-- their heartbeats and rebalancing in workers.go, Subscriber/Push a tick of a subscription's worker
-- and the cleanup, Subscriber/Rebalance `rebalanceConsumerGroup` and `shouldAssignToConsumer`.
-- Subscriber/Serve runs any sequence of calls and ticks; that a call closes a closed channel, a panic,
-- is kept in the state and ends the run. Subscriber/Delivery, Subscriber/Channels, Subscriber/Kept,
-- Subscriber/Regrouping, Subscriber/Safety, Subscriber/Outcome, Subscriber/Liveness and
-- Subscriber/Shares hold the proofs.
-- Topics: internal/services/topic/topic_manager.go and stats.go, and `GetPartitionInfo` of
-- partition.go. Topics/Requests is what the calls make of their requests, Topics/Service the calls,
-- Topics/Workers a tick of each worker, Topics/Stats the collector with its caches, Topics/Health the
-- health checks and their scores, Topics/Balance how even the loads of partitions are. Topics/Pages,
-- Topics/Scores and Topics/Caching hold the proofs.
-- Redis: internal/adapters/storage/redis, over a client and a JSON library that are parameters:
-- Redis/Client lists the commands, Redis/Entries and Redis/Messages are message_repository.go,
-- Redis/Consumers consumer_repository.go, Redis/Subscriptions subscription_repository.go and
-- Redis/Topics topic_repository.go. Redis/Contract and Redis/Lookup hold the proofs, under what the
-- library documents of the texts under keys.
-- Http: internal/adapters/api/http. Http/Paths and Http/Replies are utils.go, Http/PublishRequests
-- and Http/Publishing the handlers of publisher.go over the publisher service, Http/Acknowledging those of acknowledgment.go and
-- Http/SubscriberRequests and Http/SubscriberCalls those of subscriber.go over the subscriber service,
-- Http/TopicRequests and Http/TopicCalls those of topic.go over the topic service. Http/Routes is how
-- these files choose a handler, Http/Middleware middleware.go and health.go. Http/Accounts and
-- Http/Groups hold the proofs.
-- Websocket: internal/adapters/api/websocket. Websocket/Connections is connection.go, Websocket/Hub the
-- maps of server.go, Websocket/Session, Websocket/Subscribing and Websocket/Handlers what is done with a
-- message of a client in handlers.go, Websocket/Delivery `DeliverMessage`; Websocket/Serve runs any
-- sequence of what the goroutines do. That the channels of a connection are closed twice, a panic, is
-- kept in its state, and so is the end of its write pump; a connection's identifier is computed as the
-- code does, over SHA-256 as a parameter. A pointer to a subscription, which two maps share, is a place in a
-- heap. Websocket/Listeners, Websocket/Consistency, Websocket/Filled, Websocket/Pointers,
-- Websocket/Registry, Websocket/Rounds, Websocket/Answers, Websocket/Messages, Websocket/Reached and
-- Websocket/Leaving hold the proofs.
-- Metrics: internal/adapters/metrics/prometheus/metrics.go, over the library of metrics as a parameter.
-- Metrics/Registered holds the proofs.
-- Server: cmd/server/app.go. Server/Startup is `NewApplication`, with `New` of pkg/tracing/tracer.go and
-- `NewClient` of internal/adapters/storage/redis/client.go, Server/Running `Start` and `Stop`.
-- Server/Lifecycle holds the proofs.
-- Base: what the files share. Base/Int has the integers, Base/Words the wrap-around of `int64` and
-- `int32`, Base/Dicts Go's maps. Result has errors and the actions of methods that may fail.
--
-- Loops are structural recursions over the list that they read, so nothing runs on fuel, but for the
-- loop of `formatBytes`: its seven rounds are enough for any `int64`, since each divides by 1024.
-- A clock is an argument: the calls of `time.Now` in one method read the same instant. Identifiers are drawn
-- from a sequence. Logging is left out. A method's changes are one step: two requests are
-- interleaved only between methods. A Go map is a list of entries in any order.
--
-- Not modelled: the spans of tracing, loading the configuration, the command line, and the
-- libraries of the compression formats and of floating point, which are parameters where the code
-- uses them.
pub mod Base
pub mod Result
pub mod Queue
pub mod Core
pub mod Config
pub mod Ports
pub mod Ack
pub mod Publisher
pub mod Partitions
pub mod Subscriber
pub mod Topics
pub mod Redis
pub mod Http
pub mod Websocket
pub mod Metrics
pub mod Server
