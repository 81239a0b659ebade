-- ===== src/Lib.antt =====
-- A model of chain-indexer-framework, the library that reads blocks from an EVM node, produces them
-- to Kafka, transforms and consumes them. The program is event-driven TypeScript; here a class is a
-- record of the fields that its code changes, a method is a function to the new record and its
-- result, and a method that awaits is cut into steps where other listeners may run.
--
-- Parts, and the files that model them (paths from the repository's root):
-- - Queue: the buffer of internal/queue/queue.ts. The consumers, the subscriptions and the block
--   producer keep one. Queue/Refines relates it to a plain list.
-- - Errors: internal/errors. Value has what a catch may bind, Classes the constructors, Convert the
--   conversions that every other part calls when it catches.
-- - Store: internal/block_producers/produced_blocks_model.ts. MongoDB is an argument (Collection)
--   with what is taken of it (Documented); Memory is an instance that meets it.
-- - Producer: internal/block_producers/block_producer.ts. StartBlock has getStartBlock and
--   checkIfBlocksSynced, Deliveries the delivered listener, processQueue and addBlockToMongo,
--   Restart onError and restartBlockProducer, Life start, stop, the next observer and produceBlock,
--   Overlap errors that come while a restart runs.
-- - Consumer: internal/kafka/consumer. State has the fields of AbstractConsumer and its calls to the
--   outside, Steps processQueue, commits, back pressure and errors, Receiving onData, Connection
--   createConnection and start, Attempts retryPromise of the asynchronous consumer, Overlap messages
--   that are decoded at the same time.
-- - Subscription: internal/block_subscription. Live has the listeners, subscribe, processQueue and
--   unsubscribe of AbstractBlockSubscription, Silence checkIfLive, BackFill backFillBlocks and addWorkerJobToQueue of
--   BlockSubscription, Polling startBlockPolling of BlockPoller, Erigon the poller
--   ErigonBlockPoller, Workers the worker threads of both with what replaces one that exits. The
--   block producer starts it where getStartBlock says; Producer/Resumption puts the two together.
-- - KafkaProducer: internal/kafka/producer. Sending has AbstractProducer, Delivery the promise of
--   produceEvent of SynchronousProducer, Asynchronous AsynchronousProducer, Connecting calls of start
--   that overlap.
-- - Formatter: internal/formatters and the shapes of internal/interfaces. Types has the records, Format
--   the methods of BlockFormatter, Reading a reader of its results. Long and web3-utils are an
--   argument (Libraries).
-- - Getter: internal/block_getters. Node is the node behind web3, an argument, and the catch blocks
--   that try again; Base has BlockGetter, Erigon ErigonBlockGetter, QuickNode QuickNodeBlockGetter,
--   which all use the Formatter, and Worker the workers that answer getBlockFromWorker of Subscription.
-- - Coder: internal/coder/protobuf_coder.ts, with which messages are written and read. protobufjs is an
--   argument (Protobuf).
-- - Transform: internal/data_transformation, between a consumer and a producer. Data has onData,
--   Closing the restart after the consumer has closed, and the observer of internal/event_consumer.
-- - Public: public/kafka/consumer and public/kafka/producer, whose constructors make a Coder for each
--   topic of a consumer and for a producer.
-- - Settings: the constructors of public/block_producers, internal/kafka and
--   internal/block_producers, which take a configuration apart before node-rdkafka gets the rest of
--   it, and produce, consume and transform, which choose the class. Clients has all classes.
-- - Services: internal/mongo, of which a process has one Database, internal/logger with its one
--   logger, and the request of internal/rpc.
--
-- Numbers are whole: block numbers and error codes are ℤ, positions in a queue ℕ. Loops of the source
-- that count recur on the rounds left: getStartBlock on maxReOrgDepth, addBlockToMongo on its four
-- retries, commits and retryPromise on maxRetries - errorCount, the getters on the tries left; while
-- loops over a queue are steps, one for each await.
-- Not modelled: third-party code (librdkafka, web3, mongoose, protobufjs, winston, axios), which is an
-- argument where its results matter; what a worker sets up, and timers; the texts that are logged;
-- a backfill that still awaits a promise when another one begins.
pub mod Prelude
pub mod Queue
pub mod Errors
pub mod Store
pub mod Formatter
pub mod Getter
pub mod Coder
pub mod Transform
pub mod Settings
pub mod Services
pub mod Public
pub mod Producer
pub mod Consumer
pub mod Subscription
pub mod KafkaProducer
