-- ===== src/Lib.antt =====
-- KiwiGuard: a gateway that inspects the traffic between clients and language models.
--
-- A request passes through the gateway (internal/contexts/gateway). Its text is evaluated by a
-- snapshot of compiled policy bundles (internal/contexts/policy), whose rules run detectors
-- (internal/contexts/detection) on it; the decision, raised by a model's verdict where that is
-- stricter, lets the text pass, redacts spans of it, or blocks it. The response goes the same way.
--
-- Common: numbers, lists, maps as association lists, results, sorting, and UTF-8 as Go reads it.
--   A Go string that only identifies something is a `String`; a text that is scanned, cut or
--   redacted is a list of its bytes. A Go int that may be negative is a `ℤ`.
-- Detection (internal/contexts/detection/domain): types.go, regex.go and pii.go. `compile` is
--   `Compile`, `match` a detector's `Match`, `match_all` that of a registry. An `Engine` stands for
--   `regexp`, `crypto/sha256` and `unicode`, which are not part of the program.
--   Detection.Luhn is luhn.go.
-- Policy (internal/contexts/policy/domain): Policy.Types is types.go and the order of the actions;
--   Policy.Compile, Policy.Canonical and Policy.Evaluate are the parts of snapshot.go. The closure
--   of `Evaluate` is a function on the record of the variables it assigns; a nil snapshot is `none`.
--   The JSON text of the bundles and its SHA-256 are the parameter `digest`. Policy.Candidates is
--   about the scope index and Policy.Caching about the cache of findings.
-- Clients (internal/contexts/clients/domain): key.go and the statuses of types.go. SHA-256, the
--   encodings and what the random reader gives are parameters.
-- Verdict (internal/contexts/verdict/domain): types.go, fallback.go and deterministic.go. A provider is
--   a function from requests to a result beside an optional error; a request's metadata, which the
--   gateway never sets, is left out.
-- Gateway (internal/contexts/gateway/application): Gateway.Types is types.go, Gateway.Lifecycle
--   lifecycle.go, Gateway.Plans the use cases that plan the steps of an exchange, and
--   Gateway.Redaction redaction.go. `sort.Slice` is an insertion sort; where Go may leave
--   equal elements in another order, the model fixes one. Gateway.Streaming is
--   stream_buffer.go and streaming_output.go, and Gateway.Limits the limits of
--   internal/contexts/gateway/adapters/http/openai/limits.go: the mutex makes each call one step,
--   a release closure is its key with the state of its `sync.Once`, and a time is the number of
--   nanoseconds since Go's zero time. Gateway.Admission and Gateway.ModelSignal are usecases.go; a
--   nil interface is `none`, and one that holds a nil snapshot is `some none`. Gateway.Evaluation is traffic_evaluation.go: the times that pass and the
--   causes for which contexts end are arguments, and the result of a shadow stands beside what is
--   enforced. Gateway.Authentication is
--   internal/contexts/gateway/adapters/http/openai/client_auth.go, the authenticator of the admission.
--   Gateway.Exchange is exchange_workflow.go and, beside client_auth.go, openai_exchange.go and
--   request_admission.go: what the reading and decoding of a request's body gives is part of the
--   request, and the operations after the preparation are parameters.
--
--   Gateway.Streaming.Session is the loop of `handleStreaming` in
--   internal/contexts/gateway/adapters/http/openai/streaming_handler.go: the results of the parser are
--   a list, and the JSON text of a frame, the policy and the client's writes are parameters. What is
--   written beside whole frames stands with its place among them, and `sent` is all in order.
--   Gateway.Streaming.Sse is sse.go beside it: the reader is the lines that it still holds, and
--   `strings.TrimSpace` a parameter. Gateway.Streaming.Relaying puts the parser before the loop.
--   Gateway.Configuration is gateway_config.go beside them: the limits, the model mappings, the
--   routes, whose type is in internal/contexts/routing/domain/types.go, the providers, the verdict
--   providers, and in Gateway.Configuration.Building `BuildConfig`. The resolver of credentials is a
--   parameter, and a set of keys is a list.
-- Traffic (internal/contexts/traffic): Traffic.Types is domain/types.go. Traffic.Pipeline is
--   adapters/events/pipeline.go and health.go: the channel is a list, a counter wraps at 2 ^ 64, and
--   a sink is a record whose `write_batch` also returns the batch, which the sink may change.
--   Traffic.Pipeline.Delivery has the steps of the gateway and of the flusher in any order.
--   Traffic.Durable is durable_sink.go, with the spool as an interface; what its calls accept and
--   acknowledge is noted by sinks and spools that wrap the given ones.
-- Runtime (internal/contexts/runtime): Runtime.Types is application/types.go, Runtime.State
--   state.go, Runtime.Reloading application/usecases.go and Runtime.Watching watcher.go. What the
--   repository answers is part of each signal.
-- Control (internal/contexts/control/application): Control.Types, Control.Ports and Control.Validation
--   are types.go, Control.Memory is memory.go and Control.Service usecases.go. A repository is a
--   record of functions on a state; the one in memory keeps each map as an association list, in the
--   order in which it is listed. A run is a list of calls on the service, in the order of the lock;
--   an activation, which takes it twice, is one call.
-- The control plane stores the bundles that it has compiled with the policy's compiler. The gateway
-- admits the clients whose keys the registry knows, and emits its events into the pipeline, which
-- writes them into the durable sink; and the watcher publishes the runtime whose routes, clients and
-- policies the gateway reads.
--
-- The loops are structural, but for the rounds of a flush: their fuel is one more than the number
-- of events in the channel, and every round but the last takes at least one. The calls of the SSE
-- parser have as many as there are lines and three more. The digits of a client's number have its
-- successor, which counts no fewer than there are digits. Integers are unbounded, since the
-- quantities here (lengths, offsets, counts of an HTTP message) are far below 2 ^ 63, but for the
-- counters of dropped events and of retries, which wrap. Not modelled: the rest of the HTTP
-- transport, the JSON shapes of the protocol and the stores, which are input and output; tickers,
-- goroutines and contexts, of which only the order of the steps and the errors remain; and the
-- control plane's HTTP API and database, the calls to the HTTP verdict providers, the
-- classification of an exchange's events, the file spool and the retention maintainer.
pub mod Common
pub mod Clients
pub mod Detection
pub mod Policy
pub mod Verdict
pub mod Gateway
pub mod Traffic
pub mod Runtime
pub mod Control
