-- ===== src/Lib.antt =====
-- This library models the Go plugins of cpa-plugins: embeddings-forward, which forwards embedding, rerank
-- and decision requests to configured providers, commandcode, which serves OpenAI chat completions from
-- Command Code, and chatgpt-backend, which plans the proxying of requests to ChatGPT. The host calls a plugin through a C ABI; the cgo shims have no
-- logic of their own and are left out.
--
-- Forward models embeddings-forward/. A request is resolved to the providers that serve its model
-- (Config, config.go: resolve) of a configuration that was checked (Normalize, config.go: normalize,
-- parseConfig), the providers are ordered and each one's keys rotated (Keys, forward.go:
-- keyState, ordered, cool, allCooling, order), and the requests are made key by key and provider by
-- provider (Calls, forward.go: tryProvider, forward). A decisions request is split into batches and
-- its answers merged (Decisions, decisions.go: split, decide; Objects: orderedObject, encodeObject;
-- Bodies: decisionBody, stringInstructions, referencedAssets; Merged: mergeDecisions, sumUsage). The result
-- becomes the client's response (Responses, forward.go: clientResponse). Handler puts these together
-- (plugin.go: Call, handle, dangerZoneHeaders). The handler's state, the requests sent,
-- the readings of the clock and the log are one record, World, that each call takes and returns. The
-- clock and the host's HTTP call are parameters, functions of what happened so far; `none` from the
-- host is a failed call. A body is the text of its bytes.
--
-- CommandCode models commandcode/. Request is what a client's request becomes (protocol.go:
-- buildCommandCodePayload, commandCodeMessagesFromOpenAI, commandCodeUserContent and their helpers), Models
-- its limits, efforts and images, by the Catalog (models.go); Providers has the models that are offered
-- (plugin.go: fetchModels, configuredModels) and Auth the credentials and headers (credentials, parseAuth,
-- commandCodeHeaders). Lines reads a stream from the host (hostStreamReader, commandCodeReadLines). Json has decoded documents and tool inputs (protocol.go:
-- commandCodeToolInput), Usage the token counts (commandCodeUsage), Errors the failures (plugin.go:
-- failure; protocol.go: the readings of an error event), Stream the state of a stream with its tool calls
-- (ensureToolCall), Stream.Events one line of the event stream (commandCodeLineToOpenAIChunks), and
-- Stream.Events.Run the lines of a stream (collectCommandCodeStreamState). Lifecycle has the background
-- streams and quiescing (plugin.go: beginAsyncStream to resume, executeStream): what happens under the
-- lock is one operation, and the interleavings of the goroutines are the sequences of a step relation.
-- Continuation has the goroutine of a streamed reply (plugin.go: stream) as the list of its calls of the
-- host; at most five continuations follow, the number that the recursion counts down.
-- gjson and encoding/json are parameters, any functions of their types.
--
-- ChatGpt models chatgpt-backend/plugin.go: the configuration (configure, normalizeBaseURL), the route
-- and the plan for a request (handleIngress) and the dispatch (Call). The handler is a record that a call
-- takes and returns.
--
-- NativeAbi models internal/nativeabi/nativeabi.go, the runtime between the host and a plugin's handler:
-- Initialize, Shutdown, Call and HostCall.
--
-- Tests has concrete inputs for the theorems. Base has the shared names: lists, int64 and texts.
--
-- Numbers: an int of the configuration is a ℤ; durations and token counts are int64 and wrap, the round
-- robin counter is a uint64 and wraps; the sum of an instant and a duration is exact. The loop of split has the
-- number of questions as fuel, and each turn leaves fewer; all other loops follow a list.
-- Strings are compared by Go's rules for ASCII letters, with the few other characters that fold to one.
-- A Go map is a function from keys, a range over a map a list in some order.
--
-- Not modelled: YAML and JSON decoding, URL parsing (its law for the text of
-- a URL is a hypothesis where it is used), floats, the goroutines of a round of questions (their
-- results are a parameter), the buffered reply of commandcode with its continuation (execute), its session
-- ids and the dispatch of its methods, the estimates of token counts, the cgo shims, and the packaging and
-- performance programs.
pub mod Base
pub mod Forward
pub mod CommandCode
pub mod ChatGpt
pub mod NativeAbi
pub mod Tests
