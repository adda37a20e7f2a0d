-- ===== src/Lib.antt =====
-- gax-go: the helpers that generated Google API clients call for retries, call options, headers,
-- errors, feature flags, telemetry, iterators and logging (package gax in v2/, with v2/apierror,
-- v2/callctx, v2/iterator and v2/internallog).
--
-- How the parts interact: `Invoke` resolves call options into settings, reads two feature flags, and
-- calls the stub in a loop. A failed call's error is wrapped by apierror.FromError and handed to a
-- retryer, which decides by the error's code and asks a `Backoff` how long to wait. callctx carries
-- headers and telemetry values in the context; insertMetadata merges the ones into a call's metadata,
-- and recordMetric reports the others with the error that is returned.
--
-- Which file models what:
--   Prelude and its children: Go strings (lists of code points), maps (association lists), ints,
--     and what the program uses of packages strings, unicode and strconv.
--   Code: the numbers of google.golang.org/grpc/codes.
--   Context: package context, with the program's key types.
--   Callctx: v2/callctx/callctx.go. Header maps live on a heap, so that sharing is visible.
--   Backoff, CallOption, Retryer: v2/call_option.go (Retryer.Policy: its three retryers as one family;
--     Backoff.Bounds, Growth and Panics: the limits of the delays, and when `Pause` panics).
--   Apierror: v2/apierror/apierror.go (Codes: toCode; Details: parseDetails; Types: APIError; Parse:
--     ParseError and the accessors; Printing: Error, String and ExtractProtoMessage).
--   Feature: v2/feature.go (Threads: several goroutines that call `IsFeatureEnabled` at once).
--   Header: v2/header.go (Version: goVersion; RoundTrip: a reader of the header; Sent: headers from
--     callctx.SetHeaders to the metadata of the call; Unordered: metadata up to the order of its keys).
--   Telemetry: v2/telemetry.go (Errors: ExtractTelemetryErrorInfo; Metric: recordMetric; Client:
--     NewClientMetrics).
--   ProtoJson: v2/proto_json_stream.go.
--   ContentType: v2/content_type.go.
--   Iterator: v2/iterator/iterator.go.
--   Log: v2/internallog (Level: internal/internal.go and New; Payload and Http: internallog.go; Grpc:
--     grpclog/grpclog.go; Variance: internal/logtest/logtest.go).
--   Invoke: v2/invoke.go (System: `Sleep`, and the loop with the package's own retryers and
--     recordMetric; Laws.Described: one round, with the retryer at hand and the wrapped error;
--     Progress and Success: what it returns for what the stub returns; Retried: which errors of
--     the stub are retried; Deferred: what the deferred functions do; Metrics: what is recorded;
--     Reported: the telemetry of a wrapped error; Deadline: the loop over a clock; Trace: the
--     order of calls, sleeps, measurement and cancellation, the delays, and the contexts that the
--     stub is given).
--   V1: call_option.go, header.go and invoke.go of the root, which forward to v2.
--   Tests: runs of the model, and the theorems at concrete inputs.
--
-- Conventions: a Go function that may panic returns an Option, where `none` is the panic. A method
-- that changes its receiver returns the new receiver. A Go int or time.Duration is an integer without
-- bound; the bounds that keep it within 64 bits are hypotheses where a theorem needs them.
--
-- Parameters, with what is assumed of them as named hypotheses: float64 products and math/rand
-- (`Runtime`, `IsFactor`, `IsRandom`), the packages status, googleapi and protojson (`ErrorApi`,
-- `IsStatusMethod`, `IsUnwrapMethod`), the order in which `range` visits a map (`IsRange`), the
-- metadata of the outgoing context, and the stub, retryer, sleeper, clock, cancellation and metric
-- recording (`Env`), packages errors, fmt and status as telemetry uses them (`Inspect`,
-- `IsNamed`), and OpenTelemetry (`Otel`), the JSON decoder and protojson (`Json`), and a wrapped
-- reader with the detection of its content type (`Io`, `IsReader`). Invoke.System fills `Env` but
-- for the stub, the timer, the clock and OpenTelemetry (`System`). For the rest there are package
-- metadata (`Outgoing`, `IsSeparate`, `Grpc`), package proto (`Protos`), package json as the logs
-- use it (another `Json`, `LogJson`, `IsSorting`, `IsFaithful`), and the iterator of a client with
-- the body of the loop over it (`Client`). Surroundings that keep a log of what is done to them
-- are `IsLogged` and `LogsSystem`, and surroundings with a clock `IsTimed` and `KeepsTime`; which
-- delays a retryer may ask for is `IsPacing`, and which errors it retries `IsDeciding`.
--
-- Fuel: the loop of `invoke` ends only when the stub, the retryer or the sleeper ends it. It has fuel
-- for its rounds; one more than the number of retries is enough.
--
-- Not modelled: the state that a panic leaves, but for one of a retryer in `invoke`; the handler
-- that package slog makes for JSON, beyond its level, and the writer behind it; goroutines beside
-- those of Feature.Threads; generated code; the numbers of the versions.
pub mod Prelude
pub mod Code
pub mod Backoff
pub mod Apierror
pub mod CallOption
pub mod Retryer
pub mod Context
pub mod Callctx
pub mod Feature
pub mod Telemetry
pub mod ProtoJson
pub mod ContentType
pub mod Log
pub mod Iterator
pub mod Invoke
pub mod Header
pub mod V1
mod Tests
