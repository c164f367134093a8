-- ===== src/Lib.antt =====
-- The Inference Control Plane: a gateway in front of language models (inference_control_plane,
-- under src/ of the repository) and a batch pipeline that turns the gateway's traces into
-- service-level indicators (gateway_sli, under langfuse-sli-pipeline/src/).
--
-- The gateway. A request passes api/routes.py, where services/auth.py validates its key, and
-- services/inference.py handles it: the route of services/router.py, the redaction of the
-- prompt, the two rate limits of services/rate_limiter.py, a look into services/cache.py, a
-- completion by services/llm_client.py, and the background tasks that write the log and the
-- cache. Every part has a module of its name: Router, RateLimiter, Cache, Auth, LlmClient
-- (Breaker, Payload, Transport, Retry, Completion), Metrics for observability/metrics.py, and
-- Inference (State, Handler). Settings and Schemas have the fields of core/config.py,
-- schemas/generate.py and models/ that these read, and Settings.Validators the validators of
-- core/config.py. Http has the routes: Errors is core/errors.py, Usage and Dashboard are
-- services/usage.py and services/dashboard.py on the rows of the log, and Routes is
-- api/routes.py with the dependencies of core/security.py.
--
-- The pipeline. Sli.Models.Parse, with Values, is `parse_observation` of models.py,
-- Sli.Normalize is normalize.py, Sli.Governance with Registry is governance.py and the checks of
-- config.py, Sli.Histogram and Sli.Aggregation are sli.py, Sli.Quality with Scoring is
-- quality.py, Sli.Checkpoint with Files and Dynamo is checkpoint.py, Sli.Langfuse with Body and
-- Pages is sources/langfuse_api.py, Sli.FileSource is sources/file_source.py, Sli.Emit is
-- emit/base.py, with Otel for emit/otel.py and OtlpHttp for emit/otlp_http.py, and Sli.Cli is
-- cli.py around `run`. Sli.Pipeline is the streaming pass of `run` in pipeline.py,
-- Sli.Pipeline.Report the points that it adds, Sli.Pipeline.Finish its end from the export on,
-- Sli.Pipeline.Run puts the three together, and Sli.Pipeline.Replay is about two runs in a row.
-- A source is the list of the records that it gives, with how it ends.
--
-- The model. An action that changes state and may raise is a function from a state to a result
-- and the state after it (Python.Exec): what was written before a raise stays written. A time is
-- a number of microseconds, or of seconds where the code takes whole seconds, and is an argument
-- of the operation that reads it. Python's unbounded integers are natural numbers, or the
-- integers of Prelude.Int where they may be negative. A float is its bit pattern and its
-- arithmetic is a parameter (FloatOps). JSON values are a data type (Python.Json). Loops are
-- structural recursions over what they iterate. The `while` loops over pages take fuel, one more
-- than the limit of pages: each round that goes on has counted a page, and a round at the limit
-- ends. The retries of the source and those of the OTLP exporter recur on the attempts that are
-- left, and those of the gateway belong to Tenacity.
--
-- Parameters. Code outside the repository is an argument: the Redis server (Redis, and
-- IsReliable for a server that answers while no key expires), httpx with the provider
-- (Transport), Tenacity (Retryer and IsTenacity), the JSON codec (JsonCodec and IsLossless),
-- hashes, regular expressions and conversions (Builtins, Texts, Times and IsExact), the database
-- query, the DynamoDB client (Boto and IsConditional), the exporter, the random generator, the
-- statistics functions (Statistics), and the transport, clock and sleep of the Langfuse source
-- (Wire) and of the exporter (Collector), the output of the file exporter (Output), and the
-- environment of the command (System). The modules of Tests have concrete ones.
--
-- Concurrency. The two rate-limit checks that are gathered are made in their order, as they
-- touch different keys. Writers of one checkpoint are sequences of loads and saves on a shared
-- table.
--
-- Failures. `run` is given what loading the checkpoint gives by `run_from_store`, and a
-- division of two integers is none where it raises (FloatOps). The times of a checkpoint are
-- taken to be in the range of a datetime. The background tasks of a request are a list that it
-- leaves; the framework runs them only after a response that the endpoint returns.
--
-- Not modelled: runs of the pipeline without an exporter, a store or a window's end, FastAPI,
-- CORS and the metrics page, the start-up and connection code, the opening of files, the
-- console exporter, argparse, the front end, migrations and deployment.
pub mod Prelude
pub mod Python
pub mod Settings
pub mod Schemas
pub mod Redis
pub mod RateLimiter
pub mod LlmClient
pub mod Router
pub mod Cache
pub mod Auth
pub mod Metrics
pub mod Inference
pub mod Http
pub mod Sli
mod Tests
