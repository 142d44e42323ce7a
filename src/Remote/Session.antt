-- ===== src/Remote/Session.antt =====
-- crates/inference-remote-core/src/session.rs: the credential and the HTTP client of a deployment. A
-- provider of credentials is asked at an instant, since the secret may rotate; the building of a
-- client is a parameter, with the text of its error.
pub mod Snapshots
mod Examples
use Prim.Native.String.{String}
use Prim.Native.String.{◌++◌ as ◌+++◌}
use rakka_inference.Base.{List, Result, [], err, ok, ℕ, ◌>>=◌, ◌>>◌, ◌∷◌}
use rakka_inference.Core.Duration.{from_millis}
use rakka_inference.Core.Error.{InferenceError, internal}

pub record Timeouts : Type 0 where
  pub request_timeout : ℕ
  pub read_timeout : ℕ

abbrev pub default_timeouts : Timeouts
default_timeouts = record {
  request_timeout = from_millis 30_000;
  read_timeout = from_millis 10_000;
}

-- `token` is the one method of `CredentialProvider`.
pub record SessionConfig (Secret : Type 0) : Type 0 where
  pub user_agent : String
  pub timeouts : Timeouts
  pub token : ℕ → Result Secret InferenceError

-- `StaticApiKey`.
static_api_key : {Secret : Type 0} → Secret → ℕ → Result Secret InferenceError
static_api_key key at = ok key

pub record SessionSnapshot (Client Secret : Type 0) : Type 0 where
  pub client : Client
  pub credential : Secret

-- The shared cell of the snapshot is part of the state: a worker reads it when a request begins.
pub record RemoteSessionActor (Client Secret : Type 0) : Type 0 where
  pub config : SessionConfig Secret
  pub snapshot : SessionSnapshot Client Secret

pub data SessionRebuildCause : Type 0 where
  cuda_context_poisoned remote_auth_failure remote_config_change manual : SessionRebuildCause

-- A request to rebuild, with the instant at which it is handled.
pub record SessionRebuildRequest : Type 0 where
  pub cause : SessionRebuildCause
  pub at : ℕ

or_internal : {Client : Type 0} → Result Client String → Result Client InferenceError
or_internal (ok client) = ok client
or_internal (err e) = err (internal ("build http client: " +++ e))

module _ {Client Secret : Type 0} (build_client : Timeouts → String → Result Client String) where
  pub build_snapshot :
      SessionConfig Secret → ℕ → Result (SessionSnapshot Client Secret) InferenceError
  unfolding or_internal
  build_snapshot config at = do
    client ← or_internal (build_client config.timeouts config.user_agent)
    credential ← config.token at
    ok (record { client = client; credential = credential })

  pub bootstrap :
      SessionConfig Secret → ℕ → Result (RemoteSessionActor Client Secret) InferenceError
  bootstrap config at = do
    snapshot ← build_snapshot config at
    ok (record { config = config; snapshot = snapshot })

  pub stored :
      RemoteSessionActor Client Secret
      → Result (SessionSnapshot Client Secret) InferenceError
      → RemoteSessionActor Client Secret × Result (Unit {0}) InferenceError
  stored a (ok snap) = (record a { snapshot = snap }, ok tt)
  stored a (err e) = (a, err e)

  -- `rebuild`, and so the handler: the new state and the reply.
  pub handle :
      RemoteSessionActor Client Secret
      → SessionRebuildRequest
      → RemoteSessionActor Client Secret × Result (Unit {0}) InferenceError
  unfolding stored
  handle a msg = stored a (build_snapshot a.config msg.at)

  unfoldable pub run :
      RemoteSessionActor Client Secret
      → List SessionRebuildRequest
      → RemoteSessionActor Client Secret × List (Result (Unit {0}) InferenceError)
  unfolding handle
  run a [] = (a, [])
  run a (msg ∷ msgs) =
      let (a', reply) = handle a msg in let (last, replies) = run a' msgs in (last, reply ∷ replies)
