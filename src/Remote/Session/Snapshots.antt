-- ===== src/Remote/Session/Snapshots.antt =====
-- Which snapshot a worker reads.
use Prim.Native.String.{String}
use rakka_inference.Base.{
  Bool, List, Result, Result-cases, [], err, false, if◌then◌else◌, inl, inr, map, ok, refl, true, ℕ,
  ◌∷◌, ◌≡◌,
}
use rakka_inference.Core.Error.{InferenceError}
use rakka_inference.Remote.Session.{
  RemoteSessionActor, SessionConfig, SessionRebuildRequest, Timeouts, bootstrap, build_snapshot,
  handle, or_internal, run, stored,
}

is_given : {Secret : Type 0} → Result Secret InferenceError → Bool
is_given (ok credential) = true
is_given (err e) = false

pub reply_of : {Secret : Type 0} → Result Secret InferenceError → Result (Unit {0}) InferenceError
reply_of (ok credential) = ok tt
reply_of (err e) = err e

module _ {Client Secret : Type 0} (build_client : Timeouts → String → Result Client String)
    (config : SessionConfig Secret) where
  -- The last instant at which the provider gave a credential, of one at which it did and of those of
  -- the requests since.
  pub last_given : ℕ → List SessionRebuildRequest → ℕ
  last_given at [] = at
  last_given at (msg ∷ msgs) =
      last_given (if is_given (config.token msg.at) then msg.at else at) msgs

  -- The snapshot has the client of the configuration and the latest credential, and every request was
  -- answered by whether the provider gave one.
  pub record IsCurrent (client : Client) (at : ℕ) (msgs : List SessionRebuildRequest)
      (end : RemoteSessionActor Client Secret × List (Result (Unit {0}) InferenceError))
      : Type 0 where
    pub same_client : end.0.snapshot.client ≡ client
    pub latest : config.token (last_given at msgs) ≡ ok end.0.snapshot.credential
    pub answered : end.1 ≡ map (λ msg. reply_of (config.token msg.at)) msgs

  abbrev session : Client → Secret → RemoteSessionActor Client Secret
  session client credential = record {
    config = config;
    snapshot = record { client = client; credential = credential };
  }

  module _ (client : Client)
      (built : build_client config.timeouts config.user_agent ≡ ok client) where
    run-IsCurrent :
        (at : ℕ) (credential : Secret) (msgs : List SessionRebuildRequest)
        → config.token at ≡ ok credential
        → IsCurrent client at msgs (run build_client (session client credential) msgs)
    unfolding run handle build_snapshot stored or_internal is_given reply_of last_given
    run-IsCurrent at credential [] given = record {
      same_client = refl;
      latest = given;
      answered = refl;
    }
    run-IsCurrent at credential (msg ∷ msgs) given = elim (Result-cases (config.token msg.at)) [
      | inl (next, e) ↦
          let rest = run-IsCurrent msg.at next msgs e in
          record {
            same_client = rw (built, e) rest.same_client;
            latest = rw (built, e) rest.latest;
            answered = rw (built, e, rest.answered) refl;
          }
      | inr (x, e) ↦
          let rest = run-IsCurrent at credential msgs given in
          record {
            same_client = rw (built, e) rest.same_client;
            latest = rw (built, e) rest.latest;
            answered = rw (built, e, rest.answered) refl;
          }
    ]

    -- Where the client can be built and the provider gives a credential at the start, the session
    -- starts, and after any requests to rebuild it the workers read the credential of the last instant
    -- at which the provider gave one: a request that fails is answered with the provider's error and
    -- leaves the session as it was.
    pub session-IsCurrent :
        (at : ℕ) (credential : Secret) (msgs : List SessionRebuildRequest)
        → config.token at ≡ ok credential
        → (a : RemoteSessionActor Client Secret) × (bootstrap build_client config at ≡ ok a)
          × IsCurrent client at msgs (run build_client a msgs)
    unfolding bootstrap build_snapshot or_internal
    session-IsCurrent at credential msgs given =
        (session client credential, rw (built, given) refl, run-IsCurrent at credential msgs given)
