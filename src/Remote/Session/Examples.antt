-- ===== src/Remote/Session/Examples.antt =====
-- A key that is rotated, with a time in between at which there is none.
use Prim.Native.String.{String}
use rakka_inference.Base.{List, Result, [], err, if◌then◌else◌, ltb, ok, refl, ℕ, ◌∷◌, ◌≡◌}
use rakka_inference.Core.Error.{InferenceError, unauthorized}
use rakka_inference.Remote.Session.{
  RemoteSessionActor, SessionConfig, SessionRebuildRequest, Timeouts, bootstrap, build_snapshot,
  default_timeouts, manual, run,
}
use rakka_inference.Remote.Session.Snapshots.{IsCurrent, session-IsCurrent}

abbrev rotated : ℕ → Result String InferenceError
rotated at =
    if ltb at 10 then ok "old" else if ltb at 20 then err (unauthorized "no key") else ok "new"

abbrev config : SessionConfig String
config = record { user_agent = "agent"; timeouts = default_timeouts; token = rotated }

abbrev clients : Timeouts → String → Result String String
clients timeouts user_agent = ok user_agent

abbrev request_at : ℕ → SessionRebuildRequest
request_at at = record { cause = manual; at = at }

abbrev requests : List SessionRebuildRequest
requests = request_at 12 ∷ request_at 21 ∷ request_at 22 ∷ []

abbrev old_session : RemoteSessionActor String String
old_session = record { config = config; snapshot = record { client = "agent"; credential = "old" } }

kept_then_replaced :
    (run clients old_session requests).1 ≡ err (unauthorized "no key") ∷ ok tt ∷ ok tt ∷ []
unfolding run build_snapshot
kept_then_replaced = refl

session-IsCurrent_example :
    (a : RemoteSessionActor String String) × (bootstrap clients config 3 ≡ ok a)
    × IsCurrent clients config "agent" 3 requests (run clients a requests)
session-IsCurrent_example = session-IsCurrent clients config "agent" refl 3 "old" requests refl
