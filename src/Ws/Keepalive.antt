-- ===== src/Ws/Keepalive.antt =====
-- crates/inference-runtime-ws-core/src/keepalive.rs: when to ping, and when a link is dead. Instants
-- and durations in nanoseconds; a duration since a later instant is 0.
pub mod Liveness
mod Examples
use rakka_inference.Base.{
  Bool, List, Option, [], if◌then◌else◌, leb, none, not, some, ℕ, ◌&&◌, ◌-◌, ◌==◌, ◌∷◌,
}
use rakka_inference.Core.Duration.{from_secs}

pub record KeepaliveConfig : Type 0 where
  pub ping_interval : ℕ
  pub idle_timeout : ℕ

abbrev pub default_config : KeepaliveConfig
default_config = record { ping_interval = from_secs 15; idle_timeout = from_secs 60 }

pub data KeepaliveAction : Type 0 where
  idle send_ping dead : KeepaliveAction

pub record Keepalive : Type 0 where
  pub cfg : KeepaliveConfig
  pub last_seen : ℕ
  pub last_ping : Option ℕ

pub new : KeepaliveConfig → ℕ → Keepalive
new cfg now = record { cfg = cfg; last_seen = now; last_ping = none }

pub observe : Keepalive → ℕ → Keepalive
observe k now = record k { last_seen = now; last_ping = none }

-- The instant from which the next ping is due after an interval.
abbrev need_ping : Keepalive → ℕ → Bool
need_ping k now = elim k.last_ping [
  | none ↦ leb k.cfg.ping_interval (now - k.last_seen)
  | some prev ↦ leb k.cfg.ping_interval (now - prev)
]

pub tick : Keepalive → ℕ → Keepalive × KeepaliveAction
tick k now =
    let since_seen = now - k.last_seen in
    if not (k.cfg.idle_timeout == 0) && leb k.cfg.idle_timeout since_seen
    then (k, dead)
    else if k.cfg.ping_interval == 0
    then (k, idle)
    else if need_ping k now
    then (record k { last_ping = some now }, send_ping)
    else (k, idle)

-- The actions of a run of ticks with no frame in between, with their instants.
pub ticks : Keepalive → List ℕ → List (ℕ × KeepaliveAction)
unfolding tick
ticks k [] = []
ticks k (now ∷ later) = let (k', action) = tick k now in (now, action) ∷ ticks k' later
