-- ===== src/Ws/Keepalive/Examples.antt =====
-- A link with the default configuration.
use rakka_inference.Base.{List, [], map, refl, ℕ, ◌+◌, ◌<◌, ◌↔◌, ◌∷◌, ◌≡◌, ◌≤◌}
use rakka_inference.Core.Duration.{from_secs}
use rakka_inference.Ws.Keepalive.{
  Keepalive, KeepaliveAction, dead, default_config, idle, new, observe, send_ping, tick, ticks,
}
use rakka_inference.Ws.Keepalive.Liveness.{dead_iff_silent, ticked}

abbrev fresh : Keepalive
unfolding new
fresh = new default_config 0

abbrev seconds : List ℕ
seconds = from_secs 10 ∷ from_secs 15 ∷ from_secs 20 ∷ from_secs 30 ∷ from_secs 60 ∷ []

-- Two pings, and then the link is dead.
pings_then_dead :
    map (λ (p : ℕ × KeepaliveAction). p.1) (ticks fresh seconds)
    ≡ idle ∷ send_ping ∷ idle ∷ send_ping ∷ dead ∷ []
unfolding ticks fresh
pings_then_dead = refl

dead_iff_silent_example :
    ((tick (ticked (observe fresh 5) seconds) (from_secs 61)).1 ≡ dead)
    ↔ ((0 < fresh.cfg.idle_timeout) × (5 + fresh.cfg.idle_timeout ≤ from_secs 61))
dead_iff_silent_example = dead_iff_silent fresh 5 seconds (from_secs 61)
