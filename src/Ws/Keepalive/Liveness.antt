-- ===== src/Ws/Keepalive/Liveness.antt =====
-- When a link is declared dead, and how far apart its pings are.
use rakka_inference.Base.{
  List, Option-cases, [], arith, inl, inr, none, refl, some, ℕ, ◌+◌, ◌<◌, ◌↔◌, ◌∙◌, ◌∷◌, ◌≡◌, ◌≤◌,
  ◌⊎◌,
}
use rakka_inference.Ws.Keepalive.{
  Keepalive, KeepaliveAction, dead, idle, observe, send_ping, tick, ticks,
}

-- The tracker after a run of ticks.
pub ticked : Keepalive → List ℕ → Keepalive
ticked k [] = k
ticked k (now ∷ later) = ticked (tick k now).0 later

tick-keeps :
    (k : Keepalive) (now : ℕ)
    → ((tick k now).0.cfg ≡ k.cfg) × ((tick k now).0.last_seen ≡ k.last_seen)
unfolding tick
tick-keeps k now = ground arith

ticked-keeps :
    (k : Keepalive) (later : List ℕ)
    → ((ticked k later).cfg ≡ k.cfg) × ((ticked k later).last_seen ≡ k.last_seen)
unfolding ticked
ticked-keeps k [] = (refl, refl)
ticked-keeps k (now ∷ later) =
    let step = tick-keeps k now in
    let ih = ticked-keeps (tick k now).0 later in (ih.0 ∙ step.0, ih.1 ∙ step.1)

tick-dead :
    (k : Keepalive) (now : ℕ)
    → ((tick k now).1 ≡ dead)
      ↔ ((0 < k.cfg.idle_timeout) × (k.last_seen + k.cfg.idle_timeout ≤ now))
unfolding tick
tick-dead k now = ground arith

-- After a frame at `seen` and any ticks since, a tick declares the link dead exactly when liveness is
-- enabled and the link has been silent for the idle timeout, however the pings went.
pub dead_iff_silent :
    (k : Keepalive) (seen : ℕ) (ticks_since : List ℕ) (now : ℕ)
    → ((tick (ticked (observe k seen) ticks_since) now).1 ≡ dead)
      ↔ ((0 < k.cfg.idle_timeout) × (seen + k.cfg.idle_timeout ≤ now))
unfolding observe ticked
dead_iff_silent k seen ticks_since now =
    let kept = ticked-keeps (observe k seen) ticks_since in
    let answer = tick-dead (ticked (observe k seen) ticks_since) now in
    rw (kept.0, kept.1) at answer

-- Each ping of a run is at least an interval after `last`, the ping before it.
abbrev IsSpaced : ℕ → ℕ → List (ℕ × KeepaliveAction) → Type 0
IsSpaced interval last [] = Unit
IsSpaced interval last ((now, send_ping) ∷ later) =
    (last + interval ≤ now) × IsSpaced interval now later
IsSpaced interval last ((now, _) ∷ later) = IsSpaced interval last later

-- The last ping, or else the last frame.
abbrev last_sign : Keepalive → ℕ
last_sign k = elim k.last_ping [ none ↦ k.last_seen | some prev ↦ prev ]

tick-cases :
    (k : Keepalive) (now : ℕ)
    → (tick k now ≡ (k, dead))
      ⊎ ((tick k now ≡ (k, idle))
          ⊎ ((tick k now ≡ (record k { last_ping = some now }, send_ping))
              × (last_sign k + k.cfg.ping_interval ≤ now)))
unfolding tick
tick-cases k now = elim (Option-cases k.last_ping) [
  | inl e ↦ ground (arith, e)
  | inr (prev, e) ↦ ground (arith, e)
]

-- In any run of ticks with no frame in between, each ping is at least `ping_interval` after the one
-- before it, and the first is at least that long after the last frame or ping.
ticks-IsSpaced :
    (k : Keepalive) (times : List ℕ) → IsSpaced k.cfg.ping_interval (last_sign k) (ticks k times)
unfolding ticks
ticks-IsSpaced k [] = tt
ticks-IsSpaced k (now ∷ later) = elim (tick-cases k now) [
  | inl e ↦ rw (e, ticks) (ticks-IsSpaced k later)
  | inr (inl e) ↦ rw (e, ticks) (ticks-IsSpaced k later)
  | inr (inr (e, l)) ↦ rw (e, ticks) (l, ticks-IsSpaced (record k { last_ping = some now }) later)
]
