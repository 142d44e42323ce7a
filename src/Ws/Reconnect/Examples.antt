-- ===== src/Ws/Reconnect/Examples.antt =====
-- A client that connects at most three times.
use rakka_inference.Base.{All, [], arith, length, none, refl, replicate, some, ◌∷◌, ◌≡◌}
use rakka_inference.Core.Float.Fixed.{fixed}
use rakka_inference.Core.Duration.{from_millis}
use rakka_inference.Core.Runtime.{JitterKind}
use rakka_inference.Remote.Backoff.{BackoffPolicy, compute_backoff}
use rakka_inference.Ws.Reconnect.{new, next_delays}
use rakka_inference.Ws.Reconnect.Attempts.{IsAllowed, next_delays_bounded}

abbrev doubling : BackoffPolicy fixed
doubling = record {
  initial = from_millis 100;
  max_delay = from_millis 2000;
  multiplier = 20_000;
  jitter = JitterKind.none;
}

three_attempts :
    (next_delays fixed (new fixed doubling 3) 5).1
    ≡ some 0 ∷ some (from_millis 100) ∷ some (from_millis 200) ∷ none ∷ none ∷ []
unfolding next_delays new compute_backoff
three_attempts = refl

next_delays_bounded_example :
    let (r, allowed) = next_delays fixed (new fixed doubling 3) 3 in
    (length allowed ≡ 3)
    × All (IsAllowed fixed (from_millis 2000)) allowed
    × (next_delays fixed r 2 ≡ (r, replicate 2 none))
next_delays_bounded_example =
    next_delays_bounded fixed doubling 3 (omega arith) 2 (omega arith) (omega arith)
