-- ===== src/Local/Generation/Loop/Rounds.antt =====
-- What a round does to the state.
use rakka_inference.Base.{ok, ◌≡◌}
use rakka_inference.Local.Run.Values.{
  Yields, Yields-bind, result_Yields, returned_ok, value, valued,
}
use rakka_inference.Local.Sampling.{Floats, Randomness}
use rakka_inference.Local.Generation.{Job, LoopState, Text}
use rakka_inference.Local.Generation.Step.{generated}
use rakka_inference.Local.Generation.Step.Next.{IsNext, advance-IsNext}
use rakka_inference.Local.Generation.Loop.{round}

module _ {fl : Floats} (rand : Randomness fl) (job : Job fl.F) where
  open fl use {F}
  open rand use {Rng}

  pub round-IsNext :
      (s : LoopState F Rng)
      → Yields {A = LoopState F Rng × Text}
          (λ r. IsNext rand job s r.0 × (job.backend.decode (generated rand job r.0) ≡ ok r.1))
          (round rand job s)
  unfolding round
  round-IsNext s = Yields-bind _ _ _ _ (advance-IsNext rand job s) (λ s' e.
      let next = valued (IsNext rand job s) _ s' e (advance-IsNext rand job s) in
      Yields-bind _ _ _ _ (result_Yields (job.backend.decode (generated rand job s')))
        (λ full d. value _ (next, returned_ok _ full d)))
