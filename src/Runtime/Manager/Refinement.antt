-- ===== src/Runtime/Manager/Refinement.antt =====
-- The manager against a function from names to deployments.
use rakka_inference.Base.Text.{str_eq}
use rakka_inference.Core.Error.{internal}
use rakka_inference.Core.Deployment.{Deployment, DeploymentValidationError, validate}
use rakka_inference.Runtime.Manager.{
  DeploymentManagerActor, DeploymentManagerMsg, DeploymentRecord, Reply, applied, apply, done,
  found, get, handle, list, listed, pending, remove, to_string,
}
use rakka_inference.Base.{
  List, Option, Result, [], ap, err, if◌then◌else◌, none, ok, refl, some, ◌∙◌, ◌∷◌, ◌≡◌,
}
use Prim.Native.String.{String}
use rakka_inference.Base.Maps
use mathlib.Core.Path.{fun_ext}

-- What a client can ask by name.
abbrev pub Catalogue : Type 0 → Type 0 → Type 0
Catalogue Json F = String → Option (DeploymentRecord Json F)

module _ {Json F : Type 0} where
  written : Catalogue Json F → Deployment Json F → Catalogue Json F
  written f d name =
      if str_eq d.name name then some (record { deployment = d; state = pending }) else f name

  erased : Catalogue Json F → String → Catalogue Json F
  erased f gone name = if str_eq gone name then none else f name

  decided :
      Catalogue Json F
      → Deployment Json F
      → Result (Unit {0}) DeploymentValidationError
      → Catalogue Json F × Option (Reply Json F)
  decided f d (ok _) = (written f d, some (done (ok tt)))
  decided f d (err e) = (f, some (done (err (internal (to_string e)))))

  -- A list of all deployments has an order, which a function does not tell.
  specified :
      Catalogue Json F → DeploymentManagerMsg Json F → Catalogue Json F × Option (Reply Json F)
  unfolding decided
  specified f (apply d) = decided f d (validate d)
  specified f (remove name) = (erased f name, some (done (ok tt)))
  specified f list = (f, none)
  specified f (get name) = (f, some (found (f name)))

  unfoldable pub by_name : Reply Json F → Option (Reply Json F)
  by_name (listed _) = none
  by_name r = some r

  -- The state after the messages, and what they were answered with.
  unfoldable pub run :
      DeploymentManagerActor Json F
      → List (DeploymentManagerMsg Json F)
      → DeploymentManagerActor Json F × List (Option (Reply Json F))
  unfolding by_name
  run a [] = (a, [])
  run a (msg ∷ msgs) =
      let (a', r) = handle a msg in let (last, rs) = run a' msgs in (last, by_name r ∷ rs)

  pub replay :
      Catalogue Json F
      → List (DeploymentManagerMsg Json F)
      → Catalogue Json F × List (Option (Reply Json F))
  replay f [] = (f, [])
  replay f (msg ∷ msgs) =
      let (f', r) = specified f msg in let (last, rs) = replay f' msgs in (last, r ∷ rs)

  pub view : DeploymentManagerActor Json F → Catalogue Json F
  view a name = Maps.get a.records name

  view-applied :
      (a : DeploymentManagerActor Json F) (d : Deployment Json F)
      (v : Result (Unit {0}) DeploymentValidationError)
      → let (a', res) = applied a d v in
        ◌≡◌ {A = Catalogue Json F × Option (Reply Json F)}
          (view a', by_name (done res))
          (decided (view a) d v)
  unfolding view decided applied by_name written
  view-applied a d (ok tt) =
      let reads = fun_ext (λ (name : String).
        Maps.get-insert a.records d.name (record { deployment = d; state = pending }) name) in
      λ i. (reads i, some (done (ok tt)))
  view-applied a d (err e) = refl

  step_refines :
      (a : DeploymentManagerActor Json F) (msg : DeploymentManagerMsg Json F)
      → let (a', r) = handle a msg in
        ◌≡◌ {A = Catalogue Json F × Option (Reply Json F)}
          (view a', by_name r)
          (specified (view a) msg)
  unfolding handle specified view erased by_name
  step_refines a (apply d) = view-applied a d (validate d)
  step_refines a (remove name) =
      let reads = fun_ext (λ (other : String). Maps.get-remove a.records name other) in
      λ i. (reads i, some (done (ok tt)))
  step_refines a list = refl
  step_refines a (get name) = refl

  -- The manager answers a run of messages as the function does, and ends in what the function became.
  pub run-replay :
      (a : DeploymentManagerActor Json F) (msgs : List (DeploymentManagerMsg Json F))
      → (view (run a msgs).0 ≡ (replay (view a) msgs).0)
        × ((run a msgs).1 ≡ (replay (view a) msgs).1)
  unfolding run replay
  run-replay a [] = (refl, refl)
  run-replay a (msg ∷ msgs) =
      let step = step_refines a msg in
      let (later, replies) = run-replay (handle a msg).0 msgs in
      (
        later ∙ ap (λ p. (replay p.0 msgs).0) step,
        ap (λ rs. by_name (handle a msg).1 ∷ rs) replies ∙ ap (λ p. p.1 ∷ (replay p.0 msgs).1) step,
      )
