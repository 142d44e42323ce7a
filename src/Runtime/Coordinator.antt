-- ===== src/Runtime/Coordinator.antt =====
-- crates/inference-runtime/src/dp_coordinator.rs: the routes of each deployment, with the load of each
-- engine. An engine's reference and its path, and the loads with their comparison (floats, in the
-- source), are parameters.
pub mod Routing
mod Examples
use rakka_inference.Base.{
  Bool, List, Option, Result, [], err, false, if◌then◌else◌, none, ok, some, true, ◌++◌, ◌∷◌,
}
use rakka_inference.Base.Maps.{get, insert}
use rakka_inference.Core.Error.{InferenceError, internal}
use Prim.Native.String.{String}
use Prim.Native.String.{◌++◌ as ◌+++◌}
use Prim.Native.Nat.{Ordering}

pub record Engines : Type 1 where
  pub Engine : Type 0
  pub ActorPath : Type 0
  pub Load : Type 0
  pub path : Engine → ActorPath
  pub same : ActorPath → ActorPath → Bool
  pub partial_cmp : Load → Load → Option Ordering

abbrev pub no_engine : String → InferenceError
no_engine deployment = internal ("no engine for deployment `" +++ deployment +++ "`")

module _ (es : Engines) where
  open es use {Engine, ActorPath, Load, path, same, partial_cmp}

  pub record RouteTarget : Type 0 where
    pub engine : Engine
    pub load : Load

  pub data DpCoordinatorMsg : Type 0 where
    register_msg : (deployment : String) → RouteTarget → DpCoordinatorMsg
    deregister_msg : (deployment : String) → ActorPath → DpCoordinatorMsg
    report_load_msg : (deployment : String) → ActorPath → Load → DpCoordinatorMsg
    route_to : (deployment : String) → DpCoordinatorMsg

  pub record CoordinatorState : Type 0 where
    pub routes : List (String × List RouteTarget)

  -- The comparison of the source, with loads that cannot be compared taken as equal.
  abbrev pub is_greater : Load → Load → Bool
  is_greater a b = elim (partial_cmp a b) [
    | none ↦ false
    | some o ↦ elim o [ Ordering.gt ↦ true | _ ↦ false ]
  ]

module _ {es : Engines} where
  open es use {Engine, ActorPath, Load, path, same, partial_cmp}

  -- `entry(deployment).or_default()`.
  abbrev or_default : Option (List (RouteTarget es)) → List (RouteTarget es)
  or_default none = []
  or_default (some v) = v

  pub register : CoordinatorState es → String → RouteTarget es → CoordinatorState es
  register st deployment target =
      let v = or_default (get st.routes deployment) in
      record { routes = insert st.routes deployment (v ++ (target ∷ [])) }

  pub retain : List (RouteTarget es) → ActorPath → List (RouteTarget es)
  retain [] p = []
  retain (t ∷ ts) p = let later = retain ts p in if same (path t.engine) p then later else t ∷ later

  -- A change to the routes of a deployment that has some.
  abbrev pub modify :
      CoordinatorState es
      → String
      → (List (RouteTarget es) → List (RouteTarget es))
      → CoordinatorState es
  modify st deployment f = elim (get st.routes deployment) [
    | none ↦ st
    | some v ↦ record { routes = insert st.routes deployment (f v) }
  ]

  pub deregister : CoordinatorState es → String → ActorPath → CoordinatorState es
  unfolding retain
  deregister st deployment p = modify st deployment (λ v. retain v p)

  pub with_load : List (RouteTarget es) → ActorPath → Load → List (RouteTarget es)
  with_load [] p load = []
  with_load (t ∷ ts) p load =
      (if same (path t.engine) p then record t { load = load } else t) ∷ with_load ts p load

  pub report_load : CoordinatorState es → String → ActorPath → Load → CoordinatorState es
  unfolding with_load
  report_load st deployment p load = modify st deployment (λ v. with_load v p load)

  -- `min_by`: the first of the least.
  pub min_by : RouteTarget es → List (RouteTarget es) → RouteTarget es
  min_by best [] = best
  min_by best (t ∷ ts) = min_by (if is_greater es best.load t.load then t else best) ts

  pub pick : CoordinatorState es → String → Result (RouteTarget es) InferenceError
  unfolding min_by
  pick st deployment =
      let missing : Result (RouteTarget es) InferenceError = err (no_engine deployment) in
      elim (get st.routes deployment) [
        | none ↦ missing
        | some v ↦ elim v [ [] ↦ missing | t ∷ ts ↦ ok (min_by t ts) ]
      ]

  pub handle :
      CoordinatorState es
      → DpCoordinatorMsg es
      → CoordinatorState es × Option (Result (RouteTarget es) InferenceError)
  unfolding register deregister report_load pick
  handle st (register_msg deployment target) = (register st deployment target, none)
  handle st (deregister_msg deployment p) = (deregister st deployment p, none)
  handle st (report_load_msg deployment p l) = (report_load st deployment p l, none)
  handle st (route_to deployment) = (st, some (pick st deployment))
