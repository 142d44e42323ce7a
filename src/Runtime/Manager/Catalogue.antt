-- ===== src/Runtime/Manager/Catalogue.antt =====
-- What is in the catalogue.
use rakka_inference.Base.{All, Result, ap, err, if◌then◌else◌, none, ok, refl, some, ◌≡◌}
use rakka_inference.Base.Text.{str_eq}
use rakka_inference.Core.Deployment.{Deployment, DeploymentValidationError, validate}
use rakka_inference.Runtime.Manager.{
  DeploymentManagerActor, DeploymentManagerMsg, DeploymentRecord, applied, apply, found, get,
  handle, list, pending, remove,
}
use Prim.Native.String.{String}
use rakka_inference.Base.Maps

module _ {Json F : Type 0} where
  -- A deployment that is valid, under its own name.
  record IsListed (e : String × DeploymentRecord Json F) : Type 0 where
    pub own_name : e.0 ≡ e.1.deployment.name
    pub valid : validate e.1.deployment ≡ ok tt

  applied-All :
      (a : DeploymentManagerActor Json F) (d : Deployment Json F)
      (v : Result (Unit {0}) DeploymentValidationError)
      → validate d ≡ v
      → All IsListed a.records
      → All IsListed (applied a d v).0.records
  unfolding applied
  applied-All a d (ok tt) e h =
      Maps.All-insert IsListed a.records d.name _ (record { own_name = refl; valid = e }) h
  applied-All a d (err x) e h = h

  -- Every message keeps the catalogue sound: each deployment in it is valid, and is listed under its
  -- own name.
  handle-All :
      (a : DeploymentManagerActor Json F) (msg : DeploymentManagerMsg Json F)
      → All IsListed a.records
      → All IsListed (handle a msg).0.records
  unfolding handle
  handle-All a (apply d) h = applied-All a d (validate d) refl h
  handle-All a (remove name) h = Maps.All-remove IsListed a.records name h
  handle-All a list h = h
  handle-All a (get name) h = h

  applied-get :
      (a : DeploymentManagerActor Json F) (d : Deployment Json F) (name : String)
      → Maps.get (applied a d (ok tt)).0.records name ≡ (
          if str_eq d.name name
          then some (record { deployment = d; state = pending })
          else Maps.get a.records name)
  unfolding applied
  applied-get a d name = Maps.get-insert a.records d.name _ name

  -- Applying a valid deployment makes it what its name stands for, pending, and leaves every other
  -- name as it was.
  apply_then_get :
      (a : DeploymentManagerActor Json F) (d : Deployment Json F) (name : String)
      → validate d ≡ ok tt
      → (handle (handle a (apply d)).0 (get name)).1
        ≡ found (
            if str_eq d.name name
            then some (record { deployment = d; state = pending })
            else Maps.get a.records name)
  unfolding handle
  apply_then_get a d name e = rw (e, handle) (ap found (applied-get a d name))

  -- Removing a name leaves nothing under it, and every other name as it was.
  remove_then_get :
      (a : DeploymentManagerActor Json F) (name other : String)
      → (handle (handle a (remove name)).0 (get other)).1
        ≡ found (if str_eq name other then none else Maps.get a.records other)
  unfolding handle
  remove_then_get a name other = ap found (Maps.get-remove a.records name other)
