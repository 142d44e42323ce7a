-- ===== src/Runtime/Coordinator/Routing.antt =====
-- Which engine a request is routed to.
use rakka_inference.Base.{
  All, Bool-cases, List, Option-cases, [], err, false, get_elem?, inl, inr, none, ok, refl, some,
  suc, true, zero, ℕ, ◌∷◌, ◌≡◌,
}
use rakka_inference.Base.Maps.{get, get-insert_same, insert}
use rakka_inference.Runtime.Coordinator.{
  CoordinatorState, Engines, RouteTarget, deregister, is_greater, min_by, modify, no_engine, pick,
  report_load, retain, with_load,
}
use Prim.Native.String.{String}

-- What the comparison of the loads that are numbers does.
pub record Ordered (es : Engines) (IsNumber : es.Load → Type 0) : Type 0 where
  pub irrefl : (a : es.Load) → is_greater es a a ≡ false
  pub asym : (a b : es.Load) → is_greater es a b ≡ true → is_greater es b a ≡ false
  pub trans :
      (a b c : es.Load)
      → IsNumber a
      → IsNumber b
      → IsNumber c
      → is_greater es a b ≡ false
      → is_greater es b c ≡ false
      → is_greater es a c ≡ false

module _ {es : Engines} where
  min_by-All :
      (P : RouteTarget es → Type 0) (best : RouteTarget es) (ts : List (RouteTarget es))
      → P best
      → All P ts
      → P (min_by best ts)
  unfolding min_by
  min_by-All P best [] p a = p
  min_by-All P best (t ∷ ts) p a = elim (Bool-cases (is_greater es best.load t.load)) [
    | inl g ↦ rw (g, min_by) (min_by-All P t ts a.0 a.1)
    | inr g ↦ rw (g, min_by) (min_by-All P best ts p a.1)
  ]

  among_later :
      (best t : RouteTarget es) (ts : List (RouteTarget es)) {m n : RouteTarget es}
      → n ≡ m
      → (i : ℕ) × (get_elem? (best ∷ ts) i ≡ some m)
      → (i : ℕ) × (get_elem? (best ∷ t ∷ ts) i ≡ some n)
  among_later best t ts e (zero, h) = (0, rw e h)
  among_later best t ts e (suc i, h) = (suc (suc i), rw e h)

  min_by-among :
      (best : RouteTarget es) (ts : List (RouteTarget es))
      → (i : ℕ) × (get_elem? (best ∷ ts) i ≡ some (min_by best ts))
  unfolding min_by
  min_by-among best [] = (0, refl)
  min_by-among best (t ∷ ts) = elim (Bool-cases (is_greater es best.load t.load)) [
    | inl g ↦ let (i, e) = min_by-among t ts in (suc i, rw (g, min_by) e)
    | inr g ↦ among_later best t ts (rw (g, min_by) refl) (min_by-among best ts)
  ]

  pick_none :
      (st : CoordinatorState es) (deployment : String)
      → get st.routes deployment ≡ none
      → pick st deployment ≡ err (no_engine deployment)
  unfolding pick
  pick_none st deployment e = rw (e, pick) refl

  pick_nil :
      (st : CoordinatorState es) (deployment : String)
      → get st.routes deployment ≡ some []
      → pick st deployment ≡ err (no_engine deployment)
  unfolding pick
  pick_nil st deployment e = rw (e, pick) refl

  pick_cons :
      (st : CoordinatorState es) (deployment : String) (t : RouteTarget es)
      (ts : List (RouteTarget es))
      → get st.routes deployment ≡ some (t ∷ ts)
      → pick st deployment ≡ ok (min_by t ts)
  unfolding pick
  pick_cons st deployment t ts e = rw (e, pick) refl

  pick-All :
      (P : RouteTarget es → Type 0) (st : CoordinatorState es) (deployment : String)
      (v : List (RouteTarget es)) (t : RouteTarget es)
      → get st.routes deployment ≡ some v
      → All P v
      → pick st deployment ≡ ok t
      → P t
  pick-All P st deployment [] t e a h = let r = pick_nil st deployment e in cc
  pick-All P st deployment (x ∷ xs) t e a h =
      let r = pick_cons st deployment x xs e in
      let m : min_by x xs ≡ t = cc in rw m at (min_by-All P x xs a.0 a.1)

  modify-All :
      (P : RouteTarget es → Type 0) (st : CoordinatorState es) (deployment : String)
      (f : List (RouteTarget es) → List (RouteTarget es)) (t : RouteTarget es)
      → ((v : List (RouteTarget es)) → All P (f v))
      → pick (modify st deployment f) deployment ≡ ok t
      → P t
  modify-All P st deployment f t kept h = elim (Option-cases (get st.routes deployment)) [
    | inl n ↦ let r = pick_none st deployment n in let h' = rw (n, modify) at h in cc
    | inr (v, s) ↦
        pick-All P (record { routes = insert st.routes deployment (f v) }) deployment (f v) t
          (get-insert_same st.routes deployment (f v)) (kept v) (rw (s, modify) at h)
  ]

  retain-All :
      (p : es.ActorPath) (v : List (RouteTarget es))
      → All (λ t. es.same (es.path t.engine) p ≡ false) (retain v p)
  unfolding retain
  retain-All p [] = tt
  retain-All p (t ∷ ts) = elim (Bool-cases (es.same (es.path t.engine) p)) [
    | inl s ↦ rw (s, retain) (retain-All p ts)
    | inr s ↦ rw (s, retain) (s, retain-All p ts)
  ]

  with_load-All :
      (p : es.ActorPath) (l : es.Load) (v : List (RouteTarget es))
      → All (λ t. es.same (es.path t.engine) p ≡ true → t.load ≡ l) (with_load v p l)
  unfolding with_load
  with_load-All p l [] = tt
  with_load-All p l (t ∷ ts) = elim (Bool-cases (es.same (es.path t.engine) p)) [
    | inl s ↦ rw (s, with_load) (λ _. refl, with_load-All p l ts)
    | inr s ↦ rw (s, with_load) (λ h. cc, with_load-All p l ts)
  ]

  -- A request is never routed to an engine that has deregistered since.
  deregister-pick :
      (st : CoordinatorState es) (deployment : String) (p : es.ActorPath) (t : RouteTarget es)
      → pick (deregister st deployment p) deployment ≡ ok t
      → es.same (es.path t.engine) p ≡ false
  unfolding deregister
  deregister-pick st deployment p t h =
      modify-All (λ u. es.same (es.path u.engine) p ≡ false) st deployment (λ v. retain v p) t
        (retain-All p) h

  -- The target of a request carries the load that its engine reported last.
  report_load-pick :
      (st : CoordinatorState es) (deployment : String) (p : es.ActorPath) (l : es.Load)
      (t : RouteTarget es)
      → pick (report_load st deployment p l) deployment ≡ ok t
      → es.same (es.path t.engine) p ≡ true
      → t.load ≡ l
  unfolding report_load
  report_load-pick st deployment p l t h =
      modify-All (λ u. es.same (es.path u.engine) p ≡ true → u.load ≡ l) st deployment
        (λ v. with_load v p l) t (with_load-All p l) h

  min_by_next :
      (best t : RouteTarget es) (ts : List (RouteTarget es))
      → is_greater es best.load t.load ≡ true
      → min_by best (t ∷ ts) ≡ min_by t ts
  unfolding min_by
  min_by_next best t ts g = rw g refl

  min_by_stay :
      (best t : RouteTarget es) (ts : List (RouteTarget es))
      → is_greater es best.load t.load ≡ false
      → min_by best (t ∷ ts) ≡ min_by best ts
  unfolding min_by
  min_by_stay best t ts g = rw g refl

  -- A load that is a number, and none of the targets has a smaller one.
  pub record IsLeast (IsNumber : es.Load → Type 0) (m : RouteTarget es) (v : List (RouteTarget es))
      : Type 0 where
    pub number : IsNumber m.load
    pub least : All (λ u. is_greater es m.load u.load ≡ false) v

  module _ (IsNumber : es.Load → Type 0) (o : Ordered es IsNumber) where
    min_by-IsLeast :
        (best : RouteTarget es) (ts : List (RouteTarget es))
        → All (λ u. IsNumber u.load) (best ∷ ts)
        → IsLeast IsNumber (min_by best ts) (best ∷ ts)
    unfolding min_by
    min_by-IsLeast best [] n = record { number = n.0; least = (o.irrefl best.load, tt) }
    min_by-IsLeast best (t ∷ ts) n = elim (Bool-cases (is_greater es best.load t.load)) [
      | inl g ↦
          let ih = min_by-IsLeast t ts n.1 in
          let up =
            o.trans (min_by t ts).load t.load best.load ih.number n.1.0 n.0 ih.least.0
              (o.asym best.load t.load g) in
          rw (min_by_next best t ts g) (record { number = ih.number; least = (up, ih.least) })
      | inr g ↦
          let ih = min_by-IsLeast best ts (n.0, n.1.1) in
          let up =
            o.trans (min_by best ts).load best.load t.load ih.number n.0 n.1.0 ih.least.0 g in
          rw (min_by_stay best t ts g)
            (record { number = ih.number; least = (ih.least.0, (up, ih.least.1)) })
    ]

    -- A deployment with candidates whose loads are numbers is routed to one of them, and none has a
    -- smaller load.
    pub pick-IsLeast :
        (st : CoordinatorState es) (deployment : String) (t : RouteTarget es)
        (ts : List (RouteTarget es))
        → get st.routes deployment ≡ some (t ∷ ts)
        → All (λ u. IsNumber u.load) (t ∷ ts)
        → (m : RouteTarget es) × (pick st deployment ≡ ok m)
          × IsLeast IsNumber m (t ∷ ts)
          × ((i : ℕ) × (get_elem? (t ∷ ts) i ≡ some m))
    pick-IsLeast st deployment t ts e n =
        (min_by t ts, pick_cons st deployment t ts e, min_by-IsLeast t ts n, min_by-among t ts)
