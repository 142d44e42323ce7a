-- ===== src/Remote/Queue/Order.antt =====
-- The order in which requests leave the queue: by priority, and by arrival within one.
use mathlib.Core.List.{Perm}
use mathlib.Core.List.Perm
use Prim.Native.Nat.{compare}
use rakka_inference.Base.{
  All, Bool-cases, List, Option, Option-cases, [], ap, arith, inl, inr, length, none, refl, some,
  suc, zero, ℕ, ◌<◌, ◌∷◌, ◌≡◌, ◌≤◌, ◌⊎◌,
}
use rakka_inference.Remote.Queue.{
  PriorityRequest, RequestQueue, cmp, drain, greater, heap_pop, is_lt, pop, popped, rank, then_with,
}

module _ {Batch Sender : Type 0} where
  -- `a` is not served before `b`.
  infix 50 ◌≼◌
  abbrev pub ◌≼◌ : PriorityRequest Batch Sender → PriorityRequest Batch Sender → Type 0
  a ≼ b =
      (rank a.priority < rank b.priority)
      ⊎ ((rank a.priority ≡ rank b.priority) × (b.arrival_seq ≤ a.arrival_seq))

  -- Nothing to take out, or a greatest request and the others.
  abbrev Pops :
      List (PriorityRequest Batch Sender)
      → Option (PriorityRequest Batch Sender × List (PriorityRequest Batch Sender))
      → Type 0
  Pops xs r =
      ((xs ≡ []) × (r ≡ none))
      ⊎ ((m : PriorityRequest Batch Sender) × (rest : List (PriorityRequest Batch Sender)) × (r
            ≡ some (m, rest))
          × Perm xs (m ∷ rest)
          × All (λ a. a ≼ m) rest
          × (length xs ≡ suc (length rest)))

  All-≼ :
      (x m : PriorityRequest Batch Sender) (rest : List (PriorityRequest Batch Sender))
      → m ≼ x
      → All (λ a. a ≼ m) rest
      → All (λ a. a ≼ x) rest
  All-≼ x m [] h a = tt
  All-≼ x m (y ∷ rest) h a = (omega arith, All-≼ x m rest h a.1)

  greater-Pops :
      (x : PriorityRequest Batch Sender) (xs : List (PriorityRequest Batch Sender))
      (r : Option (PriorityRequest Batch Sender × List (PriorityRequest Batch Sender)))
      → Pops xs r
      → Pops (x ∷ xs) (greater x r)
  unfolding greater cmp
  greater-Pops x xs r (inl (e, n)) = inr (x, [], ground arith, rw e Perm.rfl, tt, ground arith)
  greater-Pops x xs r (inr (m, rest, e, p, a, l)) =
      elim (Bool-cases (
        is_lt (
          then_with (compare (rank x.priority) (rank m.priority))
            (compare m.arrival_seq x.arrival_seq)))) [
              | inl less ↦ inr (
                m,
                x ∷ rest,
                rw (e, less) refl,
                Perm.trans (Perm.cons x p) (Perm.swap m x rest),
                (ground arith, a),
                omega arith,
              )
              | inr more ↦ inr (
                x,
                m ∷ rest,
                rw (e, more) refl,
                Perm.cons x p,
                (ground arith, All-≼ x m rest (ground arith) a),
                omega arith,
              )
            ]

  -- Taking from the heap gives nothing exactly when it is empty, and otherwise a request that none of
  -- the others comes before, and the others.
  pub heap_pop-Pops : (xs : List (PriorityRequest Batch Sender)) → Pops xs (heap_pop xs)
  unfolding heap_pop
  heap_pop-Pops [] = inl (refl, refl)
  heap_pop-Pops (x ∷ xs) = greater-Pops x xs (heap_pop xs) (heap_pop-Pops xs)

  abbrev AllPopped :
      (PriorityRequest Batch Sender → Type 0)
      → Option (PriorityRequest Batch Sender × List (PriorityRequest Batch Sender))
      → Type 0
  AllPopped P none = Unit {0}
  AllPopped P (some (x, rest)) = P x × All P rest

  All-greater :
      (P : PriorityRequest Batch Sender → Type 0) (x : PriorityRequest Batch Sender)
      (r : Option (PriorityRequest Batch Sender × List (PriorityRequest Batch Sender)))
      → P x
      → AllPopped P r
      → AllPopped P (greater x r)
  unfolding greater
  All-greater P x none px a = (px, tt)
  All-greater P x (some (m, rest)) px a = elim (Bool-cases (is_lt (cmp x m))) [
    | inl less ↦ rw less (a.0, (px, a.1))
    | inr more ↦ rw more (px, a)
  ]

  pub All-heap_pop :
      (P : PriorityRequest Batch Sender → Type 0) (xs : List (PriorityRequest Batch Sender))
      → All P xs
      → AllPopped P (heap_pop xs)
  unfolding heap_pop
  All-heap_pop P [] a = tt
  All-heap_pop P (x ∷ xs) a = All-greater P x (heap_pop xs) a.0 (All-heap_pop P xs a.1)

  drain-empty :
      (n : ℕ) (q : RequestQueue Batch Sender) → heap_pop q.inner ≡ none → drain (suc n) q ≡ []
  unfolding drain pop popped
  drain-empty n q e = rw (e, drain) refl

  pub pop-none : (q : RequestQueue Batch Sender) → heap_pop q.inner ≡ none → pop q ≡ (q, none)
  unfolding pop popped
  pop-none q e = rw e refl

  pub pop-some :
      (q : RequestQueue Batch Sender) (x : PriorityRequest Batch Sender)
      (rest : List (PriorityRequest Batch Sender))
      → heap_pop q.inner ≡ some (x, rest)
      → pop q ≡ (record q { inner = rest }, some x)
  unfolding pop popped
  pop-some q x rest e = rw e refl

  drain-pop :
      (n : ℕ) (q : RequestQueue Batch Sender) (x : PriorityRequest Batch Sender)
      (rest : List (PriorityRequest Batch Sender))
      → heap_pop q.inner ≡ some (x, rest)
      → drain (suc n) q ≡ x ∷ drain n (record q { inner = rest })
  unfolding drain pop popped
  drain-pop n q x rest e = rw (e, drain) (ap (λ p. x ∷ drain n p.0) (pop-some q x rest e))

  All-drain :
      (P : PriorityRequest Batch Sender → Type 0) (n : ℕ) (q : RequestQueue Batch Sender)
      → All P q.inner
      → All P (drain n q)
  unfolding drain
  All-drain P zero q a = tt
  All-drain P (suc n) q a = elim (Option-cases (heap_pop q.inner)) [
    | inl e ↦ rw (drain-empty n q e) tt
    | inr ((x, rest), e) ↦
        let kept = rw e at (All-heap_pop P q.inner a) in
        rw (drain-pop n q x rest e) (kept.0, All-drain P n (record q { inner = rest }) kept.1)
  ]

  -- Each request is followed by requests that are not to be served before it.
  abbrev pub IsServed : List (PriorityRequest Batch Sender) → Type 0
  IsServed [] = Unit {0}
  IsServed (x ∷ xs) = All (λ a. a ≼ x) xs × IsServed xs

  none_left : (xs : List (PriorityRequest Batch Sender)) → length xs ≤ 0 → Perm xs []
  none_left [] l = Perm.rfl
  none_left (x ∷ xs) l = absurd (omega arith)

  -- Draining the queue gives every request once, higher priorities first and, within one priority,
  -- earlier arrivals first.
  pub drain-IsServed :
      (n : ℕ) (q : RequestQueue Batch Sender)
      → length q.inner ≤ n
      → IsServed (drain n q) × Perm q.inner (drain n q)
  unfolding drain
  drain-IsServed zero q l = (tt, none_left q.inner l)
  drain-IsServed (suc n) q l = elim (heap_pop-Pops q.inner) [
    | inl (empty, e) ↦ rw (drain-empty n q e) (tt, rw empty Perm.rfl)
    | inr (x, rest, e, p, b, size) ↦
        let q' = record q { inner = rest } in
        let ih = drain-IsServed n q' (omega arith) in
        rw (drain-pop n q x rest e)
          ((All-drain (λ a. a ≼ x) n q' b, ih.0), Perm.trans p (Perm.cons x ih.1))
  ]
