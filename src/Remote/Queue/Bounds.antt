-- ===== src/Remote/Queue/Bounds.antt =====
-- The capacity of the queue, and the numbers that it gives to arrivals.
use rakka_inference.Base.{
  All, Bool-cases, List, [], arith, err, false, inl, inr, length, ok, refl, true, ℕ, ◌+◌, ◌<◌, ◌^◌,
  ◌∷◌, ◌≡◌, ◌≤◌, ◌⊎◌,
}
use rakka_inference.Core.Duration.{u64}
use rakka_inference.Remote.Queue.{PriorityRequest, RequestQueue, is_full, pop, push}
use rakka_inference.Remote.Queue.Order.{All-heap_pop, heap_pop-Pops, pop-none, pop-some}

module _ {Batch Sender : Type 0} where
  -- The queue is within its capacity, and its arrival numbers fall along the list of its items in the
  -- order in which they were pushed, below the next number.
  pub record Inv (q : RequestQueue Batch Sender) : Type 0 where
    pub bounded : length q.inner ≤ q.capacity
    pub numbered : All (λ r. r.arrival_seq < q.next_seq) q.inner

  pub push_full :
      (q : RequestQueue Batch Sender) (req : PriorityRequest Batch Sender)
      → is_full q ≡ true
      → push q req ≡ (q, err req)
  unfolding push
  push_full q req e = rw e refl

  pub push_room :
      (q : RequestQueue Batch Sender) (req : PriorityRequest Batch Sender)
      → is_full q ≡ false
      → push q req ≡ (
        record q {
          inner = record req { arrival_seq = q.next_seq } ∷ q.inner;
          next_seq = u64 (q.next_seq + 1);
        },
        ok tt,
      )
  unfolding push
  push_room q req e = rw e refl

  All-suc :
      (n : ℕ) (xs : List (PriorityRequest Batch Sender))
      → n + 1 < 2 ^ 64
      → All (λ r. r.arrival_seq < n) xs
      → All (λ r. r.arrival_seq < u64 (n + 1)) xs
  All-suc n [] small a = tt
  All-suc n (x ∷ xs) small a = (omega arith, All-suc n xs small a.1)

  -- A push is refused exactly when the queue is full; then it changes nothing and hands the request
  -- back. Otherwise the request is in the queue with the next arrival number, larger than all those
  -- that wait, and the invariant is kept.
  push-Inv :
      (q : RequestQueue Batch Sender) (req : PriorityRequest Batch Sender)
      → Inv q
      → q.next_seq + 1 < 2 ^ 64
      → ((q.capacity ≤ length q.inner) × (push q req ≡ (q, err req)))
        ⊎ ((length q.inner < q.capacity)
            × ((push q req).1 ≡ ok tt)
            × ((push q req).0.inner ≡ record req { arrival_seq = q.next_seq } ∷ q.inner)
            × Inv (push q req).0)
  unfolding push
  push-Inv q req v small = elim (Bool-cases (is_full q)) [
    | inl full ↦ rw full (inl (ground arith, refl))
    | inr room ↦ rw room (
        inr (
          ground arith,
          refl,
          refl,
          record {
            bounded = ground arith;
            numbered = (omega arith, All-suc q.next_seq q.inner small v.numbered);
          },
        ))
  ]

  -- Taking a request out keeps the invariant.
  pop-Inv : (q : RequestQueue Batch Sender) → Inv q → Inv (pop q).0
  pop-Inv q v = elim (heap_pop-Pops q.inner) [
    | inl (empty, e) ↦ rw (pop-none q e) v
    | inr (x, rest, e, p, a, size) ↦
        let kept = rw e at (All-heap_pop (λ r. r.arrival_seq < q.next_seq) q.inner v.numbered) in
        let fits = v.bounded in
        rw (pop-some q x rest e) (record { bounded = omega arith; numbered = kept.1 })
  ]
