-- ===== src/Remote/Queue.antt =====
-- crates/inference-remote-core/src/queue.rs: the bounded priority queue in front of the workers. The
-- standard library's `BinaryHeap` is the bag of its items, from which `pop` takes a greatest one.
pub mod Order
pub mod Bounds
mod Examples
use Prim.Native.Nat.{compare, Ordering}
use rakka_inference.Base.{
  Bool, List, Option, Result, [], err, false, if◌then◌else◌, leb, length, none, ok, some, suc, true,
  zero, ℕ, ◌+◌, ◌==◌, ◌∷◌,
}
use rakka_inference.Core.Duration.{u64}

pub data Priority : Type 0 where
  background normal high critical : Priority

-- The derived order is that of declaration.
abbrev pub rank : Priority → ℕ
rank background = 0
rank normal = 1
rank high = 2
rank critical = 3

pub record PriorityRequest (Batch Sender : Type 0) : Type 0 where
  pub priority : Priority
  pub arrival_seq : ℕ
  pub batch : Batch
  pub output : Sender

abbrev then_with : Ordering → Ordering → Ordering
then_with Ordering.lt o = Ordering.lt
then_with Ordering.eq o = o
then_with Ordering.gt o = Ordering.gt

abbrev is_lt : Ordering → Bool
is_lt Ordering.lt = true
is_lt _ = false

module _ {Batch Sender : Type 0} where
  -- `impl Ord for PriorityRequest`: the arrival numbers are compared the other way round.
  pub cmp : PriorityRequest Batch Sender → PriorityRequest Batch Sender → Ordering
  cmp a b =
      then_with (compare (rank a.priority) (rank b.priority)) (compare b.arrival_seq a.arrival_seq)

  -- `BinaryHeap::pop`.
  greater :
      PriorityRequest Batch Sender
      → Option (PriorityRequest Batch Sender × List (PriorityRequest Batch Sender))
      → Option (PriorityRequest Batch Sender × List (PriorityRequest Batch Sender))
  unfolding cmp
  greater x none = some (x, [])
  greater x (some (m, rest)) = if is_lt (cmp x m) then some (m, x ∷ rest) else some (x, m ∷ rest)

  pub heap_pop :
      List (PriorityRequest Batch Sender)
      → Option (PriorityRequest Batch Sender × List (PriorityRequest Batch Sender))
  unfolding greater
  heap_pop [] = none
  heap_pop (x ∷ xs) = greater x (heap_pop xs)

module _ (Batch Sender : Type 0) where
  pub record RequestQueue : Type 0 where
    pub inner : List (PriorityRequest Batch Sender)
    pub capacity : ℕ
    pub next_seq : ℕ  -- u64

module _ {Batch Sender : Type 0} where
  unfoldable pub new : ℕ → RequestQueue Batch Sender
  new capacity = record { inner = []; capacity = capacity; next_seq = 0 }

  abbrev pub is_empty : RequestQueue Batch Sender → Bool
  is_empty q = length q.inner == 0

  abbrev pub is_full : RequestQueue Batch Sender → Bool
  is_full q = leb q.capacity (length q.inner)

  -- A full queue hands the request back.
  unfoldable pub push :
      RequestQueue Batch Sender
      → PriorityRequest Batch Sender
      → RequestQueue Batch Sender × Result (Unit {0}) (PriorityRequest Batch Sender)
  push q req = if is_full q then (q, err req) else (
    record q {
      inner = record req { arrival_seq = q.next_seq } ∷ q.inner;
      next_seq = u64 (q.next_seq + 1);
    },
    ok tt,
  )

  popped :
      RequestQueue Batch Sender
      → Option (PriorityRequest Batch Sender × List (PriorityRequest Batch Sender))
      → RequestQueue Batch Sender × Option (PriorityRequest Batch Sender)
  popped q none = (q, none)
  popped q (some (m, rest)) = (record q { inner = rest }, some m)

  unfoldable pub pop :
      RequestQueue Batch Sender → RequestQueue Batch Sender × Option (PriorityRequest Batch Sender)
  unfolding popped heap_pop
  pop q = popped q (heap_pop q.inner)

  -- Taking requests out, one after the other.
  pub drain : ℕ → RequestQueue Batch Sender → List (PriorityRequest Batch Sender)
  unfolding pop
  drain zero q = []
  drain (suc n) q =
      let (q', m) = pop q in let rest = drain n q' in elim m [ none ↦ [] | some r ↦ r ∷ rest ]
