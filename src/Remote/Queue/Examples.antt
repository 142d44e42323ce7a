-- ===== src/Remote/Queue/Examples.antt =====
-- The queue at work, and instances of its theorems. A batch is a number here.
use mathlib.Core.List.{Perm}
use rakka_inference.Base.{[], arith, refl, ℕ, ◌∷◌, ◌≡◌}
use rakka_inference.Remote.Queue.{
  Priority, PriorityRequest, RequestQueue, drain, high, new, normal, push,
}
use rakka_inference.Remote.Queue.Order.{IsServed, drain-IsServed}

abbrev request : Priority → ℕ → ℕ → PriorityRequest ℕ (Unit {0})
request p seq batch = record { priority = p; arrival_seq = seq; batch = batch; output = tt }

-- Two normal requests and a high one, pushed in this order.
abbrev three : RequestQueue ℕ (Unit {0})
three = record {
  inner = request high 2 30 ∷ request normal 1 20 ∷ request normal 0 10 ∷ [];
  capacity = 3;
  next_seq = 3;
}

pushes_make_three :
    (push
      (push (push (new 3) (request normal 0 10)).0 (request normal 0 20)).0
      (request high 0 30)).0
    ≡ three
unfolding push new
pushes_make_three = refl

priority_first_then_fifo :
    drain 3 three ≡ request high 2 30 ∷ request normal 0 10 ∷ request normal 1 20 ∷ []
unfolding drain
priority_first_then_fifo = refl

drain-IsServed_example : IsServed (drain 3 three) × Perm three.inner (drain 3 three)
drain-IsServed_example = drain-IsServed 3 three (omega arith)
