-- ===== src/Subscription/Queue.antt =====
-- The heap is a priority queue: its head is the entry that is due first.
use serverless_gateway.Model.{SubscriptionJobInstanceHeap}
use serverless_gateway.Prelude.{All, ℕ, ◌≤◌, List, [], ◌∷◌, arith}
use mathlib.Core.List.{Perm}
use mathlib.Core.List.Perm
use serverless_gateway.Subscription.{push}

abbrev pub IsOrdered : List SubscriptionJobInstanceHeap → Type 0
IsOrdered [] = Unit
IsOrdered (x ∷ heap) = All (λ y. x.next_trigger_time ≤ y.next_trigger_time) heap × IsOrdered heap

pub push-All :
    (P : SubscriptionJobInstanceHeap → Type 0) (x : SubscriptionJobInstanceHeap)
    (heap : List SubscriptionJobInstanceHeap)
    → P x
    → All P heap
    → All P (push x heap)
unfolding push
push-All P x [] p h = (p, tt)
push-All P x (y ∷ heap) p h = ground (arith, push-All P x heap p h.1)

All-mono :
    (t u : ℕ) (heap : List SubscriptionJobInstanceHeap)
    → t ≤ u
    → All (λ y. u ≤ y.next_trigger_time) heap
    → All (λ y. t ≤ y.next_trigger_time) heap
All-mono t u [] le h = tt
All-mono t u (y ∷ heap) le h = (omega arith, All-mono t u heap le h.1)

push-IsOrdered :
    (x : SubscriptionJobInstanceHeap) (heap : List SubscriptionJobInstanceHeap)
    → IsOrdered heap
    → IsOrdered (push x heap)
unfolding push
push-IsOrdered x [] h = (tt, tt)
push-IsOrdered x (y ∷ heap) h = ground (
  arith,
  push-IsOrdered x heap h.1,
  All-mono x.next_trigger_time y.next_trigger_time heap,
  push-All (λ z. y.next_trigger_time ≤ z.next_trigger_time) x heap,
)

push-perm :
    (x : SubscriptionJobInstanceHeap) (heap : List SubscriptionJobInstanceHeap)
    → Perm (push x heap) (x ∷ heap)
unfolding push
push-perm x [] = Perm.refl _
push-perm x (y ∷ heap) =
    let moved : Perm (y ∷ push x heap) (x ∷ y ∷ heap) =
      Perm.trans (Perm.cons y (push-perm x heap)) (Perm.swap x y heap) in
    ground (arith, moved, Perm.refl (x ∷ y ∷ heap))

-- A push adds the entry and no other, and keeps the entry that is due first at the head.
pub push-IsOrdered-perm :
    (x : SubscriptionJobInstanceHeap) (heap : List SubscriptionJobInstanceHeap)
    → IsOrdered heap
    → IsOrdered (push x heap) × Perm (push x heap) (x ∷ heap)
push-IsOrdered-perm x heap h = (push-IsOrdered x heap h, push-perm x heap)
