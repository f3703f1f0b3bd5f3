-- ===== src/Runtime/Scheduler/Order.antt =====
-- Queues in the order of their keys.
use systemscope.Base.{
  ◌≡◌, ◌≢◌, refl, Bool, true, false, List, [], ◌∷◌, arith, All, All-map, if-cases,
}
use systemscope.Runtime.Scheduler.{EventKey, PhaseOrder, Event, insert_by, sort_by, by_key}

module _ {Phase : Type 0} (order : PhaseOrder Phase) where
  abbrev pub Before : EventKey Phase → EventKey Phase → Type 0
  Before a b = order.key_ltb a b ≡ true

  pub Before-trans : (a b c : EventKey Phase) → Before a b → Before b c → Before a c
  Before-trans a b c p q = ground (
    arith,
    p,
    q,
    order.key_ltb-lexicographic a b,
    order.key_ltb-lexicographic b c,
    order.key_ltb-lexicographic a c,
  )

  pub Before-asym : (a b : EventKey Phase) → Before a b → order.key_ltb b a ≡ false
  Before-asym a b p =
      ground (arith, p, order.key_ltb-lexicographic a b, order.key_ltb-lexicographic b a)

  -- Keys with different sequence numbers are ordered.
  pub Before-total :
      (a b : EventKey Phase) → a.sequence ≢ b.sequence → order.key_ltb a b ≡ false → Before b a
  Before-total a b n p =
      ground (arith, n, p, order.key_ltb-lexicographic a b, order.key_ltb-lexicographic b a)

  module _ {T : Type 0} where
    -- Strictly ascending by key.
    abbrev pub IsOrdered : List (Event Phase T) → Type 0
    IsOrdered [] = Unit
    IsOrdered (e ∷ es) = All (λ f. Before e.key f.key) es × IsOrdered es

    pub All-insert_by :
        (P : Event Phase T → Type 0) (before : Event Phase T → Event Phase T → Bool)
        (e : Event Phase T) (es : List (Event Phase T))
        → P e
        → All P es
        → All P (insert_by before e es)
    unfolding insert_by
    All-insert_by P before e [] p h = (p, tt)
    All-insert_by P before e (f ∷ es) p (q, h) =
        if-cases (All P) (before f e) (λ t. (q, All-insert_by P before e es p h)) (λ t. (p, (q, h)))

    pub All-sort_by :
        (P : Event Phase T → Type 0) (before : Event Phase T → Event Phase T → Bool)
        (es : List (Event Phase T))
        → All P es
        → All P (sort_by before es)
    unfolding sort_by
    All-sort_by P before [] h = tt
    All-sort_by P before (e ∷ es) (p, h) =
        All-insert_by P before e (sort_by before es) p (All-sort_by P before es h)

    -- An event with a new sequence number is inserted in order.
    pub insert_by-IsOrdered :
        (e : Event Phase T) (es : List (Event Phase T))
        → All (λ f. f.key.sequence ≢ e.key.sequence) es
        → IsOrdered es
        → IsOrdered (insert_by (by_key order) e es)
    unfolding insert_by
    insert_by-IsOrdered e [] n h = (tt, tt)
    insert_by-IsOrdered e (f ∷ es) (d, n) (a, h) =
        if-cases IsOrdered (order.key_ltb f.key e.key)
          (λ t. (All-insert_by _ (by_key order) e es t a, insert_by-IsOrdered e es n h))
          (λ t.
            let first = Before-total f.key e.key d t in
            ((first, All-map (λ g b. Before-trans e.key f.key g.key first b) es a), (a, h)))

    insert_by-front :
        (e : Event Phase T) (es : List (Event Phase T))
        → All (λ f. Before e.key f.key) es
        → insert_by (by_key order) e es ≡ e ∷ es
    unfolding insert_by
    insert_by-front e [] h = refl
    insert_by-front e (f ∷ es) (b, h) = rw (Before-asym e.key f.key b) refl

    pub sort_by-IsOrdered :
        (es : List (Event Phase T)) → IsOrdered es → sort_by (by_key order) es ≡ es
    unfolding sort_by
    sort_by-IsOrdered [] h = refl
    sort_by-IsOrdered (e ∷ es) (a, h) = rw (sort_by-IsOrdered es h) (insert_by-front e es a)
