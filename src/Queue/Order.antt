-- ===== src/Queue/Order.antt =====
-- Which packets the consumers of the queue get, and in which order.
use zpenflow.Base.{
  ℕ, ◌≡◌, ◌==◌, refl, sym, Bool, true, false, Bool-cases, inl, inr, List, [], ◌∷◌, ◌++◌, length,
  append-nil, append_assoc,
}
use mathlib.Core.Path.{subst}
use zpenflow.Queue.{
  Inner, Op, push_op, pop_op, close_op, new, push, close, pop_front, pop_pass, pop_timeout_pass,
  run, accepted, handed,
}
use zpenflow.Queue.Overflow.{push_closed, push_full, push_room, queue}

-- The first list is the second with some elements left out.
pub data Sublist {A : Type 0} : List A → List A → Type 0 where
  nil : Sublist [] []
  keep : {a : A} {xs ys : List A} → Sublist xs ys → Sublist (a ∷ xs) (a ∷ ys)
  skip : {a : A} {xs ys : List A} → Sublist xs ys → Sublist xs (a ∷ ys)

module _ {A : Type 0} where
  Sublist-refl : (xs : List A) → Sublist xs xs
  Sublist-refl [] = nil
  Sublist-refl (x ∷ xs) = keep (Sublist-refl xs)

  Sublist-pop_front :
      (l zs : List A) {xs : List A} → Sublist xs (pop_front l ++ zs) → Sublist xs (l ++ zs)
  unfolding pop_front
  Sublist-pop_front [] zs h = h
  Sublist-pop_front (a ∷ l) zs h = skip h

  -- What a run leaves, of the packets in the queue and the packets still to come.
  abbrev Ordered : List (Op A) → Inner A → Type 0
  Ordered ops g = Sublist ((run ops g).0 ++ (run ops g).1.deque) (g.deque ++ accepted g.closed ops)

  push_kept :
      {out : List A} (a : A) (ops : List (Op A)) (g : Inner A)
      → Sublist out ((push a g).0.deque ++ accepted (push a g).0.closed ops)
      → Sublist out (g.deque ++ accepted g.closed (push_op a ∷ ops))
  unfolding accepted
  push_kept {out} a ops g h = elim (Bool-cases g.closed) [
    | inl e ↦
        let h1 : Sublist out (g.deque ++ accepted g.closed ops) = rw (push_closed a g e) at h in
        let h2 : Sublist out (g.deque ++ accepted true ops) =
          subst (λ (b : Bool). Sublist out (g.deque ++ accepted b ops)) e h1 in
        subst (λ (b : Bool). Sublist out (g.deque ++ accepted b (push_op a ∷ ops))) (sym e) h2
    | inr e ↦
        subst (λ (b : Bool). Sublist out (g.deque ++ accepted b (push_op a ∷ ops))) (sym e)
          (elim (Bool-cases (length g.deque == g.capacity)) [
            | inl full ↦
                let h1 =
                  rw
                    (
                      push_full a g e full,
                      append_assoc (pop_front g.deque) (a ∷ []) (accepted false ops),
                    )
                    at h in
                Sublist-pop_front g.deque (a ∷ accepted false ops) h1
            | inr room ↦
                rw (push_room a g e room, append_assoc g.deque (a ∷ []) (accepted false ops)) at h
          ])
  ]

  close_kept :
      {out : List A} (ops : List (Op A)) (deque : List A) (closed : Bool)
      → Sublist out (deque ++ [])
      → Sublist out (deque ++ accepted closed (close_op ∷ ops))
  unfolding accepted
  close_kept ops deque true h = h
  close_kept ops deque false h = h

  accepted-pop :
      (closed expired : Bool) (ops : List (Op A))
      → accepted closed (pop_op expired ∷ ops) ≡ accepted closed ops
  unfolding accepted
  accepted-pop true expired ops = refl
  accepted-pop false expired ops = refl

  accepted-nil : (closed : Bool) → accepted {A = A} closed [] ≡ []
  unfolding accepted
  accepted-nil true = refl
  accepted-nil false = refl

  -- A pass of a consumer: the packet it gets is the first.
  pop_kept :
      (e : Bool) (l : List A) (c : ℕ) (closed : Bool) (d : ℕ) (ops : List (Op A)) (got end : List A)
      → Sublist (got ++ end) (
          (pop_timeout_pass e (queue l c closed d)).1.deque
          ++ accepted (pop_timeout_pass e (queue l c closed d)).1.closed ops)
      → Sublist
          ((handed (pop_timeout_pass e (queue l c closed d)).0 ++ got) ++ end)
          (l ++ accepted closed (pop_op e ∷ ops))
  unfolding pop_timeout_pass pop_pass handed accepted
  pop_kept true [] c true d ops got end h = h
  pop_kept false [] c true d ops got end h = h
  pop_kept true [] c false d ops got end h = h
  pop_kept false [] c false d ops got end h = h
  pop_kept e (a ∷ l) c true d ops got end h = keep h
  pop_kept e (a ∷ l) c false d ops got end h = keep h

  run-Ordered :
      (ops : List (Op A)) (g : Inner A)
      → Sublist ((run ops g).0 ++ (run ops g).1.deque) (g.deque ++ accepted g.closed ops)
  unfolding run close accepted
  run-Ordered [] g = rw (accepted-nil g.closed, append-nil g.deque) (Sublist-refl g.deque)
  run-Ordered (push_op a ∷ ops) g = push_kept a ops g (run-Ordered ops (push a g).0)
  run-Ordered (pop_op e ∷ ops) g =
      pop_kept e g.deque g.capacity g.closed g.dropped_overflow ops _ _
        (run-Ordered ops (pop_timeout_pass e g).1)
  run-Ordered (close_op ∷ ops) g = close_kept ops g.deque g.closed (run-Ordered ops (close g))

  -- What the consumers of a fresh queue got, followed by what is still in it, are packets that were
  -- pushed before it was closed, in the order in which they were pushed.
  pub run-Sublist :
      (c : ℕ) (ops : List (Op A))
      → Sublist ((run ops (new c)).0 ++ (run ops (new c)).1.deque) (accepted false ops)
  unfolding new
  run-Sublist c ops = run-Ordered ops (new c)
