-- ===== src/Queue/Walk.antt =====
-- Walking along a queue.
use libmowgli.Base.{
  ℕ, zero, suc, ◌+◌, ◌<◌, ◌≡◌, ap, ◌∙◌, sym, subst, List, [], ◌∷◌, ◌++◌, Option, none, some, length,
  length-append, arith, inl, inr,
}
use libmowgli.Nodes.{Ref, Mem}
use libmowgli.Nodes.Chain.{
  head_or, last_or, head_or-append, last_or-append, Forward, Backward, Forward-right, Backward-left,
  Backward-right,
}
use libmowgli.Nodes.Walk.{snoc-cases}
use libmowgli.Queue.{head, tail, length_loop, queue_length}
use libmowgli.Queue.Edit.{IsQueue}

module _ (m : Mem) where
  length_loop-length :
      (fuel iter : ℕ) (xs : List Ref)
      → Forward m.next xs none
      → length xs < fuel
      → length_loop fuel m iter (head_or xs none) ≡ some (iter + length xs)
  unfolding length_loop
  length_loop-length zero iter xs c l = absurd (omega arith)
  length_loop-length (suc fuel) iter [] c l = ap some (omega arith)
  length_loop-length (suc fuel) iter (x ∷ xs) c l =
      ap (length_loop fuel m (iter + 1)) c.0
      ∙ length_loop-length fuel (iter + 1) xs c.1 (omega arith)
      ∙ ap some (omega arith)

  tail-last_or :
      (fuel : ℕ) (n : Ref) (ys : List Ref)
      → Forward m.next (n ∷ ys) none
      → length ys < fuel
      → tail fuel m n ≡ last_or none (n ∷ ys)
  unfolding tail
  tail-last_or zero n ys c l = absurd (omega arith)
  tail-last_or (suc fuel) n [] c l =
      ap
        (λ (o : Option Ref). elim o as (λ _. Option Ref) [ none ↦ some n | some x ↦ tail fuel m x ])
        c.0
  tail-last_or (suc fuel) n (y ∷ ys) c l =
      ap
        (λ (o : Option Ref). elim o as (λ _. Option Ref) [ none ↦ some n | some x ↦ tail fuel m x ])
        c.0
      ∙ tail-last_or fuel y ys c.1 (omega arith)

  head-head_or :
      (fuel : ℕ) (n : Ref) (xs : List Ref)
      → Backward m.prev none xs
      → m.prev n ≡ last_or none xs
      → length xs < fuel
      → head fuel m n ≡ head_or xs (some n)
  unfolding head
  head-head_or zero n xs c e l = absurd (omega arith)
  head-head_or (suc fuel) n xs c e l =
      let go : Option Ref → Option Ref =
        λ (o : Option Ref). elim o [ none ↦ some n | some p ↦ head fuel m p ] in
      elim (snoc-cases xs) [
        | inl k ↦ ap go (e ∙ ap (last_or none) k) ∙ ap (λ zs. head_or zs (some n)) (sym k)
        | inr (us, x, k) ↦
            let c' = subst (Backward m.prev none) k c in
            let size : length xs ≡ length us + 1 =
              omega (arith, ap length k, length-append us (x ∷ [])) in
            ap go (e ∙ ap (last_or none) k ∙ last_or-append none us (x ∷ []))
            ∙ head-head_or fuel x us (Backward-left m.prev none us (x ∷ []) c')
                (Backward-right m.prev none us (x ∷ []) c').0 (omega arith)
            ∙ sym (ap (λ zs. head_or zs (some n)) k ∙ head_or-append us (x ∷ []) (some n))
      ]

module _ (fuel : ℕ) (m : Mem) (n : Ref) (xs ys : List Ref) (i : IsQueue m (xs ++ (n ∷ ys))) where
  behind : Forward m.next (n ∷ ys) none
  behind = Forward-right m.next xs (n ∷ ys) none i.forward

  pub queue_length-suc : length ys + 1 < fuel → queue_length fuel m n ≡ some (suc (length ys))
  unfolding queue_length
  queue_length-suc l =
      length_loop-length m fuel 0 (n ∷ ys) behind (omega arith) ∙ ap some (omega arith)

  -- From any element of a well-formed queue, with more fuel than elements before and behind it,
  -- `head` ends at the first element and `tail` at the last.
  pub head-tail :
      length xs < fuel
      → length ys < fuel
      → (head fuel m n ≡ head_or (xs ++ (n ∷ ys)) none)
        × (tail fuel m n ≡ last_or none (xs ++ (n ∷ ys)))
  head-tail l k = (
    head-head_or m fuel n xs (Backward-left m.prev none xs (n ∷ ys) i.backward)
          (Backward-right m.prev none xs (n ∷ ys) i.backward).0 l
        ∙ sym (head_or-append xs (n ∷ ys) none),
    tail-last_or m fuel n ys behind k ∙ sym (last_or-append none xs (n ∷ ys)),
  )
