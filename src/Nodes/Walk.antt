-- ===== src/Nodes/Walk.antt =====
-- Going along a list: `nth`, `index` and `find`, and `insert` at a position.
use mathlib.Core.Path.{ap₂}
use libmowgli.Base.{
  ℕ, zero, suc, ◌+◌, ◌-◌, ◌/◌, ◌%◌, ◌≤◌, ◌<◌, ◌≡◌, ◌≢◌, refl, ap, ◌∙◌, sym, subst, List, [], ◌∷◌,
  ◌++◌, none, some, ◌==◌, ltb, length, length-append, arith, ◌⊎◌, inl, inr, get_elem?,
  get_elem?-append_right, Bool-cases,
}
use libmowgli.Nodes.{Ref, Mem, NodeList, size_mod, decrement, nth_forward, nth_backward, nth}
use libmowgli.Nodes.Chain.{
  head_or, last_or, Forward, Backward, Backward-left, Backward-right, IsList, last_or-append,
}

module _ (m : Mem) where
  nth_forward_lem :
      (fuel iter pos : ℕ) (xs : List Ref)
      → Forward m.next xs none
      → length xs < fuel
      → iter + length xs < size_mod
      → iter ≤ pos
      → nth_forward fuel m pos iter (head_or xs none) ≡ some (get_elem? xs (pos - iter))
  unfolding nth_forward
  nth_forward_lem zero iter pos xs c l s h = absurd (omega arith)
  nth_forward_lem (suc fuel) iter pos [] c l s h = refl
  nth_forward_lem (suc fuel) iter pos (x ∷ xs) c l s h = elim (Bool-cases (iter == pos)) [
    | inl e ↦ let z : pos - iter ≡ 0 = ground arith in rw (e, z) refl
    | inr e ↦
        let w : (iter + 1) % size_mod ≡ iter + 1 = omega arith in
        let z : pos - iter ≡ suc (pos - (iter + 1)) = ground arith in
        let less : iter + 1 ≤ pos = ground arith in
        rw (e, z, w, c.0)
          (nth_forward_lem fuel (iter + 1) pos xs c.1 (omega arith) (omega arith) less)
  ]

pub snoc-cases : (xs : List Ref) → (xs ≡ []) ⊎ ((us : List Ref) × (x : Ref) × (xs ≡ us ++ (x ∷ [])))
snoc-cases [] = inl refl
snoc-cases (x ∷ xs) = elim (snoc-cases xs) [
  | inl e ↦ inr ([], x, ap (◌∷◌ x) e)
  | inr (us, y, e) ↦ inr (x ∷ us, y, ap (◌∷◌ x) e)
]

get_elem?-snoc_other :
    (us : List Ref) (x : Ref) (pos : ℕ)
    → length us ≢ pos
    → get_elem? (us ++ (x ∷ [])) pos ≡ get_elem? us pos
get_elem?-snoc_other [] x zero h = absurd (h refl)
get_elem?-snoc_other [] x (suc pos) h = refl
get_elem?-snoc_other (u ∷ us) x zero h = refl
get_elem?-snoc_other (u ∷ us) x (suc pos) h = get_elem?-snoc_other us x pos (λ e. h (ap suc e))

module _ (m : Mem) (pos : ℕ) where
  -- The loop back from the last of `xs` ends at the position, or at NULL if there is none.
  abbrev EndsAt : ℕ → List Ref → Type 0
  EndsAt fuel xs =
      nth_backward fuel m pos (decrement (length xs)) (last_or none xs) ≡ some (get_elem? xs pos)

  nth_backward-step :
      (fuel : ℕ) (us : List Ref) (x : Ref)
      → m.prev x ≡ last_or none us
      → EndsAt fuel us
      → EndsAt (suc fuel) (us ++ (x ∷ []))
  unfolding nth_backward
  nth_backward-step fuel us x p ih =
      let last : last_or none (us ++ (x ∷ [])) ≡ some x = last_or-append none us (x ∷ []) in
      let n : length (us ++ (x ∷ [])) ≡ suc (length us) =
        omega (arith, length-append us (x ∷ [])) in
      rw (last, n)
        (elim (Bool-cases (length us == pos)) [
          | inl e ↦
              let here : pos ≡ length us + 0 = ground arith in
              rw e (ap some (sym (get_elem?-append_right us (x ∷ []) pos 0 here)))
          | inr e ↦
              let other : length us ≢ pos = ground arith in
              rw (e, p) (ih ∙ ap some (sym (get_elem?-snoc_other us x pos other)))
        ])

  nth_backward_lem :
      (fuel : ℕ) (xs : List Ref) → Backward m.prev none xs → length xs < fuel → EndsAt fuel xs
  unfolding nth_backward
  nth_backward_lem zero xs c l = absurd (omega arith)
  nth_backward_lem (suc fuel) xs c l = elim (snoc-cases xs) [
    | inl e ↦ subst (EndsAt (suc fuel)) (sym e) refl
    | inr (us, x, e) ↦
        let c' = subst (Backward m.prev none) e c in
        let n : length xs ≡ length us + 1 = omega (arith, length-append us (x ∷ []), ap length e) in
        subst (EndsAt (suc fuel)) (sym e) (
          nth_backward-step fuel us x (Backward-right m.prev none us (x ∷ []) c').0
            (nth_backward_lem fuel us (Backward-left m.prev none us (x ∷ []) c') (omega arith)))
  ]

module _ (fuel : ℕ) (m : Mem) (l : NodeList) (xs : List Ref) (i : IsList m l xs)
    (enough : length xs < fuel) where
  -- `nth` on a well-formed list of fewer than 2 ^ 64 nodes, with more fuel than nodes, ends
  -- with the node at the position, or with NULL behind the end, whether it walks from the head
  -- or from the tail.
  pub nth-get_elem? : (pos : ℕ) → length xs < size_mod → nth fuel m l pos ≡ some (get_elem? xs pos)
  unfolding nth
  nth-get_elem? pos small = elim (Bool-cases (ltb pos (l.count / 2))) [
    | inl e ↦ rw e (
        ap (nth_forward fuel m pos 0) i.head_is
        ∙ nth_forward_lem m fuel 0 pos xs i.forward enough (omega arith) (omega arith)
        ∙ ap (λ k. some (get_elem? xs k)) (omega arith))
    | inr e ↦ rw e (
        ap₂ (λ c t. nth_backward fuel m pos (decrement c) t) i.counted i.tail_is
        ∙ nth_backward_lem m pos fuel xs i.backward enough)
  ]
