-- ===== src/Dictionary/Iterate.antt =====
-- Going through a dictionary: the callbacks, the static iterator, the statistics.
use Prim.Native.Nat.{Ordering}
use libmowgli.Dictionary.Lookup.{IsValid}
use libmowgli.Dictionary.Map.{key_at}
use libmowgli.Dictionary.Order.{IsOrder, Sorted, before_ne}
use libmowgli.Base.{
  subst, append_assoc, false, ℕ, zero, suc, ◌+◌, ◌<◌, ◌≡◌, ◌≢◌, refl, ap, ◌∙◌, sym, List, [], ◌∷◌,
  ◌++◌, arith, Option, some, none, ◌==◌, if◌then◌else◌, All, length, max, ltb,
}
use libmowgli.Dictionary.{Ref, Tree, leaf, node, Dict, next_of}

-- `mowgli_dictionary_iteration_state_t`
pub record Iteration : Type 0 where
  pub cur : Option Ref
  pub next : Option Ref

abbrev state : Option Ref → Option Ref → Iteration
state c n = record { cur = c; next = n }

abbrev pub head? : List Ref → Option Ref
head? [] = none
head? (x ∷ xs) = some x

-- `state->next->next`
behind : List Ref → Option Ref → Option Ref
unfolding next_of
behind order none = none
behind order (some x) = next_of order x

-- A call behind the end is logged and changes nothing.
step : List Ref → Option Ref → Option Ref → Iteration
unfolding behind
step order none next = state none next
step order (some x) next = state next (behind order next)

module _ {K : Type 0} where
  pub foreach_next : Dict K → Iteration → Iteration
  unfolding step
  foreach_next d s = step d.order s.cur s.next

  pub foreach_start : Dict K → Iteration
  unfolding foreach_next
  foreach_start d = elim (head? d.order) [
    | none ↦ state none none
    | some x ↦ foreach_next d (state (some x) (some x))
  ]

  pub foreach_cur : Dict K → Iteration → ℕ
  foreach_cur d s = elim s.cur [ none ↦ 0 | some x ↦ (d.store x).value ]

  -- The loop `MOWGLI_DICTIONARY_FOREACH`: the data seen, with a bound on the rounds.
  pub visit : ℕ → Dict K → Iteration → List ℕ
  unfolding foreach_next foreach_cur
  visit zero d s = []
  visit (suc n) d s =
      let rest = visit n d (foreach_next d s) in
      if foreach_cur d s == 0 then [] else foreach_cur d s ∷ rest

  abbrev pub values : Dict K → List Ref → List ℕ
  values d [] = []
  values d (x ∷ xs) = (d.store x).value ∷ values d xs

-- The callback changes the caller's state; NULL is no callback.
module _ {S : Type 0} where
  foreach_list : (S → Ref → S) → S → List Ref → S
  foreach_list cb s [] = s
  foreach_list cb s (x ∷ xs) = foreach_list cb (cb s x) xs

  search_list : (S → Ref → S × ℕ) → S → List Ref → S × ℕ
  search_list cb s [] = (s, 0)
  search_list cb s (x ∷ xs) =
      let rest = search_list cb (cb s x).0 xs in if (cb s x).1 == 0 then rest else cb s x

module _ {K S : Type 0} where
  pub foreach : Dict K → Option (S → Ref → S) → S → S
  unfolding foreach_list
  foreach d none s = s
  foreach d (some cb) s = foreach_list cb s d.order

  -- The walk ends at the first result that is not NULL.
  pub search : Dict K → Option (S → Ref → S × ℕ) → S → S × ℕ
  unfolding search_list
  search d none s = (s, 0)
  search d (some cb) s = search_list cb s d.order

-- The sum of the depths, and the greatest depth seen.
pub stats_recurse : Tree → ℕ → ℕ → ℕ × ℕ
stats_recurse leaf depth most = (0, most)
stats_recurse (node l x r) depth most =
    let here = if ltb most depth then depth else most in
    let left = stats_recurse l (depth + 1) here in
    let right = stats_recurse r (depth + 1) left.1 in (depth + left.0 + right.0, right.1)

abbrev pub depths : ℕ → Tree → ℕ
depths n leaf = 0
depths n (node l x r) = n + depths (n + 1) l + depths (n + 1) r

abbrev pub lowest : ℕ → Tree → ℕ
lowest n leaf = 0
lowest n (node l x r) = max n (max (lowest (n + 1) l) (lowest (n + 1) r))

-- `stats_recurse` gives the sum of the depths of all elements of the tree, and as the maximum
-- depth the greatest of their depths and the maximum so far.
pub stats_recurse_lem :
    (t : Tree) (depth most : ℕ)
    → ((stats_recurse t depth most).0 ≡ depths depth t)
      × ((stats_recurse t depth most).1 ≡ max most (lowest depth t))
unfolding stats_recurse
stats_recurse_lem leaf depth most = omega arith
stats_recurse_lem (node l x r) depth most =
    let here = if ltb most depth then depth else most in
    let h : here ≡ max most depth = ground arith in
    let a = stats_recurse_lem l (depth + 1) here in
    let b = stats_recurse_lem r (depth + 1) (stats_recurse l (depth + 1) here).1 in
    (omega (arith, a.0, b.0), omega (arith, a.1, b.1, h))

next_of-head :
    (xs ys : List Ref) (x : Ref) → All (λ y. y ≢ x) xs → next_of (xs ++ (x ∷ ys)) x ≡ head? ys
unfolding next_of
next_of-head [] [] x h = refl
next_of-head [] (y ∷ ys) x h = ground arith
next_of-head (y ∷ []) [] x h = ground arith
next_of-head (y ∷ []) (z ∷ ys) x h = ground arith
next_of-head (y ∷ z ∷ xs) ys x h = ground (arith, next_of-head (z ∷ xs) ys x h.1)

abbrev at : List Ref → Iteration
at [] = state none none
at (x ∷ xs) = state (some x) (head? xs)

module _ {K : Type 0} (cmp : K → K → Ordering) (o : IsOrder cmp) (d : Dict K)
    (v : IsValid cmp d) where
  foreach_next-at :
      (seen : List Ref) (x : Ref) (xs : List Ref)
      → d.order ≡ seen ++ (x ∷ xs)
      → foreach_next d (at (x ∷ xs)) ≡ at xs
  unfolding foreach_next step behind
  foreach_next-at seen x [] e = refl
  foreach_next-at seen x (y ∷ ys) e =
      let e' = e ∙ sym (append_assoc seen (x ∷ []) (y ∷ ys)) in
      let apart =
        before_ne cmp (key_at d.store) o (seen ++ (x ∷ [])) ys y
          (subst (Sorted cmp (key_at d.store)) e' v.sorted) in
      ap (state (some y)) (ap (λ zs. next_of zs y) e' ∙ next_of-head (seen ++ (x ∷ [])) ys y apart)

  visit-at :
      (n : ℕ) (seen xs : List Ref)
      → d.order ≡ seen ++ xs
      → length xs < n
      → All (λ x. (d.store x).value ≢ 0) xs
      → visit n d (at xs) ≡ values d xs
  unfolding visit foreach_cur
  visit-at zero seen xs e l h = elim l [ ]
  visit-at (suc n) seen [] e l h = refl
  visit-at (suc n) seen (x ∷ xs) e l h =
      let nz : ((d.store x).value == 0) ≡ false = ground arith in
      rw nz (
        ap (◌∷◌ (d.store x).value) (
          ap (visit n d) (foreach_next-at seen x xs e)
          ∙ visit-at n (seen ++ (x ∷ [])) xs (e ∙ sym (append_assoc seen (x ∷ []) xs)) (omega arith)
              h.1))

  start-at : (xs : List Ref) → d.order ≡ xs → foreach_start d ≡ at xs
  unfolding foreach_start foreach_next step behind
  start-at [] e = rw e refl
  start-at (x ∷ xs) e = rw (e, head?) (ap (state (some x)) (next_of-head [] xs x tt))

  -- For a comparator that orders the keys and a well-formed dictionary (tree and list hold the
  -- same elements, sorted, and count and positions are right): if no value is NULL, the loop
  -- MOWGLI_DICTIONARY_FOREACH ends after as many rounds as there are elements, and sees every
  -- value once, in the sequence of the keys.
  pub visit-values :
      (n : ℕ)
      → length d.order < n
      → All (λ x. (d.store x).value ≢ 0) d.order
      → visit n d (foreach_start d) ≡ values d d.order
  visit-values n l h = ap (visit n d) (start-at d.order refl) ∙ visit-at n [] d.order refl l h
