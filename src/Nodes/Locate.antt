-- ===== src/Nodes/Locate.antt =====
-- Finding nodes on a list, and inserting at a position.
use libmowgli.Base.{
  ℕ, zero, suc, ◌+◌, ◌≤◌, ◌<◌, ◌≡◌, ◌≢◌, refl, ap, ◌∙◌, subst, List, [], ◌∷◌, ◌++◌, Option, none,
  some, true, false, ◌==◌, ltb, lt→ltb, if◌then◌else◌, All, All-left, length, length-append, arith,
  inl, inr, get_elem?, take, drop, Bool-cases, drop-length, take-length,
}
use libmowgli.Memory.{◌>>=◌}
use libmowgli.Nodes.{
  Ref, Mem, NodeList, update, size_mod, index_loop, index, find_loop, find, insert, add_before,
}
use libmowgli.Nodes.Chain.{head_or, Forward, Apart, IsList, Distinct-remove}
use libmowgli.Nodes.Insert.{Became, add-Became}
use libmowgli.Nodes.Between.{add_before-Became}
use libmowgli.Nodes.Walk.{nth-get_elem?}

-- What `find` is to find: the first node that holds the datum, or none where no node does.
pub data Finds (m : Mem) (value : ℕ) (xs : List Ref) : Option Ref → Type 0 where
  missing : All (λ y. m.value y ≢ value) xs → Finds m value xs none
  found :
      (front back : List Ref) (x : Ref)
      → xs ≡ front ++ (x ∷ back)
      → m.value x ≡ value
      → All (λ y. m.value y ≢ value) front
      → Finds m value xs (some x)

module _ (m : Mem) where
  Finds-cons :
      (value : ℕ) (x : Ref) (xs : List Ref) {r : Option Ref}
      → m.value x ≢ value
      → Finds m value xs r
      → Finds m value (x ∷ xs) r
  Finds-cons value x xs h (missing a) = missing (h, a)
  Finds-cons value x xs h (found front back y e v a) =
      found (x ∷ front) back y (ap (◌∷◌ x) e) v (h, a)

  find_loop-Finds :
      (fuel value : ℕ) (xs : List Ref)
      → Forward m.next xs none
      → length xs < fuel
      → (r : Option Ref) × (find_loop fuel m value (head_or xs none) ≡ some r) × Finds m value xs r
  unfolding find_loop
  find_loop-Finds zero value xs c l = absurd (omega arith)
  find_loop-Finds (suc fuel) value [] c l = (none, refl, missing tt)
  find_loop-Finds (suc fuel) value (x ∷ xs) c l =
      let (r, run, f) = find_loop-Finds fuel value xs c.1 (omega arith) in
      elim (Bool-cases (m.value x == value)) [
        | inl e ↦ (some x, rw e refl, found [] xs x refl (ground arith) tt)
        | inr e ↦ (r, rw (e, c.0) run, Finds-cons value x xs (ground arith) f)
      ]

  index_loop_lem :
      (fuel iter n : ℕ) (front back : List Ref)
      → Forward m.next (front ++ (n ∷ back)) none
      → Apart n front
      → length front < fuel
      → index_loop fuel m n iter (head_or (front ++ (n ∷ back)) none) ≡ some (iter + length front)
  unfolding index_loop
  index_loop_lem zero iter n front back c a l = absurd (omega arith)
  index_loop_lem (suc fuel) iter n [] back c a l = ground arith
  index_loop_lem (suc fuel) iter n (x ∷ front) back c a l =
      let e : (x == n) ≡ false = ground arith in
      rw (e, c.0)
        (index_loop_lem fuel (iter + 1) n front back c.1 a.1 (omega arith) ∙ ap some (omega arith))

  index_loop_absent :
      (fuel iter n : ℕ) (xs : List Ref)
      → Forward m.next xs none
      → Apart n xs
      → length xs < fuel
      → index_loop fuel m n iter (head_or xs none) ≡ some (iter + length xs)
  unfolding index_loop
  index_loop_absent zero iter n xs c a l = absurd (omega arith)
  index_loop_absent (suc fuel) iter n [] c a l = ap some (omega arith)
  index_loop_absent (suc fuel) iter n (x ∷ xs) c a l =
      let e : (x == n) ≡ false = ground arith in
      rw (e, c.0)
        (index_loop_absent fuel (iter + 1) n xs c.1 a.1 (omega arith) ∙ ap some (omega arith))

module _ (fuel : ℕ) (m : Mem) (l : NodeList) where
  -- `find` on a well-formed list, with more fuel than nodes, ends with the first node that
  -- holds the datum, or with NULL if no node holds it.
  pub find-Finds :
      (value : ℕ) (xs : List Ref)
      → IsList m l xs
      → length xs < fuel
      → (r : Option Ref) × (find fuel value m l ≡ some r) × Finds m value xs r
  unfolding find
  find-Finds value xs i enough =
      let (r, run, f) = find_loop-Finds m fuel value xs i.forward enough in
      (r, ap (find_loop fuel m value) i.head_is ∙ run, f)

  -- `index` of a node of a well-formed list, with more fuel than nodes, ends with the number of
  -- nodes before it.
  pub index-length :
      (n : Ref) (front back : List Ref)
      → IsList m l (front ++ (n ∷ back))
      → length (front ++ (n ∷ back)) < fuel
      → index fuel m n l ≡ some (some (length front))
  unfolding index
  index-length n front back i enough =
      let k = length-append front (n ∷ back) in
      let less : ltb (length front) l.count ≡ true =
        lt→ltb (length front) l.count (omega (arith, i.counted, k)) in
      let apart = All-left (λ y. y ≢ n) front back (Distinct-remove n front back i.distinct).1 in
      let run : index_loop fuel m n 0 l.head ≡ some (length front) =
        ap (index_loop fuel m n 0) i.head_is
        ∙ index_loop_lem m fuel 0 n front back i.forward apart (omega (arith, k))
        ∙ ap some (omega arith) in
      ap (λ o. o >>= λ iter. some (if ltb iter l.count then some iter else none)) run ∙ rw less refl

  -- `index` of a node that is not on the list ends with -1.
  pub index_absent :
      (n : Ref) (xs : List Ref)
      → IsList m l xs
      → Apart n xs
      → length xs < fuel
      → index fuel m n l ≡ some none
  unfolding index
  index_absent n xs i a enough =
      let not_less : ltb (length xs) l.count ≡ false = ground (arith, i.counted) in
      let run : index_loop fuel m n 0 l.head ≡ some (length xs) =
        ap (index_loop fuel m n 0) i.head_is
        ∙ index_loop_absent m fuel 0 n xs i.forward a enough
        ∙ ap some (omega arith) in
      ap (λ o. o >>= λ iter. some (if ltb iter l.count then some iter else none)) run
      ∙ rw not_less refl

split-at :
    (xs : List Ref) (pos : ℕ) (b : Ref)
    → get_elem? xs pos ≡ some b
    → xs ≡ take pos xs ++ (b ∷ drop (suc pos) xs)
split-at [] pos b h = cc
split-at (x ∷ xs) zero b h = ap (λ (o : Option Ref). elim o [ none ↦ [] | some y ↦ y ∷ xs ]) h
split-at (x ∷ xs) (suc pos) b h = ap (◌∷◌ x) (split-at xs pos b h)

split_drop :
    (xs : List Ref) (pos : ℕ) (b : Ref)
    → get_elem? xs pos ≡ some b
    → drop pos xs ≡ b ∷ drop (suc pos) xs
split_drop [] pos b h = cc
split_drop (x ∷ xs) zero b h = ap (λ (o : Option Ref). elim o [ none ↦ [] | some y ↦ y ∷ xs ]) h
split_drop (x ∷ xs) (suc pos) b h = split_drop xs pos b h

get_elem?-none : (xs : List Ref) (pos : ℕ) → get_elem? xs pos ≡ none → length xs ≤ pos
get_elem?-none [] pos h = omega arith
get_elem?-none (x ∷ xs) zero h = cc
get_elem?-none (x ∷ xs) (suc pos) h = omega (arith, get_elem?-none xs pos h)

module _ (fuel value : ℕ) (n : Ref) (m : Mem) (l : NodeList) where
  insert_at :
      (xs : List Ref) (pos : ℕ) (r : Option Ref)
      → get_elem? xs pos ≡ r
      → IsList m l xs
      → Apart n xs
      → Became
          (add_before value n m l r)
          (take pos xs ++ (n ∷ drop pos xs))
          (update m.value n value)
  unfolding add_before
  insert_at xs pos none e i a =
      let h = get_elem?-none xs pos e in
      rw (take-length pos xs h, drop-length pos xs h) (add-Became value n m l xs i a)
  insert_at xs pos (some b) e i a =
      let s = split-at xs pos b e in
      rw (split_drop xs pos b e) (
        add_before-Became value n m l b (take pos xs) (drop (suc pos) xs) (subst (IsList m l) s i)
          (subst (Apart n) s a))

  -- `insert` of a new node at a position of a well-formed list of fewer than 2 ^ 64 nodes, with
  -- more fuel than nodes, puts the node there: what stood there and behind comes after it, and
  -- behind the end it is the last. The list stays well-formed, and the other nodes keep their
  -- data.
  pub insert-Became :
      (xs : List Ref) (pos : ℕ)
      → IsList m l xs
      → Apart n xs
      → length xs < fuel
      → length xs < size_mod
      → Became
          (insert fuel value n m l pos)
          (take pos xs ++ (n ∷ drop pos xs))
          (update m.value n value)
  unfolding insert
  insert-Became xs pos i a enough small =
      rw (nth-get_elem? fuel m l xs i enough pos small)
        (insert_at xs pos (get_elem? xs pos) refl i a)
