-- ===== src/Dictionary/Tests.antt =====
-- The dictionary at a concrete comparator and concrete elements.
use Prim.Native.Nat.{Ordering, lt, eq, gt}
use libmowgli.Base.{
  ℕ, ◌*◌, ◌≡◌, refl, List, [], ◌∷◌, ◌++◌, some, none, true, false, ltb, ◌==◌, if◌then◌else◌, length,
  arith,
}
use libmowgli.Dictionary.{retune, Ref, Tree, leaf, node, Dict, find, add, delete, get_linear_index}
use libmowgli.Dictionary.Order.{IsOrder, AllIs}
use libmowgli.Dictionary.Map.{key_at, find_key, look}
use libmowgli.Dictionary.Lookup.{Tuned, retune-Tuned, IsValid, find-find_key}
use libmowgli.Dictionary.Add.{add-look}
use libmowgli.Dictionary.Delete.{delete-look}
use libmowgli.Dictionary.Iterate.{foreach_start, visit, visit-values}
use libmowgli.Dictionary.Linear.{linear_index-position}

abbrev compare : ℕ → ℕ → Ordering
compare a b = if a == b then eq else if ltb a b then lt else gt

compare-IsOrder : IsOrder compare
compare-IsOrder = record {
  self = λ a. ground arith;
  flip_lt = λ a b h. ground arith;
  flip_gt = λ a b h. ground arith;
  trans = λ a b c h k. ground arith;
  same = λ a b c h. ground arith;
}

-- The element at the address `x` has the key `10 x` and the value `x`.
abbrev two : Dict ℕ
two = record {
  root = node (node leaf 1 leaf) 2 leaf;
  order = 1 ∷ 2 ∷ [];
  count = 2;
  dirty = true;
  store = λ x. record { key = 10 * x; value = x; position = 0 };
}

two-IsValid : IsValid compare two
two-IsValid = record {
  linked = refl;
  sorted = ((refl, tt), (tt, tt));
  counted = refl;
  numbered = λ e. cc;
}

find-find_key_example :
    (t : Tree) × (find compare two 10
      ≡ some (record two { root = t }, find_key compare (key_at two.store) 10 two.order))
    × IsValid compare (record two { root = t })
find-find_key_example = find-find_key compare compare-IsOrder two 10 two-IsValid

add-look_example :
    (d' : Dict ℕ) × (add compare two 3 15 9 ≡ some (d', some 3))
    × IsValid compare d'
    × ((k : ℕ)
        → look compare d' k
          ≡ elim (compare k 15) [ eq ↦ some 9 | lt ↦ look compare two k | gt ↦ look compare two k ])
unfolding find_key
add-look_example =
    add-look compare compare-IsOrder two 3 15 9 two-IsValid
      ((λ e. omega arith), ((λ e. omega arith), tt)) (λ e. omega arith) refl

delete-look_example :
    (d' : Dict ℕ) × (delete compare two 20 ≡ some (d', 2))
    × IsValid compare d'
    × ((k : ℕ)
        → look compare d' k
          ≡ elim (compare k 20) [ eq ↦ none | lt ↦ look compare two k | gt ↦ look compare two k ])
unfolding find_key
delete-look_example = delete-look compare compare-IsOrder two 20 two-IsValid 2 refl

visit-values_example : visit 3 two (foreach_start two) ≡ 1 ∷ 2 ∷ []
visit-values_example =
    visit-values compare compare-IsOrder two two-IsValid 3 (omega arith)
      ((λ e. omega arith), ((λ e. omega arith), tt))

linear_index-position_example :
    (d' : Dict ℕ) × (front : List Ref) × (back : List Ref) × (get_linear_index compare two 20
      ≡ some (d', some (length front)))
    × (two.order ≡ front ++ (2 ∷ back))
    × AllIs compare (key_at two.store) gt 20 front
    × AllIs compare (key_at two.store) lt 20 back
    × IsValid compare d'
    × (d'.dirty ≡ false)
    × ((k : ℕ) → look compare d' k ≡ look compare two k)
unfolding find_key
linear_index-position_example =
    linear_index-position compare compare-IsOrder two 20 two-IsValid 2 refl

retune-Tuned_example : Tuned compare compare-IsOrder two.store 10 two (retune compare two 10)
retune-Tuned_example = retune-Tuned compare compare-IsOrder two 10 two-IsValid
