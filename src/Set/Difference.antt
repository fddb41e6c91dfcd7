-- ===== src/Set/Difference.antt =====
-- set.Diff, for keys that are strings.
use geas.Prelude.{
  Bool, false, not, ◌&&◌, ◌||◌, List, [], ◌∷◌, ◌≡◌, refl, String, ◌==◌, string_eq, arith, eq_iff,
}
use geas.Set.{Set, no_keys, add, add_all, not_included, diff}

-- Membership in a list of keys.
unfoldable pub contains_key : List String → String → Bool
contains_key [] k = false
contains_key (x ∷ xs) k = x == k || contains_key xs k

add_all-contains_key :
    (xs : List String) (s : Set String) (k : String) → add_all xs s k ≡ (contains_key xs k || s k)
unfolding add_all contains_key
add_all-contains_key [] s k = refl
add_all-contains_key (x ∷ xs) s k = ground (arith, add_all-contains_key xs (add x s) k)

not_included-contains_key :
    (xs : List String) (s : Set String) (k : String)
    → contains_key (not_included xs s) k ≡ (contains_key xs k && not (s k))
unfolding not_included contains_key
not_included-contains_key [] s k = refl
not_included-contains_key (x ∷ xs) s k =
    ground (arith, not_included-contains_key xs s k, eq_iff x k)

-- Diff lists exactly the keys of the first list that are not in the second.
pub diff-contains_key :
    (a b : List String) (k : String)
    → contains_key (diff a b) k ≡ (contains_key a k && not (contains_key b k))
unfolding diff
diff-contains_key a b k =
    ground
      (arith, not_included-contains_key a (add_all b no_keys) k, add_all-contains_key b no_keys k)
