-- ===== src/Set/Tests.antt =====
-- Sets of names.
use geas.Prelude.{not, ◌&&◌, [], ◌∷◌, ◌≡◌, string_eq}
use geas.Set.{diff}
use geas.Set.Difference.{contains_key, diff-contains_key}

diff-contains_key_example :
    contains_key (diff ("a" ∷ "b" ∷ "c" ∷ []) ("b" ∷ "d" ∷ [])) "b"
    ≡ (contains_key ("a" ∷ "b" ∷ "c" ∷ []) "b" && not (contains_key ("b" ∷ "d" ∷ []) "b"))
diff-contains_key_example = diff-contains_key ("a" ∷ "b" ∷ "c" ∷ []) ("b" ∷ "d" ∷ []) "b"
