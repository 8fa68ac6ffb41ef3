-- ===== src/Engine/Exclude.antt =====
-- internal/syncengine/exclude.go. `filepath.ToSlash` is the identity where the agent runs.
pub mod Laws
use stoker_operator.Prelude.{
  String, ◌≡◌, Bool, true, false, ◌||◌, Option, none, some, List, [], ◌∷◌, ◌++◌, ◌==◌, contains,
  any, string_eq, if◌then◌else◌,
}
use stoker_operator.Prelude.Text.{trim_space}

abbrev pub hardcoded_excludes : List String
hardcoded_excludes = "**/.sync-staging/**" ∷ []

abbrev pub protected_patterns : List String
protected_patterns = "**/.resources/**" ∷ "**/.resources" ∷ []

-- The loop over the user's patterns: those seen so far, and the result so far.
unfoldable pub add_user : List String → List String → List String → List String × List String
add_user seen result [] = (seen, result)
add_user seen result (raw ∷ rest) =
    let p = trim_space raw in
    let skip = p == "" || contains seen p in
    add_user (if skip then seen else p ∷ seen) (if skip then result else result ++ p ∷ []) rest

-- The loop over the hardcoded patterns.
unfoldable pub add_hardcoded : List String → List String → List String → List String
add_hardcoded seen result [] = result
add_hardcoded seen result (p ∷ rest) =
    let skip = contains seen p in
    add_hardcoded (if skip then seen else p ∷ seen) (if skip then result else result ++ p ∷ []) rest

unfoldable pub merge_excludes : List String → List String
unfolding add_user add_hardcoded
merge_excludes user_excludes =
    let (seen, result) = add_user [] [] user_excludes in
    add_hardcoded seen result hardcoded_excludes

-- `doublestar.Match`, of another package: `none` is its error for a malformed pattern.
module _ (glob : String → String → Option Bool) where
  abbrev matches : String → String → Bool
  matches pattern rel_path = elim (glob pattern rel_path) [ some m ↦ m | none ↦ false ]

  unfoldable pub should_exclude : String → List String → Bool
  should_exclude rel_path excludes = any (λ pattern. matches pattern rel_path) excludes

  unfoldable pub is_protected : String → Bool
  is_protected rel_path = any (λ pattern. matches pattern rel_path) protected_patterns
