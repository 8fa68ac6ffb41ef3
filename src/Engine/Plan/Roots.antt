-- ===== src/Engine/Plan/Roots.antt =====
-- The managed roots of plan.go: the destinations as they are written in the mappings.
use stoker_operator.Prelude.{String, ◌<>◌, starts_with, Bool, ◌||◌, List, ◌==◌, any, map, string_eq}
use stoker_operator.Engine.Plan.Stage.{ResolvedMapping}

-- A set of Go's `map[string]bool`; only membership is asked of it.
unfoldable pub compute_managed_roots : List ResolvedMapping → List String
compute_managed_roots mappings = map (λ m. m.destination) mappings

unfoldable pub is_under_managed_root : String → List String → Bool
is_under_managed_root rel_path roots =
    any (λ root. rel_path == root || starts_with rel_path (root <> "/")) roots

unfoldable pub is_ancestor_of_managed_root : String → List String → Bool
is_ancestor_of_managed_root rel_path roots = any (λ root. starts_with root (rel_path <> "/")) roots
