-- ===== src/Controller/Metadata/Laws.antt =====
-- What the agents are told, and what is left of an object.
use stoker_operator.Prelude.{
  String, ◌<>◌, ◌≡◌, refl, true, none, List, [], ◌∷◌, contains, ◌==◌, string_eq, arith,
  if◌then◌else◌, Option-cases, inl, inr,
}
use stoker_operator.Prelude.Dict.{Dict, lookup, lookup-erase}
use stoker_operator.Api.{GatewaySync}
use stoker_operator.Controller.Metadata.{
  Stored, Objects, Api, remove, remove_all, owned_config_maps, cleanup_owned_resources,
}

lookup-remove :
    (api : Api) (name key : String) (objects : Dict String Stored)
    → (remove api name objects).0 ≡ true
    → lookup key (remove api name objects).1 ≡ (if key == name then none else lookup key objects)
unfolding remove
lookup-remove api name key objects h = elim (Option-cases (lookup name objects)) [
  | inl e ↦ ground (arith, e, h)
  | inr (old, e) ↦ ground (arith, e, h, lookup-erase key name objects)
]

lookup-remove_all :
    (api : Api) (names : List String) (key : String) (objects : Dict String Stored)
    → (remove_all api names objects).0 ≡ true
    → lookup key (remove_all api names objects).1
      ≡ (if contains names key then none else lookup key objects)
unfolding remove_all
lookup-remove_all api [] key objects h = refl
lookup-remove_all api (name ∷ names) key objects h =
    let left = (remove api name objects).1 in
    ground (arith, h, lookup-remove api name key objects, lookup-remove_all api names key left)

-- A cleanup without an error leaves none of the object's three ConfigMaps and no token Secret, and
-- every other ConfigMap and Secret as it was.
pub lookup-cleanup_owned_resources :
    (api : Api) (gs : GatewaySync) (objects : Objects) (key : String)
    → (cleanup_owned_resources api gs objects).0 ≡ true
    → (lookup key (cleanup_owned_resources api gs objects).1.config_maps
        ≡ (if contains (owned_config_maps gs) key then none else lookup key objects.config_maps))
      × (lookup key (cleanup_owned_resources api gs objects).1.secrets ≡ (
          if key == "stoker-github-token-" <> gs.meta.name
          then none
          else lookup key objects.secrets))
unfolding cleanup_owned_resources
lookup-cleanup_owned_resources api gs objects key h = ground (
  arith,
  lookup-remove_all api (owned_config_maps gs) key objects.config_maps,
  lookup-remove api ("stoker-github-token-" <> gs.meta.name) key objects.secrets,
)
