-- ===== src/Controller/Validate.antt =====
-- The validation of profiles, in gatewaysync_controller.go.
pub mod Laws
use Prim.Native.Char.{code}
use Prim.Native.String
use stoker_operator.Prelude.{
  ℕ, zero, suc, String, ◌<>◌, Bool, true, false, not, ◌&&◌, ◌||◌, Option, none, some, List, [], ◌∷◌,
  contains, ◌==◌, leb, string_eq, nat_eq, if◌then◌else◌, starts_with,
}
use stoker_operator.Prelude.Dict.{Dict}
use stoker_operator.Prelude.Text.{split_slash, decimal}
use stoker_operator.Api.{SyncMapping, SyncProfileSpec, GatewaySync}

-- An error, with the field and the value that it names in place of the formatted message.
pub data ProfileError : Type 0 where
  absolute_path path_traversal invalid_var_key : String → String → ProfileError

-- A letter or an underscore, and in `is_word` a digit, too.
abbrev is_start : ℕ → Bool
is_start c = (leb b'a' c && leb c b'z') || (leb b'A' c && leb c b'Z') || c == b'_'

abbrev is_word : ℕ → Bool
is_word c = is_start c || (leb b'0' c && leb c b'9')

all_word : String → Bool
all_word String.[] = true
all_word (String.◌∷◌ c s) = is_word (code c) && all_word s

-- validVarKey: the texts that `^[a-zA-Z_][a-zA-Z0-9_]*$` matches.
unfoldable pub valid_var_key : String → Bool
unfolding all_word
valid_var_key String.[] = false
valid_var_key (String.◌∷◌ c s) = is_start (code c) && all_word s

unfoldable pub validate_var_keys : Dict String String → String → Option ProfileError
validate_var_keys [] field = none
validate_var_keys ((k, v) ∷ vars) field =
    if not (valid_var_key k) then some (invalid_var_key field k) else validate_var_keys vars field

unfoldable pub contains_traversal : String → Bool
contains_traversal p = contains (split_slash p) ".."

unfoldable pub validate_path : String → String → Option ProfileError
validate_path p field =
    if starts_with p "/"
    then some (absolute_path field p)
    else if contains_traversal p
    then some (path_traversal field p)
    else none

-- The first error of two checks.
abbrev pub or_else {ℓ} : {A : Type ℓ} → Option A → Option A → Option A
or_else (some e) later = some e
or_else none later = later

unfoldable pub validate_mappings : String → ℕ → List SyncMapping → Option ProfileError
validate_mappings name i [] = none
validate_mappings name i (m ∷ ms) =
    let field = "profiles[" <> name <> "].mappings[" <> decimal i <> "]" in
    or_else (validate_path m.source (field <> ".source")) (
      or_else (validate_path m.destination (field <> ".destination"))
        (validate_mappings name (suc i) ms))

unfoldable pub validate_each : Dict String SyncProfileSpec → Option ProfileError
validate_each [] = none
validate_each ((name, profile) ∷ profiles) =
    or_else (validate_var_keys profile.vars ("profiles[" <> name <> "].vars"))
      (or_else (validate_mappings name 0 profile.mappings) (validate_each profiles))

-- validateProfiles, the profiles in one of the orders in which a map is ranged over.
unfoldable pub validate_profiles : GatewaySync → Option ProfileError
validate_profiles gs =
    or_else (validate_var_keys gs.spec.sync.defaults.vars "sync.defaults.vars")
      (validate_each gs.spec.sync.profiles)
