-- ===== src/Agent/Context.antt =====
-- The context of templates in internal/agent/profile.go, and the code that the agent only calls.
use stoker_operator.Prelude.{
  String, ◌<>◌, Bool, Option, none, some, ◌==◌, nat_eq, string_eq, if◌then◌else◌,
}
use Prim.Native.Char.{code}
use stoker_operator.Prelude.Dict.{Dict, lookup}
use stoker_operator.Prelude.Int.{ℤ, pos, atoi}
use stoker_operator.Prelude.Outcome.{Outcome, done}
use stoker_operator.Prelude.Text.{contains_text}
use stoker_operator.Engine.Disk.{FilePath, Disk}
use stoker_operator.Agent.Config.{Config}
use stoker_operator.Agent.ConfigMaps.{Metadata}

pub record TemplateContext : Type 0 where
  pub gateway_name : String
  pub pod_name : String
  pub pod_ordinal : ℤ
  pub namespace : String
  pub ref : String
  pub commit : String
  pub cr_name : String
  pub labels : Dict String String
  pub vars : Dict String String

-- The value of a patch: what a JSON text stands for, or a bare text.
pub data PatchValue : Type 0 where
  json_value bare_text : String → PatchValue

-- The libraries: text/template on a text with template syntax, doublestar's matcher, encoding/json's
-- check of a text, sjson's Set, and what `os.Stat` finds at a symbolic link.
pub record Tools : Type 0 where
  pub execute : TemplateContext → String → Outcome String
  pub glob : String → String → Option Bool
  pub is_json : String → Bool
  pub set : String → String → PatchValue → Outcome String
  pub follow : FilePath → Disk → Option Bool

-- The text after the last "-".
after_dash : String → String → String
unfolding nat_eq
after_dash piece String.[] = piece
after_dash piece (String.◌∷◌ c s) =
    let fresh = after_dash "" s in
    let longer = after_dash (piece <> String.◌∷◌ c String.[]) s in
    if code c == 45 then fresh else longer

abbrev or_else {ℓ} : {A : Type ℓ} → Option A → A → A
or_else none a = a
or_else (some b) a = b

abbrev index_label : Option String → Option ℤ
index_label none = none
index_label (some s) = atoi s

-- The label, or else the number at the end of the name, or else 0.
unfoldable pub pod_ordinal : String → Dict String String → ℤ
unfolding after_dash atoi
pod_ordinal pod_name labels =
    or_else (index_label (lookup "apps.kubernetes.io/pod-index" labels))
      (or_else (atoi (after_dash "" pod_name)) (pos 0))

-- The copies of the two maps hold what the maps hold.
unfoldable pub build_template_context :
    Config → Metadata → Dict String String → Dict String String → TemplateContext
unfolding pod_ordinal
build_template_context cfg meta profile_vars labels = record {
  gateway_name = cfg.gateway_name;
  pod_name = cfg.pod_name;
  pod_ordinal = pod_ordinal cfg.pod_name labels;
  namespace = cfg.cr_namespace;
  ref = meta.ref;
  commit = meta.commit;
  cr_name = cfg.cr_name;
  labels = labels;
  vars = profile_vars;
}

unfoldable pub resolve_template : Tools → TemplateContext → String → Outcome String
unfolding contains_text
resolve_template t ctx tmpl = if contains_text tmpl "{{" then t.execute ctx tmpl else done tmpl
