-- ===== src/Api/Names.antt =====
-- The labels and the finalizer of pkg/types/annotations.go.
use stoker_operator.Prelude.{String}

abbrev pub label_agent : String
label_agent = "stoker.io/agent"

abbrev pub label_app_name : String
label_app_name = "app.kubernetes.io/name"

abbrev pub finalizer : String
finalizer = "stoker.io/finalizer"
