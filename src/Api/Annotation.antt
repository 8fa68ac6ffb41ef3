-- ===== src/Api/Annotation.antt =====
-- The annotations of pkg/types/annotations.go.
use stoker_operator.Prelude.{String}

abbrev pub inject : String
inject = "stoker.io/inject"

abbrev pub cr_name : String
cr_name = "stoker.io/cr-name"

abbrev pub gateway_name : String
gateway_name = "stoker.io/gateway-name"

abbrev pub profile : String
profile = "stoker.io/profile"

abbrev pub requested_ref : String
requested_ref = "stoker.io/requested-ref"

abbrev pub requested_at : String
requested_at = "stoker.io/requested-at"

abbrev pub requested_by : String
requested_by = "stoker.io/requested-by"

abbrev pub injected : String
injected = "stoker.io/injected"
