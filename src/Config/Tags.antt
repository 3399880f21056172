-- ===== src/Config/Tags.antt =====
-- The YAML tags of the structs of config/config.go, and what yaml.Unmarshal documents of a file of keys
-- and scalars: each goes to the field with its tag, and a key without a field is passed over.
use obsideo_provider.Base.{List, [], ◌∷◌, String, Bool, some, str_eq, if◌then◌else◌}
use obsideo_provider.Base.Int.{ℤ}
use obsideo_provider.Config.{Config, ServerConfig, CoordinatorConfig, CoverageConfig}

-- A scalar with its type.
pub data Scalar : Type 0 where
  text : String → Scalar
  whole : ℤ → Scalar
  switch : Bool → Scalar

-- A line of the file: a comment or nothing, the key of a section, or a key with its scalar and the rest
-- of the line, in a section or before any.
pub data Line : Type 0 where
  remark : String → Line
  section : String → Line
  setting : (inside : Bool) → (key : String) → Scalar → (rest : String) → Line

abbrev as_text : Scalar → String → String
as_text (text s) old = s
as_text _ old = old

abbrev as_whole : Scalar → ℤ → ℤ
as_whole (whole n) old = n
as_whole _ old = old

unfoldable pub set_root : String → Scalar → Config → Config
set_root key v c =
    if str_eq key "provider_id"
    then record c { provider_id = as_text v c.provider_id }
    else if str_eq key "noble_wallet_address"
    then record c { noble_wallet_address = as_text v c.noble_wallet_address }
    else if str_eq key "accept_uncontracted_data"
    then (elim v [ switch b ↦ record c { accept_uncontracted_data = some b } | _ ↦ c ])
    else c

unfoldable pub set_server : String → Scalar → ServerConfig → ServerConfig
set_server key v s =
    if str_eq key "host"
    then record s { host = as_text v s.host }
    else if str_eq key "port"
    then record s { port = as_whole v s.port }
    else if str_eq key "read_timeout"
    then record s { read_timeout = as_whole v s.read_timeout }
    else if str_eq key "write_timeout"
    then record s { write_timeout = as_whole v s.write_timeout }
    else if str_eq key "cors_enabled"
    then (elim v [ switch b ↦ record s { cors_enabled = some b } | _ ↦ s ])
    else s

unfoldable pub set_coordinator : String → Scalar → CoordinatorConfig → CoordinatorConfig
set_coordinator key v s =
    if str_eq key "url"
    then record s { url = as_text v s.url }
    else if str_eq key "provider_api_key"
    then record s { provider_api_key = as_text v s.provider_api_key }
    else s

unfoldable pub set_coverage : String → Scalar → CoverageConfig → CoverageConfig
set_coverage key v s =
    if str_eq key "refresh_interval_s"
    then record s { refresh_interval_s = as_whole v s.refresh_interval_s }
    else if str_eq key "batch_size"
    then record s { batch_size = as_whole v s.batch_size }
    else if str_eq key "request_timeout_s"
    then record s { request_timeout_s = as_whole v s.request_timeout_s }
    else if str_eq key "enabled"
    then (elim v [ switch b ↦ record s { enabled = b } | _ ↦ s ])
    else s

-- The section gc, which Init does not write, is left out.
unfoldable pub set_in : (name : String) → String → Scalar → Config → Config
unfolding set_server set_coordinator set_coverage
set_in name key v c =
    if str_eq name "server"
    then record c { server = set_server key v c.server }
    else if str_eq name "data"
    then (if str_eq key "path" then record c { data_path = as_text v c.data_path } else c)
    else if str_eq name "tokens"
    then (if str_eq key "public_key_path"
        then record c { public_key_path = as_text v c.public_key_path }
        else c)
    else if str_eq name "coordinator"
    then record c { coordinator = set_coordinator key v c.coordinator }
    else if str_eq name "coverage"
    then record c { coverage = set_coverage key v c.coverage }
    else c

-- The lines in their order, in the section that was opened last.
unfoldable pub assign : (name : String) → List Line → Config → Config
unfolding set_root set_in
assign name [] c = c
assign name (remark t ∷ lines) c = assign name lines c
assign name (section key ∷ lines) c = assign key lines c
assign name (setting inside key v rest ∷ lines) c =
    assign name lines (if inside then set_in name key v c else set_root key v c)
