-- ===== src/Cmd/Document.antt =====
-- writeConfig and humanBytes of cmd/init.go: the text of a configuration, line for line. fmt's %q and
-- %d, and floating-point numbers, are parameters.
use Prim.Native.String.{◌++◌ as append}
use obsideo_provider.Base.{List, [], ◌∷◌, String, true, false, ◌||◌, str_eq, if◌then◌else◌}
use obsideo_provider.Base.Int.{ℤ, pos}
use obsideo_provider.Config.Tags.{Scalar, text, whole, switch, Line, remark, section, setting}
use obsideo_provider.Cmd.Options.{PrintCodec, WrittenConfig}

module _ {F : Type 0} (c : PrintCodec F) where
  unfoldable pub human_loop : F → List String → String
  human_loop f [] = ""
  human_loop f (u ∷ us) =
      let rest = human_loop (c.over_1000 f) us in
      if c.below_1000 f || str_eq u "PB" then append (append (c.format_float f) " ") u else rest

  -- `humanBytes`
  unfoldable pub human_bytes : ℤ → String
  unfolding human_loop
  human_bytes b = human_loop (c.float b) ("B" ∷ "KB" ∷ "MB" ∷ "GB" ∷ "TB" ∷ "PB" ∷ [])

  -- The template; the texts "0.0.0.0" and "" in it are what %q makes of them.
  unfoldable pub document : (version date : String) → WrittenConfig → List Line
  unfolding human_bytes
  document version date w =
      remark (
        append
          (append
            (append "# obsideo-provider configuration, written by `obsideo-provider init` " version)
            " on ")
          (append date "."))
      ∷ remark "# Everything here except coordinator.provider_api_key is already correct."
      ∷ remark ""
      ∷ setting false "provider_id" (text w.provider_id)
          "   # filled in by `obsideo-provider init` after registration; the heartbeat URL is built from it"
      ∷ remark ""
      ∷ section "server"
      ∷ setting true "host" (text "0.0.0.0")
          "              # bind address; your TLS proxy on 443 forwards to this port"
      ∷ setting true "port" (whole w.port) ""
      ∷ setting true "read_timeout" (whole (pos 30)) ""
      ∷ setting true "write_timeout" (whole (pos 300)) ""
      ∷ remark ""
      ∷ section "data"
      ∷ setting true "path" (text w.data_path)
          "   # objects/, index/ and provider_identity.key live here"
      ∷ remark ""
      ∷ section "tokens"
      ∷ setting true "public_key_path" (text w.public_key_path) (
          append
            (append "   # the coordinator's ed25519 public key, fetched from " w.coordinator_url)
            "/public-key")
      ∷ remark ""
      ∷ section "coordinator"
      ∷ setting true "url" (text w.coordinator_url) ""
      ∷ setting true "provider_api_key" (text "")
          "         # issued when Obsideo approves the registration; paste it here and start the node"
      ∷ remark ""
      ∷ section "coverage"
      ∷ setting true "enabled" (switch true)
          "                # daily \"which of my objects are still paid for?\" refresh; keep true for a live node"
      ∷ remark ""
      ∷ remark (
          append (append "# capacity you offered at registration: " (c.itoa w.capacity_bytes))
            (append (append " bytes (" (human_bytes w.capacity_bytes)) ")"))
      ∷ setting false "noble_wallet_address" (text w.noble_wallet_address)
          "   # USDC payout address (noble1...); may be left blank and set later"
      ∷ []

  abbrev print_scalar : Scalar → String
  print_scalar (text s) = c.quote s
  print_scalar (whole n) = c.itoa n
  print_scalar (switch b) = if b then "true" else "false"

  unfoldable pub print_line : Line → String
  print_line (remark t) = append t "\n"
  print_line (section key) = append key ":\n"
  print_line (setting inside key v rest) =
      append (append (if inside then "  " else "") (append key ": "))
        (append (print_scalar v) (append rest "\n"))

  unfoldable pub print_lines : List Line → String
  unfolding print_line
  print_lines [] = ""
  print_lines (l ∷ lines) = append (print_line l) (print_lines lines)
