-- ===== src/Logging.antt =====
-- What decides how much is logged: setupLogger of main.go and RequestLogger of
-- internal/middleware/logging.go; and the port of cmd/api/main.go. The logs themselves are not
-- modelled.
use sukumad.Prelude.{ltb, leb, if◌then◌else◌, coalesce, ℕ, Bool, Option}
use sukumad.Text.{Bytes, str, text_eq, is_empty, to_lower}
use sukumad.Config.{Config}

pub data Level : Type 0 where
  debug_level info_level warn_level error_level : Level
  other_level : Bytes → Level

-- `parse` is logrus.ParseLevel.
unfoldable pub setup_level : (Bytes → Option Level) → Config → Level
setup_level parse cfg =
    let level = if cfg.debug then debug_level else info_level in
    if is_empty cfg.log_level then level else coalesce (parse (to_lower cfg.log_level)) level

unfoldable pub is_text_format : Config → Bool
is_text_format cfg = text_eq (to_lower cfg.log_format) (str "text")

-- The request's own id, or a new one.
unfoldable pub request_id_of : Bytes → Bytes → Bytes
request_id_of header fresh = if is_empty header then fresh else header

-- Errors that gin recorded, and the class of the status.
unfoldable pub request_level : Bool → ℕ → Level
request_level has_errors status =
    if has_errors
    then error_level
    else if leb 500 status
    then error_level
    else if leb 400 status
    then warn_level
    else info_level

unfoldable pub listen_port : Config → ℕ
listen_port cfg = if ltb 0 cfg.port then cfg.port else 8383
