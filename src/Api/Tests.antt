-- ===== src/Api/Tests.antt =====
-- The theorems of the API, applied to small inputs.
use sukumad.Prelude.{All}
use sukumad.Text.{str}
use sukumad.Text.Atoi.{atoi}
use sukumad.Config.{default_config}
use sukumad.Api.Input.{checked_id, IsCut, checked_id-IsCut}
use sukumad.Api.Routes.{register, Guards, admin_routes-Guards}
use sukumad.Samples.{toy_crypto}

-- 2^32 + 7
checked_id-IsCut_example : IsCut (atoi (str "4294967303")) (checked_id (str "4294967303"))
checked_id-IsCut_example = checked_id-IsCut (str "4294967303")

admin_routes-Guards_example :
    All
      (Guards toy_crypto default_config 1000
        (record { client_ip = str "1"; authorization = str "Bearer t" }))
      register
admin_routes-Guards_example =
    admin_routes-Guards toy_crypto default_config 1000
      (record { client_ip = str "1"; authorization = str "Bearer t" })
