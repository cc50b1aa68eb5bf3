-- ===== src/Types/Models.antt =====
-- internal/types/models.go. A pointer is an `Option`, a time is in nanoseconds, an int32 or int64
-- is an integer, and a float64 is a number of millionths. The status is the enumeration that the
-- CHECK of the deliveries table allows.
use sukumad.Prelude.{if◌then◌else◌, ℤ, ℕ, Bool, Option, none, some, List}
use sukumad.Text.{Bytes, str, text_eq}
use sukumad.Types.Values.{Json}

abbrev pub Time : Type 0
Time = ℕ

abbrev pub Float : Type 0
Float = ℤ

pub record Server : Type 0 where
  pub id : ℤ
  pub uid : Option Bytes
  pub name : Bytes
  pub username : Option Bytes
  pub password : Option Bytes
  pub auth_token : Option Bytes
  pub ip_address : Option Bytes
  pub url : Bytes
  pub callback_url : Option Bytes
  pub cc_urls : List Bytes
  pub http_method : Bytes
  pub auth_method : Bytes
  pub system_type : Option Bytes
  pub endpoint_type : Option Bytes
  pub url_params : Option Json
  pub allow_callbacks : Option Bool
  pub allow_copies : Option Bool
  pub use_async : Option Bool
  pub use_ssl : Option Bool
  pub parse_responses : Option Bool
  pub ssl_client_cert_key_file : Option Bytes
  pub start_submission_period : Option ℤ
  pub end_submission_period : Option ℤ
  pub xml_response_xpath : Option Bytes
  pub json_response_xpath : Option Bytes
  pub suspended : Option Bool
  pub rps : Option Float
  pub burst : Option ℤ
  pub max_concurrency : Option ℤ
  pub timeout_ms : Option ℤ
  pub headers : Option (List (Bytes × Bytes))
  pub default_content_type : Bytes
  pub rate_class : Bytes
  pub created : Option Time
  pub updated : Option Time

pub record Request : Type 0 where
  pub id : ℤ
  pub uid : Option Bytes
  pub source : Option ℤ
  pub destination : Option ℤ
  pub cc_servers : List ℤ
  pub depends_on : Option ℤ
  pub batch_id : Option Bytes
  pub url_suffix : Option Bytes
  pub body : Bytes
  pub body_is_query_param : Option Bool
  pub frequency_type : Option Bytes
  pub period : Option Bytes
  pub week : Option Bytes
  pub month : Option Bytes
  pub year : Option ℤ
  pub msisdn : Option Bytes
  pub raw_msg : Option Bytes
  pub facility : Option Bytes
  pub district : Option Bytes
  pub report_type : Option Bytes
  pub object_type : Option Bytes
  pub extras : Option Json
  pub suspended : Option Bool
  pub idempotency_key : Option Bytes
  pub created : Option Time
  pub updated : Option Time

pub data Status : Type 0 where
  ready processing awaiting_async done failed : Status

unfoldable pub status_text : Status → Bytes
status_text ready = str "ready"
status_text processing = str "processing"
status_text awaiting_async = str "awaiting_async"
status_text done = str "done"
status_text failed = str "failed"

-- The CHECK on the column: any other text is refused.
unfoldable pub parse_status : Bytes → Option Status
unfolding status_text
parse_status s =
    if text_eq s (str "ready")
    then some ready
    else if text_eq s (str "processing")
    then some processing
    else if text_eq s (str "awaiting_async")
    then some awaiting_async
    else if text_eq s (str "done")
    then some done
    else if text_eq s (str "failed")
    then some failed
    else none

pub record Delivery : Type 0 where
  pub id : ℤ
  pub request_id : ℤ
  pub server_id : ℤ
  pub status : Status
  pub attempts : ℕ
  pub next_run_at : Time
  pub retry_after_at : Option Time
  pub last_error : Option Bytes
  pub status_code : Option ℤ
  pub response_body : Option Bytes
  pub priority : ℤ
  pub scheduled_at : Time
  pub sent_at : Option Time
  pub updated_at : Time
  pub rate_class : Option Bytes
  pub rps_override : Option Float
  pub burst_override : Option ℤ
  pub timeout_ms : Option ℤ
  pub max_attempts : Option ℕ
  pub depends_on_delivery_id : Option ℤ
  pub async_job_id : Option Bytes
  pub async_status : Option Bytes
  pub async_response : Option Json
  pub async_poll_url : Option Bytes
  pub async_last_polled : Option Time
