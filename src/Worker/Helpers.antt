-- ===== src/Worker/Helpers.antt =====
-- The helpers at the end of main.go.
use sukumad.Prelude.{
  leb, if◌then◌else◌, coalesce, length, take, ℤ, pos, negsuc, is_nonpos, int32, int64, scale_ℤ,
  negate, ℕ, suc, ◌+◌, ◌-◌, ◌/◌, Bool, true, false, ◌||◌, Option, none, some, List, [], ◌∷◌, ◌++◌,
}
use sukumad.Text.{
  Bytes, str, text_eq, is_empty, to_upper, trim_space, trim_right, split, join, fields,
}
use sukumad.Text.Atoi.{atoi}
use sukumad.Types.{Json, null, bool, num, text, arr, obj, Items, end, item, get_member, Time, Float}
use sukumad.Queue.Moves.{second}

unfoldable pub collapse_space : Bytes → Bytes
collapse_space s = join (str " ") (fields s)

abbrev clean : Bytes → Bytes
clean s = trim_space (collapse_space s)

-- `toString` on a decoded value, none of which is a Stringer. `print` is json.Marshal.
module _ (print : Json → Bytes) where
  unfoldable mutual
    pub to_string : Json → Bytes
    to_string null = clean (print null)
    to_string (bool b) = clean (print (bool b))
    to_string (num s) = clean (print (num s))
    to_string (text s) = clean s
    to_string (arr vs) = items_string true vs
    to_string (obj ms) = clean (print (obj ms))

    -- The loop over the elements: a comma stands before each but the first.
    pub items_string : Bool → Items → Bytes
    items_string first end = []
    items_string true (item v vs) = to_string v ++ items_string false vs
    items_string false (item v vs) = b',' ∷ (to_string v ++ items_string false vs)

abbrev last_part : Bytes → List Bytes → Bytes
last_part part [] = part
last_part _ (part ∷ parts) = last_part part parts

-- `parts[len(parts)-1]`; strings.Split returns at least one part.
abbrev pub last_of : List Bytes → Bytes
last_of [] = []
last_of (part ∷ parts) = last_part part parts

-- The job id and the poll URL.
unfoldable pub extract_async_handles_from_location : Bytes → Bytes × Bytes
extract_async_handles_from_location loc =
    if is_empty loc then ([], []) else (last_of (split b'/' (trim_right b'/' loc)), loc)

abbrev pub running_job : Bytes × Bytes × Bytes
running_job = (str "RUNNING", [], [])

-- The switch on the upper-cased text of the status.
unfoldable pub job_of_status : Bytes → Bytes × Bytes × Bytes
job_of_status u =
    if text_eq u (str "COMPLETED") || text_eq u (str "SUCCESS") || text_eq u (str "OK")
    then ([], str "COMPLETED", [])
    else if text_eq u (str "FAILED") || text_eq u (str "ERROR")
    then ([], [], str "FAILED")
    else if text_eq u (str "RUNNING") || text_eq u (str "QUEUED")
    then (u, [], [])
    else running_job

abbrev pub job_of_member : Option Json → Bytes × Bytes × Bytes
job_of_member (some (text s)) = job_of_status (to_upper s)
job_of_member _ = running_job

-- json.Unmarshal into a map takes an object, and null, which leaves the map nil.
abbrev pub job_of_json : Option Json → Bytes × Bytes × Bytes
job_of_json (some (obj ms)) = job_of_member (get_member (str "status") ms)
job_of_json _ = running_job

-- Status, terminal success, terminal failure. `parse` is json.Unmarshal.
unfoldable pub map_dhis2_job : (Bytes → Option Json) → Bytes → Bytes × Bytes × Bytes
unfolding job_of_status
map_dhis2_job parse b = job_of_json (parse b)

abbrev map_of_json : Option Json → Option Json
map_of_json (some (obj ms)) = some (obj ms)
map_of_json _ = none

-- The map, or nil.
unfoldable pub json_raw_to_map : (Bytes → Option Json) → Bytes → Option Json
json_raw_to_map parse b = map_of_json (parse b)

-- The UTF-8 bytes of "…".
abbrev pub ellipsis : Bytes
ellipsis = 226 ∷ 128 ∷ 166 ∷ []

unfoldable pub truncate : Bytes → ℕ → Bytes
truncate s n = if leb (length s) n then s else take n s ++ ellipsis

abbrev pub deref : Option Bytes → Bytes
deref p = coalesce p []

unfoldable pub deref_float : Option Float → Float → Float
deref_float none def = def
deref_float (some x) def = if is_nonpos x then def else x

unfoldable pub deref_int32 : Option ℤ → ℤ → ℤ
deref_int32 none def = def
deref_int32 (some x) def = if is_nonpos x then def else x

-- 1.0
abbrev pub one : Float
one = pos 1_000_000

-- `int32(rps)` drops the fraction.
abbrev pub int32_of_float : Float → ℤ
int32_of_float (pos n) = int32 (pos (n / 1_000_000))
int32_of_float (negsuc n) = int32 (negate (suc n / 1_000_000))

-- The layouts of `httpParseTime`, in the order in which it tries them.
pub data Layout : Type 0 where
  rfc1123 rfc1123z rfc850 ansic rfc822 rfc822z : Layout

abbrev pub layouts : List Layout
layouts = rfc1123 ∷ rfc1123z ∷ rfc850 ∷ ansic ∷ rfc822 ∷ rfc822z ∷ []

-- `parse_time` is time.Parse.
unfoldable pub first_parse : (Layout → Bytes → Option Time) → List Layout → Bytes → Option Time
first_parse parse_time [] v = none
first_parse parse_time (l ∷ ls) v =
    let rest = first_parse parse_time ls v in
    elim (parse_time l v) [ some t ↦ some t | none ↦ rest ]

abbrev pub http_parse_time : (Layout → Bytes → Option Time) → Bytes → Option Time
http_parse_time parse_time v = first_parse parse_time layouts v

-- `t.Add(d)`; no time lies before the epoch.
abbrev pub add_duration : Time → ℤ → Time
add_duration t (pos d) = t + d
add_duration t (negsuc d) = t - suc d

-- `time.Duration(secs) * time.Second`
abbrev pub seconds : ℤ → ℤ
seconds n = int64 (scale_ℤ n second)

unfoldable pub parse_retry_after_str : (Layout → Bytes → Option Time) → Time → Bytes → Option Time
unfolding first_parse
parse_retry_after_str parse_time now s =
    let (secs, parsed) = atoi s in
    if is_empty s
    then none
    else if parsed
    then some (add_duration now (seconds secs))
    else http_parse_time parse_time s
