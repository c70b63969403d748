-- ===== src/Runtime.antt =====
-- What the SDK calls and this repository does not hold: the Unicode tables, SHA-256, floating
-- point, formatting, regular expressions, calendars, JSON, and the two lookup packages. Each is a
-- parameter; the theorems name what they rely on as hypotheses. The clock is a parameter too: all
-- readings that one evaluation makes are the same.
use Prim.Native.Char.{Char}
use statsig_go_sdk.Prelude.{ℕ, String, Bool, ◌||◌, Option, List}
use statsig_go_sdk.Prelude.Int.{ℤ}
use statsig_go_sdk.Value.{Float64, Value, Object}
use statsig_go_sdk.Spec.{DownloadConfigSpecResponse}
use statsig_go_sdk.Text.{lower_all}

-- `time.Time`: seconds and nanoseconds since 1970, and the offset of its location.
pub record Time : Type 0 where
  pub seconds : ℤ
  pub nanos : ℕ
  pub offset : ℤ

-- `time.Time.Date`
pub record Date : Type 0 where
  pub year : ℤ
  pub month : ℕ
  pub day : ℕ

-- `uaparser.Client`: the parts that the evaluator reads.
pub record UserAgentClient : Type 0 where
  pub os_family : String
  pub os_major : String
  pub os_minor : String
  pub os_patch : String
  pub os_patch_minor : String
  pub browser_family : String
  pub browser_major : String
  pub browser_minor : String
  pub browser_patch : String

pub record Runtime : Type 0 where
  -- `unicode.ToLower` from 128 on
  pub lower_rune : Char → Char
  -- `sha256.Sum256`, as bytes
  pub sha256 : String → List ℕ
  -- `base64.StdEncoding.EncodeToString`
  pub base64 : List ℕ → String
  -- `x < y` and `x == y` on `float64`
  pub float_lt : Float64 → Float64 → Bool
  pub float_eq : Float64 → Float64 → Bool
  -- `x * y`
  pub float_mul : Float64 → Float64 → Float64
  -- `float64(n)` of an integer and of a `float32`
  pub float_of_int : ℤ → Float64
  pub float_of_float32 : ℕ → Float64
  -- `int64(x)`
  pub float_to_int64 : Float64 → ℤ
  -- `strconv.ParseFloat(s, 64)`
  pub parse_float : String → Option Float64
  -- `fmt.Sprintf("%v", a)`
  pub format_value : Value → String
  -- `fmt.Sprintf("%s", a)` of an `a` that is no string
  pub format_text : Value → String
  -- `regexp.MatchString(pattern, s)`, false if the pattern is refused
  pub match_regexp : String → String → Bool
  -- `time.Parse(time.RFC3339, s)`
  pub parse_rfc3339 : String → Option Time
  -- the offset of the local time zone at a time
  pub local_offset : ℤ → ℤ
  pub date : Time → Date
  -- `json.Unmarshal` into a `map[string]interface{}`: `none` for an error, `some none` for a nil map
  pub unmarshal_object : String → Option (Option Object)
  -- `json.Unmarshal` and `json.Marshal` of the server's answer; `none` for an error
  pub unmarshal_specs : String → Option DownloadConfigSpecResponse
  pub marshal_specs : DownloadConfigSpecResponse → Option String
  -- `countrylookup.LookupIp`
  pub lookup_ip : String → Option String
  -- `uaparser.Parse`
  pub parse_user_agent : String → UserAgentClient
  -- `time.Now()`, and `getUnixMilli()`
  pub now : Time
  pub now_milli : ℤ

-- `strings.ToLower`
abbrev pub to_lower : Runtime → String → String
to_lower r = lower_all r.lower_rune

-- `x <= y`
abbrev pub float_le : Runtime → Float64 → Float64 → Bool
float_le r x y = r.float_lt x y || r.float_eq x y
