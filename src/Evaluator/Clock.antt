-- ===== src/Evaluator/Clock.antt =====
-- evaluator.go: `getTime` and `getUnixTimestamp`, and the methods of `time.Time` that are used.
use statsig_go_sdk.Prelude.{
  String, Bool, ◌&&◌, ◌||◌, Option, none, some, ltb, nat_eq, if◌then◌else◌,
}
use statsig_go_sdk.Prelude.Int.{ℤ, pos, negsuc, ltb_ℤ, eq_ℤ, quot_ℤ, add_ℕ}
use statsig_go_sdk.Text.{codes}
use statsig_go_sdk.Text.Parse.{Parsed, parse_int}
use statsig_go_sdk.Value.{Value, string, int, int32, int64, float64}
use statsig_go_sdk.Runtime.{Runtime, Time, Date}

-- `time.Time{}`: the first of January of the year 1, UTC.
abbrev pub zero_time : Time
zero_time = record { seconds = negsuc 62135596799; nanos = 0; offset = pos 0 }

-- `t.Before(u)`; `t.After(u)` is `before u t`.
abbrev pub before : Time → Time → Bool
before t u = ltb_ℤ t.seconds u.seconds || (eq_ℤ t.seconds u.seconds && ltb t.nanos u.nanos)

abbrev pub same_date : Date → Date → Bool
same_date d e = eq_ℤ d.year e.year && nat_eq d.month e.month && nat_eq d.day e.day

module _ (r : Runtime) where
  -- `getUnixTimestamp`
  unfoldable pub get_unix_timestamp : Value → ℤ
  get_unix_timestamp (float64 x) = r.float_to_int64 x
  get_unix_timestamp (int64 n) = n
  get_unix_timestamp (int32 n) = n
  get_unix_timestamp (int n) = n
  get_unix_timestamp _ = pos 0

  -- `time.Unix(s, 0)`
  abbrev unix : ℤ → Time
  unix s = record { seconds = s; nanos = 0; offset = r.local_offset s }

  -- A number that would be more than a hundred years ahead is read as milliseconds.
  unfoldable pub time_of_number : ℤ → Time
  time_of_number n =
      if ltb_ℤ (add_ℕ (r.date r.now).year 100) (r.date (unix n)).year
      then unix (quot_ℤ n 1000)
      else unix n

  abbrev time_of_parsed : Parsed → Time
  time_of_parsed p = if p.failed then zero_time else time_of_number p.number

  abbrev or_integer : String → Option Time → Time
  or_integer s (some t) = t
  or_integer s none = time_of_parsed (parse_int (codes s))

  -- `getTime`
  unfoldable pub get_time : Value → Time
  unfolding get_unix_timestamp time_of_number parse_int
  get_time (float64 x) = time_of_number (get_unix_timestamp (float64 x))
  get_time (int64 n) = time_of_number (get_unix_timestamp (int64 n))
  get_time (int32 n) = time_of_number (get_unix_timestamp (int32 n))
  get_time (int n) = time_of_number (get_unix_timestamp (int n))
  get_time (string s) = or_integer s (r.parse_rfc3339 s)
  get_time _ = zero_time
