-- ===== src/Cgroup/Events.antt =====
-- The flags that `parse_event_flag` of src/adapters/linux_process_lifecycle.rs reads.
use ores_otel_sidecar_rs.Prelude.{
  Text-discrete, ◌≡◌, ◌≢◌, refl, Bool, true, false, Option, none, some, Result, ok, err, codes, [],
  ◌∷◌, ◌++◌, arith, Text, text_eq,
}
use ores_otel_sidecar_rs.Maps.{Map, lookup}
use ores_otel_sidecar_rs.Strings.{lines_from, lines}
use ores_otel_sidecar_rs.Strings.Lines.{Lacks, split_once_first, strip_cr-Lacks, lines_from_line}
use ores_otel_sidecar_rs.Cgroup.{
  LinuxLifecycleError, invalid_cgroup_event, missing_cgroup_event, value_if, find_value, flag_of,
  parse_event_flag,
}

-- A file of one line for each key and value.
abbrev pub print_events : Map → Text
print_events [] = []
print_events ((k, v) ∷ m) = (k ++ b' ' ∷ v) ++ b'\n' ∷ print_events m

-- Keys of one word, and neither a key nor a value breaks a line.
abbrev OneLine : Map → Type 0
OneLine [] = Unit
OneLine ((k, v) ∷ m) =
    Lacks b' ' k × Lacks b'\n' (k ++ b' ' ∷ v) × Lacks b'\r' (k ++ b' ' ∷ v) × OneLine m

find_value-print_events :
    (key : Text) (m : Map)
    → OneLine m
    → find_value key (lines_from [] (print_events m)) ≡ lookup key m
unfolding find_value value_if lookup lines_from
find_value-print_events key [] h = refl
find_value-print_events key ((k, v) ∷ m) h = ground (
  arith,
  lines_from_line [] (k ++ b' ' ∷ v) (print_events m) h.1,
  strip_cr-Lacks (k ++ b' ' ∷ v) h.2,
  split_once_first b' ' k v h.0,
  find_value-print_events key m h.3,
)

-- What is to be read of a value: `0` and `1` are the flags, another value is invalid, and without a
-- value the event is missing.
pub record IsFlag (key : Text) (value : Option Text) (r : Result LinuxLifecycleError Bool)
    : Type 0 where
  pub off : value ≡ some (codes "0") → r ≡ ok false
  pub on : value ≡ some (codes "1") → r ≡ ok true
  pub invalid :
      (v : Text)
      → value ≡ some v
      → v ≢ codes "0"
      → v ≢ codes "1"
      → r ≡ err (invalid_cgroup_event key)
  pub missing : value ≡ none → r ≡ err (missing_cgroup_event key)

flag_of-IsFlag : (key : Text) (value : Option Text) → IsFlag key value (flag_of key value)
unfolding flag_of Text-discrete
flag_of-IsFlag key value = record {
  off = λ e. rw e refl;
  on = λ e. rw e refl;
  invalid = λ v e zero_ one_. ground (arith, e, zero_, one_);
  missing = λ e. rw e refl;
}

-- On a file of lines `key value`, a flag is read from the first line of its key: `0` and `1` are its
-- values, another value is invalid, and no such line is a missing event.
pub parse_event_flag-print_events :
    (m : Map) (key : Text)
    → OneLine m
    → IsFlag key (lookup key m) (parse_event_flag (print_events m) key)
unfolding parse_event_flag lines
parse_event_flag-print_events m key h =
    rw (find_value-print_events key m h) (flag_of-IsFlag key (lookup key m))
