-- ===== src/Tests/Logged.antt =====
-- Runs of the log.
use process_bridge.Base.{
  [], List, some, ◌∷◌, ℕ, ◌≡◌, none, exited, ◌⊎◌, ◌↔◌, ◌++◌, ◌<◌, refl, arith,
}
use process_bridge.Log.{
  Message, parse_level, level_name, log_level_warn, warning_name, Logger, log_entry, base_name,
  initial_logger, log_fatal, padded, after_slash, decimal, log_level_error,
}
use process_bridge.Log.Filter.{run, Call, expected, init, message, run-expected, set_level}
use process_bridge.Log.Levels.{IsSpelled, parse_level-IsSpelled}
use process_bridge.Log.Fatal.{log_fatal-exited}

-- "Warning"
abbrev asked : List ℕ
asked = 87 ∷ 97 ∷ 114 ∷ 110 ∷ 105 ∷ 110 ∷ 103 ∷ []

-- "src/a.c"
abbrev source_file : List ℕ
source_file = 115 ∷ 114 ∷ 99 ∷ 47 ∷ 97 ∷ 46 ∷ 99 ∷ []

abbrev sample_message : Message
sample_message = record {
  level = 1;
  file = source_file;
  line = 12;
  text = 104 ∷ 105 ∷ [];
  time = none;
}

abbrev sample_calls : List Call
sample_calls = init ∷ message sample_message ∷ set_level 0 ∷ message sample_message ∷ []

parse_level-IsSpelled_example : (parse_level (some asked) ≡ some 2) ↔ (
    (2 < 4)
    × (IsSpelled asked (level_name 2) ⊎ ((2 ≡ log_level_warn) × IsSpelled asked warning_name)))
parse_level-IsSpelled_example = parse_level-IsSpelled asked 2

-- "??:??:?? [INFO ] a.c:12: hi\n"
entry_bytes :
    log_entry sample_message
    ≡ 63 ∷ 63 ∷ 58 ∷ 63 ∷ 63 ∷ 58 ∷ 63 ∷ 63 ∷ 32 ∷ 91 ∷ 73 ∷ 78 ∷ 70 ∷ 79 ∷ 32 ∷ 93 ∷ 32 ∷ 97 ∷ 46
      ∷ 99 ∷ 58 ∷ 49 ∷ 50 ∷ 58 ∷ 32 ∷ 104 ∷ 105 ∷ 10 ∷ []
unfolding log_entry padded level_name base_name after_slash decimal
entry_bytes = refl

run-expected_example :
    (run (some asked) sample_calls initial_logger).err ≡ expected (some asked) sample_calls
run-expected_example = run-expected (some asked) sample_calls

log_fatal-exited_example :
    (l : Logger) × (log_fatal {A = Unit {0}}
        (some asked)
        sample_message
        (run (some asked) sample_calls initial_logger)
      ≡ exited 1 l)
    × (l.err
        ≡ expected (some asked) (sample_calls ++ init ∷ [])
          ++ log_entry (record sample_message { level = log_level_error }))
log_fatal-exited_example =
    log_fatal-exited (some asked) sample_calls sample_message (tt, (tt, (omega arith, (tt, tt))))
