-- ===== src/Log/Fatal.antt =====
-- The end of the program by `LOG_FATAL` of utilities/log/include/log.h.
use process_bridge.Base.{
  [], Option, ◌≤◌, List, ℕ, Bool-cases, some, All, ◌++◌, inl, Option-cases, ltb, ◌∷◌, ◌≡◌,
  if◌then◌else◌, exited, inr, refl, arith, false, ap, none, sym, ◌∙◌, take,
}
use process_bridge.Log.{
  Logger, Message, log_init, log_set_level, log_fatal, read_level, log_log, log_level_error,
  initial_logger, parse_level, log_entry, log_fatal_errno, log_errno,
}
use process_bridge.Log.Filter.{Call, init, set_level, message, made, run, expected, run-expected}
use process_bridge.Log.Levels.{read_level_name}

-- The levels that a caller sets are those of the enumeration.
abbrev pub IsSound : Call → Type 0
IsSound init = Unit
IsSound (set_level level) = level ≤ log_level_error
IsSound (message m) = Unit

abbrev IsLogger : Logger → Type 0
IsLogger l = l.min_level ≤ log_level_error

read_level-IsLogger :
    (value : Option (List ℕ)) (l : Logger) → IsLogger l → IsLogger (read_level value l)
unfolding read_level
read_level-IsLogger none l h = h
read_level-IsLogger (some value) l h = elim (Option-cases (parse_level (some value))) [
  | inl unknown ↦ rw (read_level, unknown) h
  | inr (level, known) ↦
      rw (read_level, known) (omega (arith, (read_level_name value level known).0))
]

log_init-IsLogger : (env : Option (List ℕ)) (l : Logger) → IsLogger l → IsLogger (log_init env l)
unfolding log_init
log_init-IsLogger env l h = elim (Bool-cases l.initialized) [
  | inl ready ↦ simp (if◌then◌else◌, ready) h
  | inr fresh ↦ simp (if◌then◌else◌, fresh) (read_level-IsLogger env l h)
]

log_log-IsLogger :
    (env : Option (List ℕ)) (m : Message) (l : Logger) → IsLogger l → IsLogger (log_log env m l)
unfolding log_log
log_log-IsLogger env m l h =
    let h' = log_init-IsLogger env l h in
    elim (Bool-cases (ltb m.level (log_init env l).min_level)) [
      | inl low ↦ rw (if◌then◌else◌, low) h'
      | inr high ↦ rw (if◌then◌else◌, high) h'
    ]

run-IsLogger :
    (env : Option (List ℕ)) (calls : List Call) (l : Logger)
    → All IsSound calls
    → IsLogger l
    → IsLogger (run env calls l)
unfolding run made log_set_level
run-IsLogger env [] l sound h = h
run-IsLogger env (init ∷ calls) l sound h =
    run-IsLogger env calls (log_init env l) sound.1 (log_init-IsLogger env l h)
run-IsLogger env (set_level level ∷ calls) l sound h =
    run-IsLogger env calls (log_set_level level l) sound.1 sound.0
run-IsLogger env (message m ∷ calls) l sound h =
    run-IsLogger env calls (log_log env m l) sound.1 (log_log-IsLogger env m l h)

run_last :
    (env : Option (List ℕ)) (calls : List Call) (l : Logger)
    → run env (calls ++ init ∷ []) l ≡ log_init env (run env calls l)
unfolding run made
run_last env [] l = refl
run_last env (call ∷ calls) l = run_last env calls (made env call l)

-- Whatever was logged before, with the levels of the enumeration, and whatever the environment asks
-- for, `LOG_FATAL` writes its message as an error, behind what was written and the warning of the
-- environment where that was not read yet, and ends the program with the code 1.
pub log_fatal-exited :
    (env : Option (List ℕ)) (calls : List Call) (m : Message)
    → All IsSound calls
    → (l : Logger) × (log_fatal {A = Unit {0}} env m (run env calls initial_logger) ≡ exited 1 l)
      × (l.err
          ≡ expected env (calls ++ init ∷ []) ++ log_entry (record m { level = log_level_error }))
unfolding log_fatal log_log
log_fatal-exited env calls m sound =
    let l = log_init env (run env calls initial_logger) in
    let error = record m { level = log_level_error } in
    let sound_level : ltb log_level_error l.min_level ≡ false =
      let le =
        log_init-IsLogger env (run env calls initial_logger)
          (run-IsLogger env calls initial_logger sound (omega arith)) in
      ground (arith, le) in
    let before : l.err ≡ expected env (calls ++ init ∷ []) =
      ap (λ (l : Logger). l.err) (sym (run_last env calls initial_logger))
      ∙ run-expected env (calls ++ init ∷ []) in
    (
      log_log env error (run env calls initial_logger),
      refl,
      simp (if◌then◌else◌, sound_level) (ap (λ xs. xs ++ log_entry error) before),
    )

-- `LOG_FATAL_ERRNO` ends the program as `LOG_FATAL` does, with the text of the error behind the
-- message, of which it keeps 511 bytes.
pub log_fatal_errno-exited :
    (env : Option (List ℕ)) (calls : List Call) (m : Message) (strerror : List ℕ)
    → All IsSound calls
    → (l : Logger) × (log_fatal_errno {A = Unit {0}} env m strerror (run env calls initial_logger)
        ≡ exited 1 l)
      × (l.err
          ≡ expected env (calls ++ init ∷ [])
            ++ log_entry (record m {
              level = log_level_error;
              text = take 511 m.text ++ (58 ∷ 32 ∷ [] ++ strerror);
            }))
unfolding log_fatal_errno log_errno log_fatal
log_fatal_errno-exited env calls m strerror sound =
    log_fatal-exited env calls (record m { text = take 511 m.text ++ (58 ∷ 32 ∷ [] ++ strerror) })
      sound
