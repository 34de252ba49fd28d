-- ===== src/Log/Filter.antt =====
-- What a sequence of calls of utilities/log/src/log.c writes.
use process_bridge.Base.{
  [], ℕ, Option, List, ◌≡◌, some, ◌∷◌, ◌++◌, if◌then◌else◌, true, ltb, sym, refl, none, append-nil,
  ap, ◌∙◌, append_assoc, Bool, false,
}
use process_bridge.Log.{
  Logger, Message, log_init, log_set_level, read_level, log_log, initial_logger, parse_level,
  log_level_info, unknown_level, log_entry,
}

-- The calls that the header offers.
pub data Call : Type 0 where
  init : Call
  set_level : ℕ → Call
  message : Message → Call

unfoldable pub made : Option (List ℕ) → Call → Logger → Logger
made env init l = log_init env l
made env (set_level level) l = log_set_level level l
made env (message m) l = log_log env m l

unfoldable pub run : Option (List ℕ) → List Call → Logger → Logger
run env [] l = l
run env (call ∷ calls) l = run env calls (made env call l)

-- The entries of the messages from the level on that holds when each is logged.
unfoldable pub written : ℕ → List Call → List ℕ
written min_level [] = []
written min_level (init ∷ calls) = written min_level calls
written min_level (set_level level ∷ calls) = written level calls
written min_level (message m ∷ calls) =
    let rest = written min_level calls in
    if ltb m.level min_level then rest else log_entry m ++ rest

-- The level that the environment asks for, and the warning where it asks for none that is known.
abbrev pub asked_level : Option (List ℕ) → ℕ
asked_level none = log_level_info
asked_level (some value) = elim (parse_level (some value)) [
  | some level ↦ level
  | none ↦ log_level_info
]

abbrev pub warning : Option (List ℕ) → List ℕ
warning none = []
warning (some value) = elim (parse_level (some value)) [
  | some level ↦ []
  | none ↦ unknown_level value
]

-- From the start of the program. The environment counts unless the first call sets the level.
unfoldable pub expected : Option (List ℕ) → List Call → List ℕ
expected env [] = []
expected env (set_level level ∷ calls) = written level calls
expected env (init ∷ calls) = warning env ++ written (asked_level env) calls
expected env (message m ∷ calls) = warning env ++ written (asked_level env) (message m ∷ calls)

-- A logger that is initialised.
abbrev ready : ℕ → List ℕ → Logger
ready level err = record { min_level = level; initialized = true; err = err }

ready_if :
    (b : Bool) (level : ℕ) (err more : List ℕ)
    → (if b then ready level err else ready level (err ++ more))
      ≡ ready level (if b then err else err ++ more)
ready_if true level err more = refl
ready_if false level err more = refl

append_if :
    (b : Bool) (err more rest : List ℕ)
    → (if b then err else err ++ more) ++ rest ≡ err ++ (if b then rest else more ++ rest)
append_if true err more rest = refl
append_if false err more rest = append_assoc err more rest

message_ready :
    (env : Option (List ℕ)) (m : Message) (level : ℕ) (err : List ℕ)
    → log_log env m (ready level err)
      ≡ ready level (if ltb m.level level then err else err ++ log_entry m)
unfolding log_log log_init
message_ready env m level err = ready_if (ltb m.level level) level err (log_entry m)

run-written :
    (env : Option (List ℕ)) (calls : List Call) (level : ℕ) (err : List ℕ)
    → (run env calls (ready level err)).err ≡ err ++ written level calls
unfolding run made written log_init log_set_level
run-written env [] level err = sym (append-nil err)
run-written env (init ∷ calls) level err = run-written env calls level err
run-written env (set_level other ∷ calls) level err = run-written env calls other err
run-written env (message m ∷ calls) level err =
    let low = ltb m.level level in
    ap (λ l. (run env calls l).err) (message_ready env m level err)
    ∙ run-written env calls level (if low then err else err ++ log_entry m)
    ∙ append_if low err (log_entry m) (written level calls)

read_if :
    (value : List ℕ) (o : Option ℕ)
    → elim o as (λ _. Logger) [
      | some level ↦ ready level []
      | none ↦ ready log_level_info (unknown_level value)
    ]
      ≡ ready
          (elim o [ some level ↦ level | none ↦ log_level_info ])
          (elim o [ some level ↦ [] | none ↦ unknown_level value ])
read_if value none = refl
read_if value (some level) = refl

-- The first call reads the environment, unless it sets the level.
log_init_initial :
    (env : Option (List ℕ)) → log_init env initial_logger ≡ ready (asked_level env) (warning env)
unfolding log_init read_level
log_init_initial none = refl
log_init_initial (some value) = read_if value (parse_level (some value))

log_log_initial :
    (env : Option (List ℕ)) (m : Message)
    → log_log env m initial_logger ≡ log_log env m (ready (asked_level env) (warning env))
unfolding log_log log_init
log_log_initial env m =
    ap
      (λ (l : Logger).
        if ltb m.level l.min_level then l else record l { err = l.err ++ log_entry m })
      (log_init_initial env)

-- The calls of `log_init`, `log_set_level` and `log_log`, from the start of the program, write
-- what the specification says that has no flag for the initialisation: the warning for an unknown
-- level of the environment, once, unless the first call sets the level, and then the entries of
-- the messages from the level on that holds when each is logged.
pub run-expected :
    (env : Option (List ℕ)) (calls : List Call)
    → (run env calls initial_logger).err ≡ expected env calls
unfolding run made expected log_set_level
run-expected env [] = refl
run-expected env (set_level level ∷ calls) = run-written env calls level []
run-expected env (init ∷ calls) =
    ap (λ l. (run env calls l).err) (log_init_initial env)
    ∙ run-written env calls (asked_level env) (warning env)
run-expected env (message m ∷ calls) =
    ap (λ l. (run env calls l).err) (log_log_initial env m)
    ∙ run-written env (message m ∷ calls) (asked_level env) (warning env)
