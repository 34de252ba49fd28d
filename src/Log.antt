-- ===== src/Log.antt =====
-- utilities/log/src/log.c and utilities/log/include/log.h: what is logged, and from which level on.
pub mod Levels
pub mod Filter
pub mod Fatal
pub mod Names
use process_bridge.Base.{
  ℕ, zero, suc, Option, some, none, List, [], ◌∷◌, ◌++◌, Bool, ◌||◌, ◌&&◌, ◌==◌, ltb, leb,
  if◌then◌else◌, ◌+◌, ◌-◌, ◌/◌, ◌%◌, length, replicate, take, Run, effect, fatal, ◌>>◌, false, true,
}

-- `log_level_t`, numbers since a C enumeration holds others too.
abbrev pub log_level_debug : ℕ
log_level_debug = 0

abbrev pub log_level_info : ℕ
log_level_info = 1

abbrev pub log_level_warn : ℕ
log_level_warn = 2

abbrev pub log_level_error : ℕ
log_level_error = 3

-- "DEBUG"
abbrev pub debug_name : List ℕ
debug_name = 68 ∷ 69 ∷ 66 ∷ 85 ∷ 71 ∷ []

-- "INFO"
abbrev pub info_name : List ℕ
info_name = 73 ∷ 78 ∷ 70 ∷ 79 ∷ []

-- "WARN"
abbrev pub warn_name : List ℕ
warn_name = 87 ∷ 65 ∷ 82 ∷ 78 ∷ []

-- "WARNING"
abbrev pub warning_name : List ℕ
warning_name = 87 ∷ 65 ∷ 82 ∷ 78 ∷ 73 ∷ 78 ∷ 71 ∷ []

-- "ERROR"
abbrev pub error_name : List ℕ
error_name = 69 ∷ 82 ∷ 82 ∷ 79 ∷ 82 ∷ []

-- "?????"
abbrev pub unknown_name : List ℕ
unknown_name = 63 ∷ 63 ∷ 63 ∷ 63 ∷ 63 ∷ []

-- "??:??:??"
abbrev pub no_time : List ℕ
no_time = 63 ∷ 63 ∷ 58 ∷ 63 ∷ 63 ∷ 58 ∷ 63 ∷ 63 ∷ []

-- The text around the value of the variable of the environment, when it is no level.
abbrev before_value : List ℕ
before_value =
    108 ∷ 111 ∷ 103 ∷ 58 ∷ 32 ∷ 117 ∷ 110 ∷ 107 ∷ 110 ∷ 111 ∷ 119 ∷ 110 ∷ 32 ∷ 80 ∷ 82 ∷ 79 ∷ 67
    ∷ 69 ∷ 83 ∷ 83 ∷ 95 ∷ 66 ∷ 82 ∷ 73 ∷ 68 ∷ 71 ∷ 69 ∷ 95 ∷ 76 ∷ 79 ∷ 71 ∷ 95 ∷ 76 ∷ 69 ∷ 86 ∷ 69
    ∷ 76 ∷ 61 ∷ 34 ∷ []

abbrev after_value : List ℕ
after_value =
    34 ∷ 44 ∷ 32 ∷ 101 ∷ 120 ∷ 112 ∷ 101 ∷ 99 ∷ 116 ∷ 101 ∷ 100 ∷ 32 ∷ 68 ∷ 69 ∷ 66 ∷ 85 ∷ 71 ∷ 47
    ∷ 73 ∷ 78 ∷ 70 ∷ 79 ∷ 47 ∷ 87 ∷ 65 ∷ 82 ∷ 78 ∷ 47 ∷ 69 ∷ 82 ∷ 82 ∷ 79 ∷ 82 ∷ 44 ∷ 32 ∷ 100 ∷ 101
    ∷ 102 ∷ 97 ∷ 117 ∷ 108 ∷ 116 ∷ 105 ∷ 110 ∷ 103 ∷ 32 ∷ 116 ∷ 111 ∷ 32 ∷ 73 ∷ 78 ∷ 70 ∷ 79 ∷ 10
    ∷ []

unfoldable pub level_name : ℕ → List ℕ
level_name level =
    if level == 0
    then debug_name
    else if level == 1
    then info_name
    else if level == 2
    then warn_name
    else if level == 3
    then error_name
    else unknown_name

-- `tolower` in the C locale.
unfoldable pub to_lower : ℕ → ℕ
to_lower c = if leb 65 c && leb c 90 then c + 32 else c

-- `strcasecmp(a, b) == 0`, of texts without their final zero.
unfoldable pub same_folded : List ℕ → List ℕ → Bool
same_folded [] [] = true
same_folded [] (d ∷ right) = false
same_folded (c ∷ left) [] = false
same_folded (c ∷ left) (d ∷ right) = (to_lower c == to_lower d) && same_folded left right

-- A result of -1 is `none`; an absent name is `none` too.
unfoldable pub parse_level : Option (List ℕ) → Option ℕ
parse_level none = none
parse_level (some name) =
    if same_folded name debug_name
    then some log_level_debug
    else if same_folded name info_name
    then some log_level_info
    else if same_folded name warn_name || same_folded name warning_name
    then some log_level_warn
    else if same_folded name error_name
    then some log_level_error
    else none

-- `g_min_level`, `g_initialized`, and what was written to `stderr`.
pub record Logger : Type 0 where
  pub min_level : ℕ
  pub initialized : Bool
  pub err : List ℕ

abbrev pub initial_logger : Logger
initial_logger = record { min_level = log_level_info; initialized = false; err = [] }

unfoldable pub unknown_level : List ℕ → List ℕ
unknown_level value = before_value ++ (value ++ after_value)

-- `env` is what `getenv("PROCESS_BRIDGE_LOG_LEVEL")` gives.
unfoldable pub read_level : Option (List ℕ) → Logger → Logger
read_level none l = record l { initialized = true }
read_level (some value) l = elim (parse_level (some value)) [
  | some level ↦ record l { initialized = true; min_level = level }
  | none ↦ record l { initialized = true; err = l.err ++ unknown_level value }
]

unfoldable pub log_init : Option (List ℕ) → Logger → Logger
log_init env l = if l.initialized then l else read_level env l

unfoldable pub log_set_level : ℕ → Logger → Logger
log_set_level level l = record l { initialized = true; min_level = level }

-- The text behind the last '/', where there is one.
unfoldable pub after_slash : List ℕ → Option (List ℕ)
after_slash [] = none
after_slash (c ∷ cs) = elim (after_slash cs) [
  | some rest ↦ some rest
  | none ↦ if c == 47 then some cs else none
]

unfoldable pub base_name : List ℕ → List ℕ
base_name file = elim (after_slash file) [ some name ↦ name | none ↦ file ]

-- The digits of a number, in front of a text; a line number has less than eleven.
abbrev decimal_from : ℕ → ℕ → List ℕ → List ℕ
decimal_from zero n text = text
decimal_from (suc fuel) n text =
    let digit = 48 + n % 10 in
    let rest = decimal_from fuel (n / 10) (digit ∷ text) in if ltb n 10 then digit ∷ text else rest

unfoldable pub decimal : ℕ → List ℕ
decimal n = decimal_from 10 n []

-- `%-5s`
unfoldable pub padded : List ℕ → List ℕ
padded text = text ++ replicate (5 - length text) 32

-- A call of `log_log`: the message as `vfprintf` writes it, and what `localtime_r` and `strftime` give
-- for the time.
pub record Message : Type 0 where
  pub level : ℕ
  pub file : List ℕ
  pub line : ℕ
  pub text : List ℕ
  pub time : Option (List ℕ)

-- "%s [%-5s] %s:%d: ", the message and the end of the line.
unfoldable pub log_entry : Message → List ℕ
log_entry m =
    let time : List ℕ = elim m.time [ some text ↦ text | none ↦ no_time ] in
    time
    ++ (32 ∷ 91 ∷ []
        ++ (padded (level_name m.level)
            ++ (93 ∷ 32 ∷ []
                ++ (base_name m.file
                    ++ (58 ∷ [] ++ (decimal m.line ++ (58 ∷ 32 ∷ [] ++ (m.text ++ 10 ∷ []))))))))

unfoldable pub log_log : Option (List ℕ) → Message → Logger → Logger
log_log env m l =
    let l' = log_init env l in
    if ltb m.level l'.min_level then l' else record l' { err = l'.err ++ log_entry m }

-- `LOG_DEBUG`, `LOG_INFO`, `LOG_WARN` and `LOG_ERROR`
abbrev pub log_debug : Option (List ℕ) → Message → Logger → Logger
log_debug env m = log_log env (record m { level = log_level_debug })

abbrev pub log_info : Option (List ℕ) → Message → Logger → Logger
log_info env m = log_log env (record m { level = log_level_info })

abbrev pub log_warn : Option (List ℕ) → Message → Logger → Logger
log_warn env m = log_log env (record m { level = log_level_warn })

abbrev pub log_error : Option (List ℕ) → Message → Logger → Logger
log_error env m = log_log env (record m { level = log_level_error })

-- `LOG_ERRNO`: the message cut to 511 bytes, and the text of the error behind it.
unfoldable pub log_errno : Option (List ℕ) → Message → List ℕ → Logger → Logger
log_errno env m strerror =
    log_log env (record m { text = take 511 m.text ++ (58 ∷ 32 ∷ [] ++ strerror) })

-- `LOG_FATAL`
unfoldable pub log_fatal : {A : Type 0} → Option (List ℕ) → Message → Run Logger A
log_fatal env m = effect (log_error env m) >> fatal

-- `LOG_FATAL_ERRNO`
unfoldable pub log_fatal_errno : {A : Type 0} → Option (List ℕ) → Message → List ℕ → Run Logger A
log_fatal_errno env m strerror =
    effect (log_errno env (record m { level = log_level_error }) strerror) >> fatal
