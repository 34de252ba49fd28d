-- ===== src/Base/Runs.antt =====
-- What a run of C code over a world `W` ends in, and the sequencing of such runs.
use mathlib.Core.Path.{◌≡◌, refl, fun_ext, ap}
use mathlib.Core.Logic.{◌≢◌}
use Prim.Native.Nat.{ℕ}
use mathlib.Core.Bool.{Bool, true, false}
use process_bridge.Base.Tests.{if◌then◌else◌}
use mathlib.Core.Option.{Option, none, some}

-- `exited` is a call of `exit`, `undefined` an access outside of an array, and `out_of_fuel` is no
-- behaviour of the code: a loop of the model was given too few rounds.
pub data Outcome (W A : Type 0) : Type 0 where
  returned : A → W → Outcome W A
  exited : ℕ → W → Outcome W A
  undefined : Outcome W A
  out_of_fuel : Outcome W A

abbrev pub Run : Type 0 → Type 0 → Type 0
Run W A = W → Outcome W A

abbrev pub and_then : {W A B : Type 0} → Outcome W A → (A → Run W B) → Outcome W B
and_then (returned a w) f = f a w
and_then (exited c w) f = exited c w
and_then undefined f = undefined
and_then out_of_fuel f = out_of_fuel

infixl 5 ◌>>=◌ ◌>>◌
abbrev pub ◌>>=◌ : {W A B : Type 0} → Run W A → (A → Run W B) → Run W B
◌>>=◌ m f w = and_then (m w) f

abbrev pub ◌>>◌ : {W B : Type 0} → Run W (Unit {0}) → Run W B → Run W B
◌>>◌ m k w = and_then (m w) (λ _. k)

module _ {W : Type 0} where
  abbrev pub pure : {A : Type 0} → A → Run W A
  pure a w = returned a w

  -- A call of code outside of the repository, which changes the world and gives a result.
  abbrev pub call : {A : Type 0} → (W → A × W) → Run W A
  call f w = let (a, w') = f w in returned a w'

  abbrev pub effect : (W → W) → Run W (Unit {0})
  effect f w = returned tt (f w)

  -- `exit(EXIT_FAILURE)`, the end of `LOG_FATAL` and of `LOG_FATAL_ERRNO`.
  abbrev pub fatal : {A : Type 0} → Run W A
  fatal w = exited 1 w

  abbrev pub ub : {A : Type 0} → Run W A
  ub w = undefined

  -- `if (bad) { LOG_FATAL(...); }`
  abbrev pub fatal_if : Bool → Run W (Unit {0})
  fatal_if true = fatal
  fatal_if false = pure tt

  -- A call that fails by giving no result, where the source then logs and exits.
  abbrev pub or_fatal : {A : Type 0} → (W → Option A × W) → Run W A
  or_fatal f w = let (o, w') = f w in elim o [ none ↦ exited 1 w' | some a ↦ returned a w' ]

pub and_then_assoc :
    {W A B C : Type 0} (o : Outcome W A) (f : A → Run W B) (g : B → Run W C)
    → and_then (and_then o f) g ≡ and_then o (λ a w. and_then (f a w) g)
and_then_assoc (returned a w) f g = refl
and_then_assoc (exited c w) f g = refl
and_then_assoc undefined f g = refl
and_then_assoc out_of_fuel f g = refl

pub >>_assoc :
    {W C : Type 0} (m n : Run W (Unit {0})) (k : Run W C) → ((m >> n) >> k) ≡ (m >> (n >> k))
>>_assoc m n k = fun_ext λ w. and_then_assoc (m w) (λ _. n) (λ _. k)

-- The run comes to an end: it returns, exits, or leaves what the C standard defines.
abbrev pub Ends : {W A : Type 0} → Outcome W A → Type 0
Ends (returned a w) = Unit
Ends (exited c w) = Unit
Ends undefined = Unit
Ends out_of_fuel = ⊥

pub and_then-Ends :
    {W A B : Type 0} (o : Outcome W A) (f : A → Run W B)
    → Ends o
    → ((a : A) (w : W) → Ends (f a w))
    → Ends (and_then o f)
and_then-Ends (returned a w) f h k = k a w
and_then-Ends (exited c w) f h k = tt
and_then-Ends undefined f h k = tt
and_then-Ends out_of_fuel f h k = h

pub fatal_if-Ends : {W : Type 0} (b : Bool) (w : W) → Ends (fatal_if b w)
fatal_if-Ends true w = tt
fatal_if-Ends false w = tt

pub or_fatal-Ends : {W A : Type 0} (f : W → Option A × W) (w : W) → Ends (or_fatal f w)
or_fatal-Ends {W} {A} f w = or_none (f w).0 (f w).1
  where
    or_none :
        (o : Option A) (w' : W) → Ends (elim o [ none ↦ exited 1 w' | some a ↦ returned a w' ])
    or_none none w' = tt
    or_none (some a) w' = tt

pub if-Ends :
    {W A : Type 0} (b : Bool) (m n : Run W A) (w : W)
    → Ends (m w)
    → Ends (n w)
    → Ends ((if b then m else n) w)
if-Ends true m n w h k = h
if-Ends false m n w h k = k

pub ruleset endings = (and_then-Ends, fatal_if-Ends, or_fatal-Ends, if-Ends)

-- A run that returns passed its first part, and then its second.
pub >>-eq_returned :
    {W A B : Type 0} (o : Outcome W A) (f : A → Run W B) {b : B} {w' : W}
    → and_then o f ≡ returned b w'
    → (a : A) × (v : W) × (o ≡ returned a v) × (f a v ≡ returned b w')
>>-eq_returned (returned a v) f h = (a, v, refl, h)
>>-eq_returned (exited c v) f h = cc
>>-eq_returned undefined f h = cc
>>-eq_returned out_of_fuel f h = cc

-- A run that returns passed each of its tests.
pub fatal_if-eq_returned :
    {W B : Type 0} (bad : Bool) (w : W) (f : Unit {0} → Run W B) {b : B} {w' : W}
    → and_then (fatal_if bad w) f ≡ returned b w'
    → (bad ≡ false) × (f tt w ≡ returned b w')
fatal_if-eq_returned true w f h = cc
fatal_if-eq_returned false w f h = (refl, h)

pub or_fatal-eq_returned :
    {W A B : Type 0} (f : W → Option A × W) (w : W) (k : A → Run W B) {b : B} {w' : W}
    → and_then (or_fatal f w) k ≡ returned b w'
    → (a : A) × ((f w).0 ≡ some a) × (k a (f w).1 ≡ returned b w')
or_fatal-eq_returned {W} {A} {B} f w k {b} {w'} h = given (f w).0 (f w).1 h
  where
    given :
        (o : Option A) (u : W)
        → and_then (elim o [ none ↦ exited 1 u | some a ↦ returned a u ]) k ≡ returned b w'
        → (a : A) × (o ≡ some a) × (k a u ≡ returned b w')
    given none u e = cc
    given (some a) u e = (a, refl, e)

-- A call that gives a result is passed.
pub or_fatal_passes :
    {W A B : Type 0} (f : W → Option A × W) (w : W) (k : A → Run W B) (a : A)
    → (f w).0 ≡ some a
    → and_then (or_fatal f w) k ≡ k a (f w).1
or_fatal_passes {W} {A} {B} f w k a h =
    ap (λ o. and_then (elim o [ none ↦ exited 1 (f w).1 | some b ↦ returned b (f w).1 ]) k) h

-- The run does not leave what the C standard defines.
pub record IsDefined {W A : Type 0} (o : Outcome W A) : Type 0 where
  pub defined : o ≢ undefined

-- A run that leaves what is defined does so behind each part that does not.
pub and_then-eq_undefined :
    {W A B : Type 0} (o : Outcome W A) (f : A → Run W B)
    → IsDefined o
    → and_then o f ≡ undefined
    → (a : A) × (v : W) × (o ≡ returned a v) × (f a v ≡ undefined)
and_then-eq_undefined (returned a v) f h e = (a, v, refl, e)
and_then-eq_undefined (exited c v) f h e = cc
and_then-eq_undefined undefined f h e = absurd (h.defined refl)
and_then-eq_undefined out_of_fuel f h e = cc

pub and_then-undefined :
    {W A B : Type 0} (o : Outcome W A) (f : A → Run W B) → o ≡ undefined → and_then o f ≡ undefined
and_then-undefined o f h = ap (λ p. and_then p f) h

pub returned-IsDefined : {W A : Type 0} (a : A) (w : W) → IsDefined (returned a w)
returned-IsDefined a w = record { defined = λ e. cc }

pub exited-IsDefined : {W A : Type 0} (c : ℕ) (w : W) → IsDefined {A = A} (exited c w)
exited-IsDefined c w = record { defined = λ e. cc }

pub and_then-IsDefined :
    {W A B : Type 0} (o : Outcome W A) (f : A → Run W B)
    → IsDefined o
    → ((a : A) (w : W) → IsDefined (f a w))
    → IsDefined (and_then o f)
and_then-IsDefined (returned a w) f h k = k a w
and_then-IsDefined (exited c w) f h k = exited-IsDefined c w
and_then-IsDefined undefined f h k = absurd (h.defined refl)
and_then-IsDefined out_of_fuel f h k = record { defined = λ e. cc }

pub fatal_if-IsDefined : {W : Type 0} (b : Bool) (w : W) → IsDefined (fatal_if b w)
fatal_if-IsDefined true w = exited-IsDefined 1 w
fatal_if-IsDefined false w = returned-IsDefined tt w

pub ruleset defining =
    (and_then-IsDefined, fatal_if-IsDefined, returned-IsDefined, exited-IsDefined)

-- If the run returns, it returns that value.
pub record Gives {W A : Type 0} (value : A) (o : Outcome W A) : Type 0 where
  pub given : (a : A) (w : W) → o ≡ returned a w → a ≡ value

pub and_then-Gives :
    {W A B : Type 0} (value : B) (o : Outcome W A) (f : A → Run W B)
    → ((a : A) (w : W) → Gives value (f a w))
    → Gives value (and_then o f)
and_then-Gives value o f h = record {
  given = λ b w' e. let (a, v, _, rest) = >>-eq_returned o f e in (h a v).given b w' rest;
}

pub returned-Gives : {W A : Type 0} (value : A) (w : W) → Gives value (returned value w)
returned-Gives value w = record { given = λ a w' e. cc }

pub ruleset giving = (and_then-Gives, returned-Gives)
