-- ===== src/Control/Recovery.antt =====
-- `RecoveryController` of minicodex/agent/progress/recovery.py; the texts are constructors.
use mini_codex.Common.{
  ℕ, suc, ◌+◌, ◌-◌, ◌*◌, ◌≤◌, Bool, true, false, not, ◌&&◌, Option, none, some, List, [], ◌∷◌,
  arith, Text, is_empty, leb, ◌==◌, if◌then◌else◌,
}

pub record RecoveryController : Type 0 where
  pub level : ℕ
  pub max_recovery_level : ℕ

-- `none` is the ValueError.
unfoldable pub new_controller : ℕ → Option RecoveryController
new_controller max_recovery_level =
    if leb 1 max_recovery_level && leb max_recovery_level 3
    then some (record { level = 0; max_recovery_level = max_recovery_level })
    else none

-- What the callback returns; entries that are absent are empty.
pub record ReplanResult : Type 0 where
  pub replanned : Bool
  pub failure_reason : Text
  pub message : Text

pub data Advice : Type 0 where
  stop_message replanned_message : Advice
  strategy_warning : Text → Advice
  -- `none` is the unknown failure
  replan_failed : Option Text → Advice

-- `reset` and `mark_progress`
unfoldable pub mark_progress : RecoveryController → RecoveryController
mark_progress c = record c { level = 0 }

abbrev failure_of : ReplanResult → Option Text
failure_of r =
    if not (is_empty r.failure_reason)
    then some r.failure_reason
    else if not (is_empty r.message)
    then some r.message
    else none

abbrev replan_advice : ReplanResult → Advice × Bool
replan_advice r =
    if r.replanned then (replanned_message, true) else (replan_failed (failure_of r), false)

-- The advice, whether to continue, and the controller.
unfoldable pub recover :
    Text → (Text → ReplanResult) → RecoveryController → (Advice × Bool) × RecoveryController
recover reason replan_callback c =
    if leb c.max_recovery_level c.level
    then ((stop_message, false), c)
    else if c.level == 0
    then ((strategy_warning reason, true), record c { level = 1 })
    else if c.level == 1
    then (replan_advice (replan_callback reason), record c { level = 2 })
    else ((stop_message, false), record c { level = 3 })

-- A recovery, with what the callback returns, or progress.
pub data Happening : Type 0 where
  stalled : Text → ReplanResult → Happening
  progress : Happening

unfoldable pub happen : Happening → RecoveryController → Bool × RecoveryController
happen progress c = (false, mark_progress c)
happen (stalled reason r) c = let (advice, c') = recover reason (λ _. r) c in (advice.1, c')

-- How often a recovery says to continue.
unfoldable pub continued : List Happening → RecoveryController → ℕ
continued [] c = 0
continued (x ∷ xs) c =
    let rest = continued xs (happen x c).1 in if (happen x c).0 then suc rest else rest

abbrev pub times_progressed : List Happening → ℕ
times_progressed [] = 0
times_progressed (progress ∷ xs) = suc (times_progressed xs)
times_progressed (stalled reason r ∷ xs) = times_progressed xs

continued_bound :
    (xs : List Happening) (c : RecoveryController)
    → continued xs c ≤ (2 - c.level) + 2 * times_progressed xs
unfolding continued happen recover mark_progress
continued_bound [] c = omega arith
continued_bound (progress ∷ xs) c = omega (arith, continued_bound xs (happen progress c).1)
continued_bound (stalled reason r ∷ xs) c =
    ground (arith, continued_bound xs (happen (stalled reason r) c).1)

-- However recoveries and progress follow each other, at most two recoveries say to continue, and two
-- more after each time that there is progress; every other one stops the agent.
pub recover_bound :
    (xs : List Happening) (c : RecoveryController) → continued xs c ≤ 2 + 2 * times_progressed xs
recover_bound xs c = omega (arith, continued_bound xs c)
