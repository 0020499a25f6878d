-- ===== src/Validation/Contracts.antt =====
-- minicodex/agent/validation/contracts.py: the typed machine contracts.
use mini_codex.Common.{Text, Bool, Option}
use mini_codex.Common.Int.{ℤ}
use native.Mathlib.Decide.{ℕ_discrete}

-- The JSON values that a contract may carry; a float is kept as its `repr`.
mutual
  pub data Json : Type 0 where
    null : Json
    bool : Bool → Json
    int : ℤ → Json
    float : Text → Json
    str : Text → Json
    list : JsonItems → Json
    dict : JsonFields → Json

  pub data JsonItems : Type 0 where
    end_items : JsonItems
    item : Json → JsonItems → JsonItems

  pub data JsonFields : Type 0 where
    end_fields : JsonFields
    field : Text → Json → JsonFields → JsonFields

pub record BrowserAction : Type 0 where
  pub type : Text
  pub selector : Text
  pub value : Text

pub record BrowserAssertion : Type 0 where
  pub type : Text
  pub selector : Text
  pub value : Text

pub record BrowserNoOpBehavior : Type 0 where
  pub action : BrowserAction
  pub assertion : BrowserAssertion

-- The field `contract_type` of each class is a constant of its constructor.
pub data VerificationContract : Type 0 where
  file_exists : Text → VerificationContract
  file_contains : Text → Text → VerificationContract
  test_target : Text → VerificationContract
  command : Text → VerificationContract
  python_behavior : Text → VerificationContract
  node_behavior : Text → VerificationContract
  http_response : Text → Text → ℤ → Text → Option JsonFields → VerificationContract
  browser_interaction :
      Text → BrowserAction → BrowserAssertion → Option BrowserNoOpBehavior → VerificationContract
  semantic : Text → Text → VerificationContract

Json-discrete : Discrete Json
Json-discrete = hlevel ℕ_discrete

-- `contract_key` is the class name and the `repr`: two contracts share a key when they are equal.
pub VerificationContract-discrete : Discrete VerificationContract
VerificationContract-discrete = hlevel ℕ_discrete
