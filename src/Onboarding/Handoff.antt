-- ===== src/Onboarding/Handoff.antt =====
-- src/model_dispatcher/onboarding/handoff.py: the response that starts the client's key wizard.
use model_dispatcher.Prelude.{ℕ, String, Bool, Option, List, if◌then◌else◌}

-- A piece of an f-string: literal text, `{x!r}`, or a number.
pub data Piece : Type 0 where
  text : String → Piece
  quoted : String → Piece
  number : ℕ → Piece

abbrev pub Text : Type 0
Text = List Piece

pub data HandoffAction : Type 0 where
  trigger_key_wizard upgrade_plan retry_later : HandoffAction

abbrev pub action_value : HandoffAction → String
action_value trigger_key_wizard = "trigger_key_wizard"
action_value upgrade_plan = "upgrade_plan"
action_value retry_later = "retry_later"

pub record HandoffResponse : Type 0 where
  pub error : String
  pub provider : String
  pub action : HandoffAction
  pub http_status : ℕ
  pub detail : Option String

-- `KeyWizardHandoff.build`
unfoldable pub build : String → String → Bool → Option String → HandoffResponse
build provider reason rate_window detail = record {
  error = reason;
  provider = provider;
  action = trigger_key_wizard;
  http_status = if rate_window then 429 else 402;
  detail = detail;
}
