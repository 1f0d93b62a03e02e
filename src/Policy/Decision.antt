-- ===== src/Policy/Decision.antt =====
-- The decision cards of v4_policy/policy.py: `build_decision_card` and `apply_decision_response`. A
-- function that raises (PolicyError, ProtocolRejection, or TypeError where times do not compare)
-- returns none.
pub mod Answered
use loop_skill.Prelude.{
  not, some, Bool, List, Option, String, [], distinct, elem, false, has_prefix, is_nil, ltb, none,
  subset, true, ℕ, ◌==◌, ◌||◌, ◌∷◌,
}
use mathlib.Core.Option
use loop_skill.Protocol.Envelope.{is_before, Runtime, domain_digest}
use loop_skill.Protocol.Outcome.{◌>>◌, Result, err, ok}
use loop_skill.Protocol.Partial.{settled, unless, ◌>>=◌}
use loop_skill.Protocol.Value.{array_of, Value, array, object_of, opt_str, str}

pub record DecisionCard : Type 0 where
  pub card_ref : String
  pub goal_ref : String
  pub artifact_ref : Option String
  pub options : List String
  pub context_digest : String
  pub expires_at : String
  pub card_digest : String

pub record DecisionResponse : Type 0 where
  pub card_ref : String
  pub selected_option : String
  pub context_digest : String
  pub card_digest : String
  pub responded_at : String

-- _DECISION_OPTIONS
abbrev pub decision_options : List String
decision_options = "CONTINUE_REPAIR" ∷ "WAIT" ∷ "STOP" ∷ []

unfoldable pub invalid_card : String → String → List String → Bool
invalid_card card_ref goal_ref options =
    not (has_prefix "decision-" card_ref)
    || not (has_prefix "goal-" goal_ref)
    || is_nil options
    || not (distinct options)
    || not (subset options decision_options)

card_body : String → String → Option String → List String → String → String → Value
card_body card_ref goal_ref artifact_ref options context_digest expires_at = object_of (
    ("artifact_ref", opt_str artifact_ref)
    ∷ ("card_ref", str card_ref)
    ∷ ("context_digest", str context_digest)
    ∷ ("expires_at", str expires_at)
    ∷ ("goal_ref", str goal_ref)
    ∷ ("options", array_of options)
    ∷ [])

module _ (rt : Runtime) where
  unfoldable pub context_digest_of : Value → Option String
  context_digest_of context = settled (domain_digest rt "loopskill-human-context-v1\n" context)

  unfoldable pub build_decision_card :
      String → String → Option String → List String → Value → String → Option DecisionCard
  unfolding card_body
  build_decision_card card_ref goal_ref artifact_ref options current_context expires_at =
      unless (invalid_card card_ref goal_ref options) (
        rt.fromisoformat expires_at >>= λ expiry.
        context_digest_of current_context >>= λ context_digest.
        settled (
          domain_digest rt "loopskill-decision-card-v1\n"
            (card_body card_ref goal_ref artifact_ref options context_digest expires_at))
        >>= λ card_digest. some (record {
          card_ref = card_ref;
          goal_ref = goal_ref;
          artifact_ref = artifact_ref;
          options = options;
          context_digest = context_digest;
          expires_at = expires_at;
          card_digest = card_digest;
        }))

  -- the response is of another card, context or option
  unfoldable pub mismatched : DecisionCard → DecisionResponse → String → Bool
  mismatched card response current_digest =
      not (response.card_ref == card.card_ref)
      || not (response.card_digest == card.card_digest)
      || not (response.context_digest == card.context_digest)
      || not (current_digest == card.context_digest)
      || not (elem response.selected_option card.options)

  unfoldable pub apply_decision_response :
      DecisionCard → DecisionResponse → Value → String → Option String
  apply_decision_response card response current_context now =
      context_digest_of current_context >>= λ current_digest.
      unless (mismatched card response current_digest) (
        rt.fromisoformat response.responded_at >>= λ responded_at.
        rt.fromisoformat now >>= λ now_at. settled (is_before now_at responded_at) >>= λ future.
        unless future (
          rt.fromisoformat card.expires_at >>= λ expires_at.
          settled (is_before expires_at now_at) >>= λ expired.
          unless expired (some response.selected_option)))
