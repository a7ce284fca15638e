-- ===== src/Gateway/Enforcement.antt =====
-- Which traffic the plans of internal/contexts/gateway/application let through.
use kiwi_guard.Common.{
  ℕ, Bool, not, ◌&&◌, ◌||◌, ◌==◌, eq_string, eq_nat, if◌then◌else◌, is_empty, Bool-cases, inl, inr,
  leb, leb→le, true, false, ◌<◌, ◌≡◌, ◌≢◌, ◌↔◌, ◌⊎◌, refl, arith, eq_iff, [], ◌∷◌, List, String,
}
use kiwi_guard.Policy.Types.{Decision, action_block, action_redact}
use kiwi_guard.Gateway.Streaming
use kiwi_guard.Gateway.Streaming.{plan_stream_policy}
use kiwi_guard.Gateway.Plans.InputRequest
use kiwi_guard.Gateway.Plans.OutputResponse

-- Traffic that a decision lets through as it is.
abbrev pub IsClear : Decision → Type 0
IsClear d = (d.action ≢ action_block) × (d.action ≢ action_redact)

-- A redaction that took place, or had nothing to redact in.
pub record IsRedacted (failed : Bool) (redactions : ℕ) (text : List ℕ) : Type 0 where
  pub succeeded : failed ≡ false
  pub effective : (redactions ≢ 0) ⊎ (text ≡ [])

-- The three kinds of decisions, with the tests that tell them apart.
data DecisionKind (d : Decision) : Type 0 where
  blocks : (d.action == action_block) ≡ true → d.action ≡ action_block → DecisionKind d
  redacts :
      (d.action == action_block) ≡ false
      → (d.action == action_redact) ≡ true
      → d.action ≡ action_redact
      → DecisionKind d
  clears :
      (d.action == action_block) ≡ false
      → (d.action == action_redact) ≡ false
      → IsClear d
      → DecisionKind d

kind_of : (d : Decision) → DecisionKind d
kind_of d = elim (Bool-cases (d.action == action_block)) [
  | inl b ↦ blocks b ((eq_iff d.action action_block).0 b)
  | inr b ↦ elim (Bool-cases (d.action == action_redact)) [
    | inl r ↦ redacts b r ((eq_iff d.action action_redact).0 r)
    | inr r ↦ clears b r (
      ground (arith, eq_iff d.action action_block),
      ground (arith, eq_iff d.action action_redact),
    )
  ]
]

not_both : {a : String} → a ≡ action_block → a ≡ action_redact → ⊥
not_both {a} p q = ground (arith, eq_iff action_block action_redact)

abbrev redaction_refused : Bool → ℕ → List ℕ → Bool
redaction_refused failed redactions text = failed || (redactions == 0 && not (is_empty text))

redaction_refused-IsRedacted :
    (failed : Bool) (redactions : ℕ) (text : List ℕ)
    → (redaction_refused failed redactions text ≡ false) ↔ IsRedacted failed redactions text
redaction_refused-IsRedacted failed redactions [] = ground arith
redaction_refused-IsRedacted failed redactions (b ∷ text) = ground arith

-- The plan after a redaction, as one test.
input_plan_redaction-eq :
    (i : InputRequest.RedactionFacts)
    → (InputRequest.plan_redaction i).action ≡ (
        if i.decision.action == action_block
        then InputRequest.block
        else if i.decision.action == action_redact && redaction_refused i.failed i.redactions i.text
        then InputRequest.block
        else InputRequest.send)
unfolding InputRequest.plan_redaction
input_plan_redaction-eq i = elim (kind_of i.decision) [
  | blocks b e ↦ rw b
  | redacts b r e ↦ elim (Bool-cases (redaction_refused i.failed i.redactions i.text)) [
    | inl f ↦ rw (b, r, f)
    | inr f ↦ rw (b, r, f)
  ]
  | clears b r c ↦ rw (b, r)
]

output_plan_redaction-eq :
    (i : OutputResponse.RedactionFacts)
    → (OutputResponse.plan_redaction i).action ≡ (
        if leb 400 i.status_code
        then OutputResponse.block
        else if i.decision.action == action_block
        then OutputResponse.block
        else if i.decision.action == action_redact && redaction_refused i.failed i.redactions i.text
        then OutputResponse.block
        else OutputResponse.send)
unfolding OutputResponse.plan_redaction
output_plan_redaction-eq i = elim (Bool-cases (leb 400 i.status_code)) [
  | inl f ↦ rw f
  | inr f ↦ elim (kind_of i.decision) [
    | blocks b e ↦ rw (f, b)
    | redacts b r e ↦ elim (Bool-cases (redaction_refused i.failed i.redactions i.text)) [
      | inl q ↦ rw (f, b, r, q)
      | inr q ↦ rw (f, b, r, q)
    ]
    | clears b r c ↦ rw (f, b, r)
  ]
]

input_plan_policy-eq :
    (d : Decision)
    → (InputRequest.plan_policy d).action ≡ (
        if d.action == action_block
        then InputRequest.block
        else if d.action == action_redact
        then InputRequest.redact
        else InputRequest.send)
unfolding InputRequest.plan_policy
input_plan_policy-eq d = elim (kind_of d) [
  | blocks b e ↦ rw b
  | redacts b r e ↦ rw (b, r)
  | clears b r c ↦ rw (b, r)
]

-- After an attempt to redact a request, it is sent exactly if its decision neither blocks nor
-- asks for redaction, or it asks for redaction, the attempt did not fail, and it replaced
-- something or the text is empty.
input_plan_redaction-send_iff :
    (i : InputRequest.RedactionFacts)
    → ((InputRequest.plan_redaction i).action ≡ InputRequest.send) ↔ (
        IsClear i.decision
        ⊎ ((i.decision.action ≡ action_redact) × IsRedacted i.failed i.redactions i.text))
input_plan_redaction-send_iff i = rw (input_plan_redaction-eq i) (elim (kind_of i.decision) [
  | blocks b e ↦
      rw b (λ h. cc, λ h. elim h [ inl c ↦ absurd (c.0 e) | inr r ↦ absurd (not_both e r.0) ])
  | redacts b r e ↦
      rw (b, r)
        (
          λ h.
              inr (e, (redaction_refused-IsRedacted i.failed i.redactions i.text).0 (ground arith)),
          λ h. elim h [
            | inl c ↦ absurd (c.1 e)
            | inr m ↦ rw ((redaction_refused-IsRedacted i.failed i.redactions i.text).1 m.1)
          ],
        )
  | clears b r c ↦ rw (b, r) (λ h. inl c, λ h. refl)
])

-- A request is blocked exactly when its decision blocks, redacted exactly when it asks for
-- redaction, and otherwise sent.
input_plan_policy_iff :
    (d : Decision)
    → (((InputRequest.plan_policy d).action ≡ InputRequest.block) ↔ (d.action ≡ action_block))
      × (((InputRequest.plan_policy d).action ≡ InputRequest.redact) ↔ (d.action ≡ action_redact))
      × (((InputRequest.plan_policy d).action ≡ InputRequest.send) ↔ IsClear d)
input_plan_policy_iff d = rw (input_plan_policy-eq d) (elim (kind_of d) [
  | blocks b e ↦
      rw b
        ((λ h. e, λ h. refl), (λ h. cc, λ r. absurd (not_both e r)), (λ h. cc, λ c. absurd (c.0 e)))
  | redacts b r e ↦
      rw (b, r)
        ((λ h. cc, λ k. absurd (not_both k e)), (λ h. e, λ h. refl), (λ h. cc, λ c. absurd (c.1 e)))
  | clears b r c ↦
      rw (b, r)
        ((λ h. cc, λ k. absurd (c.0 k)), (λ h. cc, λ k. absurd (c.1 k)), (λ h. c, λ h. refl))
])

-- After an attempt to redact a response, it is sent exactly if the upstream status is below 400
-- and either its decision neither blocks nor asks for redaction, or it asks for redaction, the
-- attempt did not fail, and it replaced something or the text is empty.
pub output_plan_redaction-send_iff :
    (i : OutputResponse.RedactionFacts)
    → ((OutputResponse.plan_redaction i).action ≡ OutputResponse.send) ↔ (
        (i.status_code < 400)
        × (IsClear i.decision
            ⊎ ((i.decision.action ≡ action_redact) × IsRedacted i.failed i.redactions i.text)))
output_plan_redaction-send_iff i =
    rw (output_plan_redaction-eq i) (elim (Bool-cases (leb 400 i.status_code)) [
      | inl f ↦ rw f (λ h. cc, λ h. absurd (omega (arith, leb→le 400 i.status_code f)))
      | inr f ↦ elim (kind_of i.decision) [
        | blocks b e ↦
            rw (f, b)
              (λ h. cc, λ h. elim h.1 [ inl c ↦ absurd (c.0 e) | inr r ↦ absurd (not_both e r.0) ])
        | redacts b r e ↦
            rw (f, b, r)
              (
                λ h. (
                  ground arith,
                  inr (
                    e,
                    (redaction_refused-IsRedacted i.failed i.redactions i.text).0 (ground arith),
                  ),
                ),
                λ h. elim h.1 [
                  | inl c ↦ absurd (c.1 e)
                  | inr m ↦ rw ((redaction_refused-IsRedacted i.failed i.redactions i.text).1 m.1)
                ],
              )
        | clears b r c ↦ rw (f, b, r) (λ h. (ground arith, inl c), λ h. refl)
      ]
    ])

-- After a delta of a streamed response, the stream goes on exactly if the decision on its
-- window neither blocks nor asks for redaction and the collector has accepted the delta.
plan_stream_policy-continue_iff :
    (d : Decision) (accepted : Bool)
    → ((plan_stream_policy d accepted).action ≡ Streaming.continue)
      ↔ (IsClear d × (accepted ≡ true))
unfolding plan_stream_policy
plan_stream_policy-continue_iff d accepted = elim (kind_of d) [
  | blocks b e ↦ rw b (λ h. cc, λ h. absurd (h.0.0 e))
  | redacts b r e ↦ rw (b, r) (λ h. cc, λ h. absurd (h.0.1 e))
  | clears b r c ↦ elim (Bool-cases accepted) [
    | inl a ↦ rw (b, r, a) ((λ h. (c, refl)), λ h. refl)
    | inr a ↦ rw (b, r, a) ((λ h. cc), λ h. cc)
  ]
]
