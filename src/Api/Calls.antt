-- ===== src/Api/Calls.antt =====
-- The calls of internal/api/client.go to the control plane: their paths, their bodies, and what they
-- read of an answer. The control plane may answer each URL and body by what was asked of it before.
pub mod Answers
use routestack_agent.Base.{
  Text, Bool, List, [], ◌∷◌, ◌++◌, Option, none, some, codes, is_empty, if◌then◌else◌,
}
use routestack_agent.Json.{
  Json, Fields, str, obj, end, field, Setter, Read, names_match, unmarshal, set_text, set_bool,
  set_pointer,
}
use routestack_agent.World.{World, Result, ok, err}
use routestack_agent.Executor.{Operation}
use routestack_agent.Agent.Poll.{CompleteRequest}
use routestack_agent.Api.Retry.{Server, Events, do_with_retry, default_retry_config}

pub record EnrollRequest : Type 0 where
  pub enrollment_token : Text
  pub csr : Text
  pub node_id : Text

pub record EnrollResponse : Type 0 where
  pub node_id : Text
  pub certificate : Text
  pub ca_cert : Text

pub record HeartbeatResponse : Type 0 where
  pub accepted : Bool

pub record ClaimResponse : Type 0 where
  pub operation : Option Operation

-- A field of type string with omitempty.
unfoldable pub unless_empty : Text → Text → Fields → Fields
unless_empty name s rest = if is_empty s then rest else field name (str s) rest

unfoldable pub enroll_json : EnrollRequest → Json
unfolding unless_empty
enroll_json q = obj (
    field (codes "enrollment_token") (str q.enrollment_token)
      (field (codes "csr") (str q.csr) (unless_empty (codes "node_id") q.node_id end)))

unfoldable pub claim_json : Text → Json
claim_json node_id = obj (field (codes "node_id") (str node_id) end)

unfoldable pub complete_json : CompleteRequest → Json
unfolding unless_empty
complete_json q = obj (
    field (codes "id") (str q.id)
      (field (codes "status") (str q.status) (unless_empty (codes "result") q.result end)))

unfoldable pub enrolled_setter : Setter EnrollResponse
unfolding names_match
enrolled_setter key v r =
    let old = r.value in
    if names_match key (codes "node_id")
    then set_text v (λ s. record old { node_id = s }) r
    else if names_match key (codes "certificate")
    then set_text v (λ s. record old { certificate = s }) r
    else if names_match key (codes "ca_cert")
    then set_text v (λ s. record old { ca_cert = s }) r
    else r

unfoldable pub accepted_setter : Setter HeartbeatResponse
unfolding names_match
accepted_setter key v r =
    let old = r.value in
    if names_match key (codes "accepted")
    then set_bool v (λ b. record old { accepted = b }) r
    else r

-- The field "data" is a json.RawMessage: it takes any value as it is, null too.
unfoldable pub operation_setter : Setter Operation
unfolding names_match
operation_setter key v r =
    let old = r.value in
    if names_match key (codes "id")
    then set_text v (λ s. record old { id = s }) r
    else if names_match key (codes "type")
    then set_text v (λ s. record old { type = s }) r
    else if names_match key (codes "data")
    then record r { value = record old { payload = some v } }
    else r

abbrev no_operation : Operation
no_operation = record { id = []; type = []; payload = none }

unfoldable pub claimed_setter : Setter ClaimResponse
unfolding names_match operation_setter
claimed_setter key v r =
    if names_match key (codes "operation")
    then set_pointer operation_setter no_operation v (λ o. record { operation = o }) r
    else r

module _ (W : World) where
  -- json.Unmarshal of an answer.
  unfoldable pub read_answer : {A : Type 0} → Setter A → A → Text → Result A
  unfolding unmarshal
  read_answer set zero text = elim (W.parse text) [
    | err e ↦ err e
    | ok v ↦ let r = unmarshal set zero v in if r.well_typed then ok r.value else err W.type_error
  ]

  module _ (plane : Text → Text → Server) (base_url : Text) where
    -- A call with its body, which json.Marshal always prints.
    unfoldable pub post :
        {A : Type 0} → Text → (Text → Result A) → Json → Events → Result A × Events
    post path decode body =
        do_with_retry (codes "POST") path decode (plane (base_url ++ path) (W.print body))
          (base_url ++ path) default_retry_config (ok (W.print body))

    -- Enroll
    unfoldable pub enroll : EnrollRequest → Events → Result EnrollResponse × Events
    unfolding post enroll_json enrolled_setter
    enroll q =
        post (codes "/internal/agent/v1/enroll")
          (read_answer enrolled_setter (record { node_id = []; certificate = []; ca_cert = [] }))
          (enroll_json q)

    -- Heartbeat, given the request as it is printed.
    unfoldable pub heartbeat : Json → Events → Result HeartbeatResponse × Events
    unfolding post accepted_setter
    heartbeat =
        post (codes "/internal/agent/v1/heartbeat")
          (read_answer accepted_setter (record { accepted = Bool.false }))

    -- ClaimOperation
    unfoldable pub claim_operation : Text → Events → Result ClaimResponse × Events
    unfolding post claim_json claimed_setter
    claim_operation node_id =
        post (codes "/internal/agent/v1/operations/claim")
          (read_answer claimed_setter (record { operation = none })) (claim_json node_id)

    -- CompleteOperation, which reads nothing of the answer.
    unfoldable pub complete_operation : CompleteRequest → Events → Result (Unit {0}) × Events
    unfolding post complete_json
    complete_operation q =
        post (codes "/internal/agent/v1/operations/" ++ q.id ++ codes "/complete") (λ text. ok tt)
          (complete_json q)
