-- ===== src/Api/Calls/Answers.antt =====
-- What a call brings back from the control plane (internal/api/client.go).
use routestack_agent.Base.{ℕ, suc, Text, ◌∷◌, ◌++◌, none, some, codes, ◌≡◌, refl}
use routestack_agent.Json.{
  Json, str, obj, end, field, unmarshal, names_match, set_text, set_struct, set_pointer,
}
use routestack_agent.World.{World, Result, ok}
use routestack_agent.Executor.{Operation}
use routestack_agent.Api.Retry.{
  Server, Events, replied, request, do_with_retry, RetryConfig, default_retry_config, loop, pause,
  goes_on, finish, is_retryable_status,
}
use routestack_agent.Api.Calls.{
  claim_json, operation_setter, claimed_setter, read_answer, post, claim_operation,
}

-- What the control plane says when there is work.
abbrev pub work_json : Operation → Json → Json
work_json op v = obj (
    field (codes "operation")
      (obj (
        field (codes "id") (str op.id)
          (field (codes "type") (str op.type) (field (codes "data") v end))))
      end)

-- A first answer with status 200 and a text that can be read ends a call.
first_answer :
    {A : Type 0} (method path : Text) (decode : Text → Result A) (S : Server) (url : Text)
    (cfg : RetryConfig) (left : ℕ) (h : Events) (body : Text) (a : A)
    → S.new_request method url ≡ ok tt
    → S.reply h ≡ replied 200 body none
    → decode body ≡ ok a
    → loop method path decode S url cfg (suc left) 0 h ≡ (ok a, request ∷ h)
unfolding loop pause goes_on finish is_retryable_status
first_answer method path decode S url cfg left h body a built answered reads =
    rw (loop, built, answered, reads) refl

module _ (W : World) (plane : Text → Text → Server) (base_url : Text) where
  -- What answers a claim of the node.
  abbrev pub claim_server : Text → Server
  claim_server node_id =
      plane (base_url ++ codes "/internal/agent/v1/operations/claim") (W.print (claim_json node_id))

  read-work_json :
      (body : Text) (op : Operation) (v : Json)
      → op.payload ≡ some v
      → W.parse body ≡ ok (work_json op v)
      → read_answer W claimed_setter (record { operation = none }) body
        ≡ ok (record { operation = some op })
  unfolding read_answer unmarshal claimed_setter operation_setter names_match set_text set_struct
      set_pointer
  read-work_json body op v has parses = rw (read_answer, parses, ← has) refl

  -- If the request of a claim can be built and the control plane answers it with status 200 and a
  -- text that encoding/json reads as an operation with its data: the claim gives exactly this
  -- operation, after one request with the ID of the node.
  pub claim_operation-work_json :
      (node_id body : Text) (op : Operation) (v : Json) (h : Events)
      → op.payload ≡ some v
      → (claim_server node_id).new_request
          (codes "POST")
          (base_url ++ codes "/internal/agent/v1/operations/claim")
        ≡ ok tt
      → (claim_server node_id).reply h ≡ replied 200 body none
      → W.parse body ≡ ok (work_json op v)
      → claim_operation W plane base_url node_id h
        ≡ (ok (record { operation = some op }), request ∷ h)
  unfolding claim_operation post do_with_retry
  claim_operation-work_json node_id body op v h has built answered parses =
      first_answer _ _ _ _ _ default_retry_config 5 h body (record { operation = some op }) built
        answered (read-work_json body op v has parses)
