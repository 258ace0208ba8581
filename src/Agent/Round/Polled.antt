-- ===== src/Agent/Round/Polled.antt =====
-- The loop with its calls of the control plane serves the claims that the control plane answers.
use routestack_agent.Base.{
  ℕ, zero, suc, Text, Bool, true, false, List, [], ◌∷◌, Option, none, some, ◌≡◌, refl, ◌∙◌,
  Bool-cases, inl, inr,
}
use routestack_agent.World.{World, Result, ok, err}
use routestack_agent.Executor.{Operation, execute}
use routestack_agent.Agent.Poll.{CompleteRequest, Claim, report, poll, continue}
use routestack_agent.Api.Retry.{Server, Events, wait}
use routestack_agent.Api.Calls.{ClaimResponse, claim_operation, complete_operation}
use routestack_agent.Agent.Round.{
  Loop, Iteration, again, returned, panic, go_on, complete, answered, round, rounds,
}

-- The state at the end.
abbrev pub last : Iteration → Loop
last (again s) = s
last (returned s) = s
last (panic s) = s

abbrev pub claim_of : Result ClaimResponse → Claim
claim_of (err e) = err e
claim_of (ok resp) = ok resp.operation

-- What the loop does towards the control plane: a call of ClaimOperation, the back-off of five
-- seconds, and a call of CompleteOperation.
pub data Act : Type 0 where
  claim : Act
  back_off : Act
  tell : CompleteRequest → Act

-- The reports that are sent.
abbrev pub told : List Act → List CompleteRequest
told [] = []
told (claim ∷ acts) = told acts
told (back_off ∷ acts) = told acts
told (tell c ∷ acts) = c ∷ told acts

-- A report comes directly after a claim; `b` is whether it may come at once.
abbrev pub InTurn : Bool → List Act → Type 0
InTurn b [] = Unit
InTurn b (claim ∷ acts) = InTurn true acts
InTurn b (back_off ∷ acts) = InTurn false acts
InTurn true (tell c ∷ acts) = InTurn false acts
InTurn false (tell c ∷ acts) = ⊥

InTurn-true : (acts : List Act) → InTurn false acts → InTurn true acts
InTurn-true [] h = tt
InTurn-true (claim ∷ acts) h = h
InTurn-true (back_off ∷ acts) h = h
InTurn-true (tell c ∷ acts) h = absurd h

module _ (W : World) (plane : Text → Text → Server) (base_url : Text) (node_id : Text) where
  -- What the acts wait for and send.
  abbrev pub act_all : List Act → Events → Events
  act_all [] h = h
  act_all (claim ∷ acts) h = act_all acts (claim_operation W plane base_url node_id h).1
  act_all (back_off ∷ acts) h = act_all acts (wait 5000000000 ∷ h)
  act_all (tell c ∷ acts) h = act_all acts (complete_operation W plane base_url c h).1

  -- The answers to the claims among them.
  abbrev pub answers : List Act → Events → List Claim
  answers [] h = []
  answers (claim ∷ acts) h =
      let (resp, sent) = claim_operation W plane base_url node_id h in
      claim_of resp ∷ answers acts sent
  answers (back_off ∷ acts) h = answers acts (wait 5000000000 ∷ h)
  answers (tell c ∷ acts) h = answers acts (complete_operation W plane base_url c h).1

module _ (W : World) (redact : Text → Text) (plane : Text → Text → Server) (base_url : Text)
    (node_id : Text) (done : Events → ℕ → Bool) where
  -- From `s`, acts that were really done lead to `t`: the reports among them, the executor and the
  -- calls on the host are those of `poll` on the answers.
  pub record IsPolled (s t : Loop) : Type 0 where
    pub acts : List Act
    pub in_turn : InTurn false acts
    pub events : t.events ≡ act_all W plane base_url node_id acts s.events
    pub polled :
        poll W redact (answers W plane base_url node_id acts s.events) s.executor s.host
        ≡ (told acts, t.executor, t.host)

  -- The same after a claim whose answer is already there.
  record IsServed (first : Claim) (s t : Loop) : Type 0 where
    acts : List Act
    in_turn : InTurn true acts
    events : t.events ≡ act_all W plane base_url node_id acts s.events
    polled :
        poll W redact (first ∷ answers W plane base_url node_id acts s.events) s.executor s.host
        ≡ (told acts, t.executor, t.host)

  -- What is to show of the iterations that follow.
  abbrev Next : (Loop → Iteration) → Type 0
  Next next = (t : Loop) → IsPolled t (last (next t))

  -- After an answer without work, or after its back-off.
  idle-IsServed :
      (first : Claim) (s t : Loop)
      → ((claims : List Claim)
          → poll W redact (first ∷ claims) s.executor s.host
            ≡ poll W redact claims s.executor s.host)
      → IsPolled s t
      → IsServed first s t
  idle-IsServed first s t same rest = record {
    acts = rest.acts;
    in_turn = InTurn-true rest.acts rest.in_turn;
    events = rest.events;
    polled = same _ ∙ rest.polled;
  }

  complete-IsServed :
      (next : Loop → Iteration) (op : Operation) (o : Option CompleteRequest) (s : Loop)
      → Next next
      → report W redact op (execute W redact s.executor op s.host).0 ≡ o
      → let (_, x, h) = execute W redact s.executor op s.host in
        IsServed (ok (some op)) s (
          last (
            go_on next (
              complete W redact plane base_url node_id done o
                (record s { executor = x; host = h }))))
  unfolding complete continue poll
  complete-IsServed next op none s more e = record {
    acts = [];
    in_turn = tt;
    events = refl;
    polled = rw (poll, e) refl;
  }
  complete-IsServed next op (some c) s more e =
      let (_, x, h) = execute W redact s.executor op s.host in
      let rest = more (record s {
        executor = x;
        host = h;
        events = (complete_operation W plane base_url c s.events).1;
      }) in
      record {
        acts = tell c ∷ rest.acts;
        in_turn = rest.in_turn;
        events = rest.events;
        polled = rw (poll, e, rest.polled) refl;
      }

  found-IsServed :
      (next : Loop → Iteration) (found : Option Operation) (s : Loop)
      → Next next
      → IsServed (ok found) s (
          last (
            go_on next (
              answered W redact plane base_url node_id done (ok (record { operation = found })) s)))
  unfolding answered poll
  found-IsServed next none s more = idle-IsServed (ok none) s _ (λ claims. refl) (more s)
  found-IsServed next (some op) s more = complete-IsServed next op _ s more refl

  answered-IsServed :
      (next : Loop → Iteration) (resp : Result ClaimResponse) (s : Loop)
      → Next next
      → IsServed
          (claim_of resp)
          s
          (last (go_on next (answered W redact plane base_url node_id done resp s)))
  unfolding answered poll
  answered-IsServed next (err e) s more = elim (Bool-cases (done s.events 5000000000)) [
    | inl late ↦
        rw (answered, late) (record { acts = []; in_turn = tt; events = refl; polled = refl })
    | inr in_time ↦
        let rest = more (record s { events = wait 5000000000 ∷ s.events }) in
        rw (answered, in_time)
          (record {
            acts = back_off ∷ rest.acts;
            in_turn = rest.in_turn;
            events = rest.events;
            polled = rest.polled;
          })
  ]
  answered-IsServed next (ok resp) s more = found-IsServed next resp.operation s more

  pub rounds-IsPolled :
      (n : ℕ) (s : Loop) → IsPolled s (last (rounds W redact plane base_url node_id done n s))
  unfolding rounds round poll
  rounds-IsPolled zero s = record { acts = []; in_turn = tt; events = refl; polled = refl }
  rounds-IsPolled (suc n) s = elim (Bool-cases (done s.events 0)) [
    | inl e ↦ rw (rounds, e) (record { acts = []; in_turn = tt; events = refl; polled = refl })
    | inr e ↦
        let asked = claim_operation W plane base_url node_id s.events in
        let rest =
          answered-IsServed (rounds W redact plane base_url node_id done n) asked.0
            (record s { events = asked.1 }) (rounds-IsPolled n) in
        rw (rounds, e)
          (record {
            acts = claim ∷ rest.acts;
            in_turn = rest.in_turn;
            events = rest.events;
            polled = rest.polled;
          })
  ]
