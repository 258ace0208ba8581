-- ===== src/Handlers/Containers/Found.antt =====
-- Which container START_SERVICE starts (NewDockerStartHandler of internal/executor/handlers.go).
use routestack_agent.Base.{
  Text, leb, none, false, [], ◌∷◌, ◌≡◌, ◌≢◌, inl, inr, ap, ◌∙◌, ◌++◌, arith, codes, is_empty,
  Option, if◌then◌else◌, Bool-cases,
}
use routestack_agent.World.{
  World, HttpRequest, HttpResponse, http, send, M, History, Result-cases, ok, ◌>>=◌, pure, attempt,
  wrap,
}
use routestack_agent.Executor.{Operation, OperationResult}
use routestack_agent.Docker.Client.{api, checked, start, adopt}
use routestack_agent.Docker.Client.Calls.{start-calls}
use routestack_agent.Docker.Find.{find_container}
use routestack_agent.Docker.Find.Match.{Origin, find_container-Origin}
use routestack_agent.Handlers.Containers.{
  plain, settle, extract_container_name, find_and_adopt, with_container, start_handler,
}

-- What a computation that ends without an error has done.
record IsBound {A B : Type 0} (m : M A) (f : A → M B) (h : History) (b : B) : Type 0 where
  value : A
  first : (m h).0 ≡ ok value
  second : (f value (m h).1).0 ≡ ok b
  calls : ((m >>= f) h).1 ≡ (f value (m h).1).1

bind-IsBound :
    {A B : Type 0} (m : M A) (f : A → M B) (h : History) (b : B)
    → ((m >>= f) h).0 ≡ ok b
    → IsBound m f h b
bind-IsBound m f h b e = elim (Result-cases (m h).0) [
  | inl (a, p) ↦ ground arith
  | inr (x, p) ↦ absurd (ground arith)
]

wrap-ok :
    {A : Type 0} (prefix : Text) (m : M A) (h : History) (a : A)
    → (wrap prefix m h).0 ≡ ok a
    → (m h).0 ≡ ok a
wrap-ok prefix m h a e = elim (Result-cases (m h).0) [
  | inl (b, p) ↦ ground arith
  | inr (x, p) ↦ absurd (ground arith)
]

not_empty : (s : Text) → is_empty s ≡ false → s ≢ []
not_empty [] h = absurd (ground arith)
not_empty (c ∷ s) h = cc

abbrev pub starting : Text → HttpRequest
starting id = api (codes "POST") (codes "containers/" ++ id ++ codes "/start") none

-- What a start without an error was answered.
start-answer :
    (W : World) (id : Text) (h : History)
    → (start W id h).0 ≡ ok tt
    → (answer : HttpResponse) × (W.respond h (starting id) ≡ ok answer)
      × (leb 400 answer.status ≡ false)
unfolding start checked send
start-answer W id h e = elim (Result-cases (W.respond h (starting id))) [
  | inr (m, p) ↦ absurd (ground arith)
  | inl (answer, p) ↦ elim (Bool-cases (leb 400 answer.status)) [
    | inl bad ↦ absurd (ground arith)
    | inr good ↦ (answer, p, good)
  ]
]

module _ (W : World) where
  -- The container was found under the name of the payload, or under a known one, and the daemon
  -- accepted its start, the last call.
  pub record IsStarted (op : Operation) (h h' : History) : Type 0 where
    pub name : Text
    pub named : (extract_container_name W op.payload h).0 ≡ ok name
    pub id : Text
    pub nonempty : id ≢ []
    pub origin :
        Origin W name id (find_container W name (extract_container_name W op.payload h).1).1
    pub before : History
    pub answer : HttpResponse
    pub answered : W.respond before (starting id) ≡ ok answer
    pub accepted : leb 400 answer.status ≡ false
    pub calls : h' ≡ http (starting id) ∷ before

  -- What find_and_adopt does with the ID that it found.
  abbrev adopted : Text → M Text
  adopted id = if is_empty id then pure id else attempt (adopt W id) >>= λ _. pure id

  adopted-same : (id found : Text) (h : History) → (adopted found h).0 ≡ ok id → found ≡ id
  adopted-same id found h e = elim (Bool-cases (is_empty found)) [
    | inl p ↦ ground arith
    | inr p ↦ ground arith
  ]

  find_and_adopt-found :
      (name id : Text) (h : History)
      → (find_and_adopt W name h).0 ≡ ok id
      → (find_container W name h).0 ≡ ok id
  unfolding find_and_adopt
  find_and_adopt-found name id h e =
      let find = wrap (codes "find container: ") (find_container W name) in
      let step = bind-IsBound find adopted h id e in
      wrap-ok (codes "find container: ") (find_container W name) h step.value step.first
      ∙ ap ok (adopted-same id step.value (find h).1 step.second)

  -- What the handler does with the container that it found.
  abbrev acted : Text → Text → M (Option OperationResult)
  acted name id =
      if is_empty id
      then pure (plain (codes "failed") (codes "container not found"))
      else attempt (start W id) >>= λ r. pure (settle (codes "") (codes "started " ++ name) r)

  acted-started :
      (name id message : Text) (h : History)
      → (acted name id h).0 ≡ ok (plain (codes "success") message)
      → (is_empty id ≡ false)
        × ((start W id h).0 ≡ ok tt)
        × ((acted name id h).1 ≡ (start W id h).1)
  acted-started name id message h e = elim (Bool-cases (is_empty id)) [
    | inl p ↦ absurd (ground arith)
    | inr p ↦ elim (Result-cases (start W id h).0) [
      | inl (_, q) ↦ ground arith
      | inr (m, q) ↦ absurd (ground arith)
    ]
  ]

  -- START_SERVICE ends with "success" only if FindContainer, asked for the name of the payload, found a
  -- container that the daemon had just described or listed under this name or under one of the three
  -- known ones, and the daemon accepted the request to start its ID, the last call made.
  pub start_handler-IsStarted :
      (op : Operation) (message : Text) (h : History)
      → (start_handler W op h).0 ≡ ok (plain (codes "success") message)
      → IsStarted op h (start_handler W op h).1
  unfolding start_handler with_container
  start_handler-IsStarted op message h e =
      let extract = extract_container_name W op.payload in
      let rest : Text → M (Option OperationResult) = λ name. find_and_adopt W name >>= acted name in
      let named = bind-IsBound extract rest h (plain (codes "success") message) e in
      let find = find_and_adopt W named.value in
      let found =
        bind-IsBound find (acted named.value) (extract h).1 (plain (codes "success") message)
          named.second in
      let h' = (find (extract h).1).1 in
      let (nonempty, started, calls) =
        acted-started named.value found.value message h' found.second in
      let (answer, answered, accepted) = start-answer W found.value h' started in
      let origin =
        find_container-Origin W named.value found.value (extract h).1
          (find_and_adopt-found named.value found.value (extract h).1 found.first) in
      record {
        name = named.value;
        named = named.first;
        id = found.value;
        nonempty = not_empty found.value nonempty;
        origin = elim origin [
          | inl empty ↦ absurd (not_empty found.value nonempty empty)
          | inr o ↦ o
        ];
        before = h';
        answer = answer;
        answered = answered;
        accepted = accepted;
        calls = named.calls ∙ (found.calls ∙ (calls ∙ start-calls W found.value h'));
      }
