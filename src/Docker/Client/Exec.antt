-- ===== src/Docker/Client/Exec.antt =====
-- What Exec of internal/docker/client.go asks the daemon for.
use routestack_agent.Base.{
  Text, true, false, List, [], ◌∷◌, ◌++◌, Option, none, some, ◌≡◌, ◌⊎◌, inl, inr, arith, codes, leb,
  Bool-cases, refl,
}
use routestack_agent.Json.{Json, obj, arr, bool, field, end, unmarshal}
use routestack_agent.World.{
  World, History, Result, Result-cases, HttpRequest, HttpResponse, http, ok, send,
}
use routestack_agent.Docker.Types.{ExecResult}
use routestack_agent.Docker.Client.{
  api, texts, checked, decode, accept, id_setter, exit_code, read_all, exec,
}

abbrev pub creation : Text → List Text → HttpRequest
creation id cmd = api (codes "POST") (codes "containers/" ++ id ++ codes "/exec") (
    some (
      obj (
        field (codes "AttachStdout") (bool true)
          (field (codes "AttachStderr") (bool true) (field (codes "Cmd") (arr (texts cmd)) end)))))

abbrev pub starting : Text → HttpRequest
starting exec_id =
    api (codes "POST") (codes "exec/" ++ exec_id ++ codes "/start")
      (some (obj (field (codes "Detach") (bool false) (field (codes "Tty") (bool false) end))))

abbrev pub reading : Text → HttpRequest
reading exec_id = api (codes "GET") (codes "exec/" ++ exec_id ++ codes "/json") none

-- The daemon accepted the creation of this command in this container, under an ID, and answered the
-- start of this ID and the question for its exit code, whatever the statuses of these two answers;
-- these are all the calls.
pub record IsAsked (W : World) (id : Text) (cmd : List Text) (h : History) (result : ExecResult)
    (h' : History) : Type 0 where
  pub created : HttpResponse
  pub creates : W.respond h (creation id cmd) ≡ ok created
  pub accepted : leb 400 created.status ≡ false
  pub described : Json
  pub parsed : W.parse_first created.body ≡ ok described
  pub exec_id : Text
  pub decoded : accept W (unmarshal id_setter [] described) ≡ ok exec_id
  pub started : HttpResponse
  pub starts : W.respond (http (creation id cmd) ∷ h) (starting exec_id) ≡ ok started
  pub read : started.read_error ≡ none
  pub answer : HttpResponse
  pub answers :
      W.respond (http (starting exec_id) ∷ http (creation id cmd) ∷ h) (reading exec_id) ≡ ok answer
  pub code : result.exit_code ≡ exit_code (W.parse_first answer.body)
  pub calls : h' ≡ http (reading exec_id) ∷ http (starting exec_id) ∷ http (creation id cmd) ∷ h

Option-cases : (o : Option Text) → (o ≡ none) ⊎ ((t : Text) × (o ≡ some t))
Option-cases none = inl refl
Option-cases (some t) = inr (t, refl)

module _ (W : World) (id : Text) (cmd : List Text) (h : History) (result : ExecResult) where
  abbrev asked : Result ExecResult × History
  asked = exec W id cmd h

  pub exec-IsAsked : asked.0 ≡ ok result → IsAsked W id cmd h result asked.1
  unfolding exec checked send decode read_all
  exec-IsAsked e = elim (Result-cases (W.respond h (creation id cmd))) [
    | inr (m, p) ↦ absurd (ground arith)
    | inl (created, p) ↦ elim (Bool-cases (leb 400 created.status)) [
      | inl bad ↦ absurd (ground arith)
      | inr good ↦ elim (Result-cases (W.parse_first created.body)) [
        | inr (m, q) ↦ absurd (ground arith)
        | inl (v, q) ↦ elim (Result-cases (accept W (unmarshal id_setter [] v))) [
          | inr (m, r) ↦ absurd (ground arith)
          | inl (exec_id, r) ↦
              elim (Result-cases (W.respond (http (creation id cmd) ∷ h) (starting exec_id))) [
                | inr (m, t) ↦ absurd (ground arith)
                | inl (started, t) ↦ elim (Option-cases started.read_error) [
                  | inr (m, u) ↦ absurd (ground arith)
                  | inl u ↦
                      elim (Result-cases (
                        W.respond (http (starting exec_id) ∷ http (creation id cmd) ∷ h)
                          (reading exec_id))) [
                            | inr (m, a) ↦ absurd (ground arith)
                            | inl (answer, a) ↦ record {
                              created = created;
                              creates = p;
                              accepted = good;
                              described = v;
                              parsed = q;
                              exec_id = exec_id;
                              decoded = r;
                              started = started;
                              starts = t;
                              read = u;
                              answer = answer;
                              answers = a;
                              code = ground arith;
                              calls = ground arith;
                            }
                          ]
                ]
              ]
        ]
      ]
    ]
  ]
