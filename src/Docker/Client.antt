-- ===== src/Docker/Client.antt =====
-- The container and image operations of internal/docker/client.go. Each is one request or a few over
-- the Docker socket. The socket, its time-outs and connection pool are the World.
pub mod Calls
pub mod Exec
use routestack_agent.Base.{
  ℤ, pos, Text, Bool, true, false, List, [], ◌∷◌, ◌++◌, Option, none, some, codes, leb, ltb, ◌==◌,
  scan_lines, decimal, show_int, is_positive, is_empty, trim_space, if◌then◌else◌,
}
use routestack_agent.Json.{
  Json, Items, Fields, bool, str, arr, obj, nil, cons, end, field, Read, Setter, unmarshal,
  set_text, set_int, names_match,
}
use routestack_agent.World.{
  World, HttpRequest, HttpResponse, Result, ok, err, M, ◌>>=◌, ◌>>◌, pure, fail, lift, wrap, send,
}
use routestack_agent.Docker.Types.{
  ContainerState, ImageInfo, ExecResult, no_state, state_setter, no_image, image_setter,
}

-- A request under the API version that NewClient sets.
abbrev pub api : Text → Text → Option Json → HttpRequest
api method rest body = record { method = method; path = codes "/v1.45/" ++ rest; body = body }

abbrev pub container : Text → Text → Text
container id rest = codes "containers/" ++ id ++ rest

-- A decoded value, or the error that Decode returns.
unfoldable pub accept : {A : Type 0} → World → Read A → Result A
accept W r = if r.well_typed then ok r.value else err W.type_error

-- The struct { Error string } of a line of the pull stream.
error_setter : Setter Text
error_setter key v r = if names_match key (codes "error") then set_text v (λ s. s) r else r

unfoldable pub id_setter : Setter Text
id_setter key v r = if names_match key (codes "Id") then set_text v (λ s. s) r else r

exit_setter : Setter ℤ
exit_setter key v r = if names_match key (codes "ExitCode") then set_int v (λ n. n) r else r

-- A []string in a request body.
abbrev pub texts : List Text → Items
texts [] = nil
texts (t ∷ ts) = cons (str t) (texts ts)

-- The exit code that a response spells; an error of Decode is ignored.
unfoldable pub exit_code : Result Json → ℤ
unfolding exit_setter unmarshal
exit_code (err e) = pos 0
exit_code (ok v) = (unmarshal exit_setter (pos 0) v).value

abbrev pub stop_query : ℤ → Text
stop_query timeout = if is_positive timeout then codes "?t=" ++ show_int timeout else []

abbrev pub start_request : Text → HttpRequest
start_request id = api (codes "POST") (container id (codes "/start")) none

abbrev pub stop_request : Text → ℤ → HttpRequest
stop_request id timeout =
    api (codes "POST") (container id (codes "/stop" ++ stop_query timeout)) none

abbrev pub remove_request : Text → Bool → HttpRequest
remove_request id force =
    api (codes "DELETE") (container id (if force then codes "?force=true" else [])) none

abbrev pub inspect_request : Text → HttpRequest
inspect_request id = api (codes "GET") (container id (codes "/json")) none

module _ (W : World) where
  -- The text of a body in an error message; a failure to read the rest of it is ignored.
  abbrev http_error : Text → HttpResponse → Text
  http_error context resp =
      context ++ codes ": http " ++ decimal resp.status ++ codes ": " ++ trim_space resp.body

  -- A request that fails on a transport error and on a status from 400 on.
  unfoldable pub checked : Text → HttpRequest → M HttpResponse
  checked context q = do
    resp ← wrap (context ++ codes ": ") (send W q)
    if leb 400 resp.status then fail (http_error context resp) else pure resp

  -- json.NewDecoder(resp.Body).Decode into a struct.
  unfoldable pub decode : {A : Type 0} → Text → Setter A → A → HttpResponse → M A
  decode context set zero resp =
      wrap (context ++ codes ": decode: ")
        do v ← lift (W.parse_first resp.body); lift (accept W (unmarshal set zero v))

  -- io.ReadAll(resp.Body)
  unfoldable pub read_all : Text → HttpResponse → M Text
  read_all context resp = elim resp.read_error [
    | none ↦ pure resp.body
    | some e ↦ fail (context ++ codes ": " ++ e)
  ]

  unfoldable pub first_error : List Text → Text
  unfolding error_setter unmarshal
  first_error [] = []
  first_error (line ∷ rest) =
      let later = first_error rest in
      elim (W.parse line) [
        | err e ↦ later
        | ok v ↦
            let r = unmarshal error_setter [] v in
            if r.well_typed then (if is_empty r.value then later else r.value) else later
      ]

  -- Pull
  unfoldable pub pull : Text → M (Unit {0})
  pull image = do
    let context = codes "docker pull " ++ image
    resp ← checked context (api (codes "POST") (codes "images/create?fromImage=" ++ image) none)
    let e = first_error (scan_lines resp.body)
    if is_empty e then pure tt else fail (context ++ codes ": " ++ e)

  -- InspectImage
  unfoldable pub inspect_image : Text → M ImageInfo
  inspect_image image = do
    let context = codes "docker inspect image " ++ image
    resp ← checked context (api (codes "GET") (codes "images/" ++ image ++ codes "/json") none)
    decode context image_setter no_image resp

  -- Start
  unfoldable pub start : Text → M (Unit {0})
  start id = do checked (codes "docker start " ++ id) (start_request id); pure tt

  -- Stop
  unfoldable pub stop : Text → ℤ → M (Unit {0})
  stop id timeout = do checked (codes "docker stop " ++ id) (stop_request id timeout); pure tt

  -- Remove
  unfoldable pub remove : Text → Bool → M (Unit {0})
  remove id force = do checked (codes "docker remove " ++ id) (remove_request id force); pure tt

  -- Inspect
  unfoldable pub inspect : Text → M ContainerState
  inspect id = do
    let context = codes "docker inspect " ++ id
    resp ← checked context (inspect_request id)
    decode context state_setter no_state resp

  -- Adopt
  unfoldable pub adopt : Text → M (Unit {0})
  adopt id = do
    let labels = field (codes "managed-by") (str (codes "routestack")) end
    let body = obj (field (codes "Labels") (obj labels) end)
    checked (codes "docker adopt " ++ id)
        (api (codes "POST") (container id (codes "/update")) (some body))
    pure tt

  -- Logs
  unfoldable pub logs : Text → ℤ → M Text
  logs id tail = do
    let context = codes "docker logs " ++ id
    resp ← checked context (
        api (codes "GET")
          (container id (codes "/logs?stdout=true&stderr=true&tail=" ++ show_int tail)) none)
    read_all (context ++ codes ": read") resp

  -- Exec. The statuses of the second and the third response are not looked at, and an exit code that
  -- cannot be decoded is 0.
  unfoldable pub exec : Text → List Text → M ExecResult
  exec id cmd = do
    let flag = λ (key : Text) (b : Bool) (rest : Fields). field key (bool b) rest
    let body = obj (
        flag (codes "AttachStdout") true
          (flag (codes "AttachStderr") true (field (codes "Cmd") (arr (texts cmd)) end)))
    let creating = codes "docker exec create " ++ id
    resp ← checked creating (api (codes "POST") (container id (codes "/exec")) (some body))
    exec_id ← decode creating id_setter [] resp
    let started = obj (flag (codes "Detach") false (flag (codes "Tty") false end))
    start_resp ←
        wrap (codes "docker exec start " ++ id ++ codes ": ")
          (send W (api (codes "POST") (codes "exec/" ++ exec_id ++ codes "/start") (some started)))
    output ← read_all (codes "docker exec read " ++ id) start_resp
    inspect_resp ←
        wrap (codes "docker exec inspect " ++ id ++ codes ": ")
          (send W (api (codes "GET") (codes "exec/" ++ exec_id ++ codes "/json") none))
    pure (record {
      exit_code = exit_code (W.parse_first inspect_resp.body);
      stdout = output;
      stderr = [];
    })
