-- ===== src/Examples/Node.antt =====
-- A host for the examples.
use routestack_agent.Base.{Text, true, [], ◌++◌, none, codes, ascii_only}
use routestack_agent.Json.{Json, bool, str, arr, obj, nil, cons, end, field}
use routestack_agent.World.{World, History, ok}

abbrev pub digest : Text
digest = codes "sha256:0123456789abcdef0123456789abcdef0123456789abcdef0123456789abcdef"

-- Every answer of the daemon: a container that runs and an image with the digest.
abbrev pub answer : Json
answer = obj (
    field (codes "Id") (str (codes "c1")) (
      field (codes "State") (obj (field (codes "Running") (bool true) end))
        (field (codes "RepoDigests") (arr (cons (str (codes "relay@" ++ digest)) nil)) end)))

abbrev pub host : World
host = record {
  respond = λ h q. ok (record { status = 200; body = codes "{}"; read_error = none });
  execute = λ h name args. record { output = []; failure = none };
  accepts = λ h address timeout. true;
  parse = λ s. ok answer;
  parse_first = λ s. ok answer;
  print = λ v. [];
  type_error = codes "type error";
  now = λ h. 100;
  unicode = ascii_only;
}

abbrev pub keep_text : Text → Text
keep_text s = s

abbrev pub nothing : History
nothing = []
