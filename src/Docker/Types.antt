-- ===== src/Docker/Types.antt =====
-- The types of internal/docker/client.go, and how encoding/json fills them.
use routestack_agent.Base.{ℤ, pos, Text, Bool, false, List, [], Option, none, codes, if◌then◌else◌}
use routestack_agent.Json.{
  Json, Read, Setter, names_match, set_text, set_int, set_bool, set_list, set_struct, set_pointer,
  set_map, text_element, unmarshal,
}

pub record PortMapping : Type 0 where
  pub host_port : Text
  pub container_port : Text
  pub protocol : Text

pub record VolumeMount : Type 0 where
  pub source : Text
  pub target : Text
  pub mode : Text

pub record ContainerSpec : Type 0 where
  pub name : Text
  pub image : Text
  pub ports : List PortMapping
  pub volumes : List VolumeMount
  pub env : List Text
  pub restart : Text
  pub cmd : List Text

pub record ContainerPort : Type 0 where
  pub private_port : ℤ
  pub public_port : ℤ
  pub type : Text

pub record ContainerInfo : Type 0 where
  pub id : Text
  pub names : List Text
  pub image : Text
  pub state : Text
  pub status : Text
  pub ports : List ContainerPort

pub record Health : Type 0 where
  pub status : Text

pub record RunState : Type 0 where
  pub status : Text
  pub running : Bool
  pub exit_code : ℤ
  pub started_at : Text
  pub finished_at : Text
  pub health : Option Health

pub record ContainerConfig : Type 0 where
  pub image : Text
  pub labels : List (Text × Text)

pub record ContainerState : Type 0 where
  pub id : Text
  pub created : Text
  pub state : RunState
  pub name : Text
  pub config : ContainerConfig

pub record ImageInfo : Type 0 where
  pub id : Text
  pub repo_tags : List Text
  pub repo_digests : List Text
  pub size : ℤ
  pub os : Text
  pub architecture : Text

pub record ExecResult : Type 0 where
  pub exit_code : ℤ
  pub stdout : Text
  pub stderr : Text

abbrev no_health : Health
no_health = record { status = [] }

abbrev no_config : ContainerConfig
no_config = record { image = []; labels = [] }

abbrev no_run : RunState
no_run = record {
  status = [];
  running = false;
  exit_code = pos 0;
  started_at = [];
  finished_at = [];
  health = none;
}

abbrev pub no_state : ContainerState
no_state = record { id = []; created = []; state = no_run; name = []; config = no_config }

abbrev no_port : ContainerPort
no_port = record { private_port = pos 0; public_port = pos 0; type = [] }

abbrev pub no_info : ContainerInfo
no_info = record { id = []; names = []; image = []; state = []; status = []; ports = [] }

abbrev pub no_image : ImageInfo
no_image = record {
  id = [];
  repo_tags = [];
  repo_digests = [];
  size = pos 0;
  os = [];
  architecture = [];
}

health_setter : Setter Health
health_setter key v r =
    if names_match key (codes "Status") then set_text v (λ s. record { status = s }) r else r

run_setter : Setter RunState
unfolding health_setter
run_setter key v r =
    let old = r.value in
    if names_match key (codes "Status")
    then set_text v (λ s. record old { status = s }) r
    else if names_match key (codes "Running")
    then set_bool v (λ b. record old { running = b }) r
    else if names_match key (codes "ExitCode")
    then set_int v (λ n. record old { exit_code = n }) r
    else if names_match key (codes "StartedAt")
    then set_text v (λ s. record old { started_at = s }) r
    else if names_match key (codes "FinishedAt")
    then set_text v (λ s. record old { finished_at = s }) r
    else if names_match key (codes "Health")
    then set_pointer health_setter no_health v (λ s. record old { health = s }) r
    else r

config_setter : Setter ContainerConfig
config_setter key v r =
    let old = r.value in
    if names_match key (codes "Image")
    then set_text v (λ s. record old { image = s }) r
    else if names_match key (codes "Labels")
    then set_map old.labels v (λ m. record old { labels = m }) r
    else r

unfoldable pub state_setter : Setter ContainerState
unfolding run_setter config_setter names_match set_text set_bool set_int set_pointer set_map
state_setter key v r =
    let old = r.value in
    if names_match key (codes "Id")
    then set_text v (λ s. record old { id = s }) r
    else if names_match key (codes "Created")
    then set_text v (λ s. record old { created = s }) r
    else if names_match key (codes "State")
    then set_struct run_setter old.state v (λ s. record old { state = s }) r
    else if names_match key (codes "Name")
    then set_text v (λ s. record old { name = s }) r
    else if names_match key (codes "Config")
    then set_struct config_setter old.config v (λ c. record old { config = c }) r
    else r

port_setter : Setter ContainerPort
port_setter key v r =
    let old = r.value in
    if names_match key (codes "PrivatePort")
    then set_int v (λ n. record old { private_port = n }) r
    else if names_match key (codes "PublicPort")
    then set_int v (λ n. record old { public_port = n }) r
    else if names_match key (codes "Type")
    then set_text v (λ s. record old { type = s }) r
    else r

info_setter : Setter ContainerInfo
info_setter key v r =
    let old = r.value in
    if names_match key (codes "Id")
    then set_text v (λ s. record old { id = s }) r
    else if names_match key (codes "Names")
    then set_list text_element v (λ ts. record old { names = ts }) r
    else if names_match key (codes "Image")
    then set_text v (λ s. record old { image = s }) r
    else if names_match key (codes "State")
    then set_text v (λ s. record old { state = s }) r
    else if names_match key (codes "Status")
    then set_text v (λ s. record old { status = s }) r
    else if names_match key (codes "Ports")
    then set_list (unmarshal port_setter no_port) v (λ ps. record old { ports = ps }) r
    else r

unfoldable pub info_element : Json → Read ContainerInfo
unfolding info_setter port_setter unmarshal
info_element = unmarshal info_setter no_info

unfoldable pub image_setter : Setter ImageInfo
image_setter key v r =
    let old = r.value in
    if names_match key (codes "Id")
    then set_text v (λ s. record old { id = s }) r
    else if names_match key (codes "RepoTags")
    then set_list text_element v (λ ts. record old { repo_tags = ts }) r
    else if names_match key (codes "RepoDigests")
    then set_list text_element v (λ ts. record old { repo_digests = ts }) r
    else if names_match key (codes "Size")
    then set_int v (λ n. record old { size = n }) r
    else if names_match key (codes "Os")
    then set_text v (λ s. record old { os = s }) r
    else if names_match key (codes "Architecture")
    then set_text v (λ s. record old { architecture = s }) r
    else r
