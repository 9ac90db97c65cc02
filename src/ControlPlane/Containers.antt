-- ===== src/ControlPlane/Containers.antt =====
-- The containers of the control plane (control-plane/main.py). Docker is an interface on a state of its
-- own; each of its calls may raise.
use pg_stress.Prelude.{
  ℕ, String, Bool, false, Option, some, none, List, [], ◌∷◌, nat_eq, if◌then◌else◌, ◌==◌, ◌||◌,
}
use pg_stress.Prelude.Action.{Action}
use pg_stress.Prelude.Chars.{Chars}
use pg_stress.Prelude.Http.{Reply, http_error, crash, replied}
use pg_stress.Prelude.Result.{Result, Error, ok, raise}

-- A container, as far as the program reads its attributes.
pub record Container : Type 0 where
  pub id : String
  pub name : String
  pub status : String
  pub health : Option String
  pub started_at : Option String
  pub networks : List String
  pub env : Option (List Chars)

-- How `docker compose up` ended: with a return code, by the timeout, or by another exception.
pub data ComposeResult : Type 0 where
  returned : ℕ → ComposeResult
  timed_out : ComposeResult
  not_run : Error → ComposeResult

pub record Docker (D : Type 0) : Type 0 where
  -- all containers with the label of a service
  pub list_service : String → Action D (List Container)
  -- `c.image.id`
  pub image_id : Container → Action D String
  pub stop : Container → Action D (Unit {0})
  pub remove : Container → Action D (Unit {0})
  pub restart : Container → Action D (Unit {0})
  -- image, name, environment and network of a new container
  pub run : String → String → List Chars → String → Action D (Unit {0})
  -- profile and service
  pub compose_up : String → String → D → ComposeResult × D

pub record ContainerStatus : Type 0 where
  pub name : String
  pub status : String
  pub health : Option String
  pub started_at : Option String

pub data GeneratorReply : Type 0 where
  already_running started not_found not_running stopped : String → GeneratorReply

unfoldable pub or_text : String → Option String → String
or_text default none = default
or_text default (some s) = s

-- `if containers: return containers[0]`, and nothing after an exception
unfoldable pub first_of : Result (List Container) → Option Container
first_of (raise e) = none
first_of (ok []) = none
first_of (ok (c ∷ cs)) = some c

unfoldable pub is_generator : String → Bool
is_generator name = name == "orm" || name == "pgbench"

unfoldable pub service_of : String → String
service_of name = if name == "orm" then "load-generator-orm" else "pgbench-runner"

unfoldable pub is_up : Option Container → Bool
is_up none = false
is_up (some c) = c.status == "running"

unfoldable pub status_of : String → Option Container → ContainerStatus
unfolding or_text
status_of service_name none = record {
  name = service_name;
  status = "not_found";
  health = none;
  started_at = none;
}
status_of service_name (some c) = record {
  name = service_name;
  status = c.status;
  health = some (or_text "unknown" c.health);
  started_at = some (or_text "" c.started_at);
}

unfoldable pub compose_reply : String → ComposeResult → Reply GeneratorReply
compose_reply service (returned code) =
    if nat_eq code 0 then replied (started service) else http_error 500
compose_reply service timed_out = http_error 504
compose_reply service (not_run e) = crash e

module _ {D : Type 0} (docker : Docker D) where
  unfoldable pub find_container : String → D → Option Container × D
  unfolding first_of
  find_container service_name d =
      let (r, d') = docker.list_service service_name d in (first_of r, d')

  unfoldable pub container_status : String → D → ContainerStatus × D
  unfolding find_container status_of
  container_status service_name d =
      let (c, d') = find_container service_name d in (status_of service_name c, d')

  unfoldable pub start_generator : String → D → Reply GeneratorReply × D
  unfolding find_container is_generator service_of is_up compose_reply
  start_generator name d =
      let (c, d') = find_container (service_of name) d in
      let (r, d'') = docker.compose_up name (service_of name) d' in
      let launched : Reply GeneratorReply × D = (compose_reply (service_of name) r, d'') in
      let begun : Reply GeneratorReply × D =
        if is_up c then (replied (already_running (service_of name)), d') else launched in
      if is_generator name then begun else (http_error 404, d)

  unfoldable pub stopped_reply : String → Result (Unit {0}) × D → Reply GeneratorReply × D
  stopped_reply service (ok u, d) = (replied (stopped service), d)
  stopped_reply service (raise e, d) = (crash e, d)

  unfoldable pub stop_found : String → Option Container → D → Reply GeneratorReply × D
  unfolding stopped_reply
  stop_found service none d = (replied (not_found service), d)
  stop_found service (some c) d =
      if c.status == "running"
      then stopped_reply service (docker.stop c d)
      else (replied (not_running service), d)

  unfoldable pub stop_generator : String → D → Reply GeneratorReply × D
  unfolding find_container is_generator service_of stop_found
  stop_generator name d =
      let (c, d') = find_container (service_of name) d in
      if is_generator name then stop_found (service_of name) c d' else (http_error 404, d)
