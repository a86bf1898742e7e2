-- ===== src/Docker/Tests.antt =====
-- An engine that keeps its containers by name (internal/dockerx/service.go).
use caddytower.Prelude.{
  ◌≡◌, refl, Bool, true, false, Option, none, some, [], ◌∷◌, ◌++◌, if◌then◌else◌,
}
use caddytower.Prelude.Effects.{Outcome, ok, fail}
use caddytower.Prelude.Texts.{Text, codes, text_eq}
use caddytower.Docker.{Request, Box, ContainerSpec, ApiError, not_found, Api, bind_mounts}

-- What is kept of a container: its request, and whether it runs.
abbrev Kept : Type 0
Kept = Request × Bool

abbrev Boxes : Type 0
Boxes = Text → Option Kept

abbrev box : Text → Kept → Box
box n k = record { id = n; request = k.0; running = k.1; networks = [] }

abbrev boxed : Text → Option Kept → Option Box
boxed n none = none
boxed n (some k) = some (box n k)

abbrev named : Boxes → Text → Option Box
named w n = boxed n (w n)

abbrev set : Text → Option Kept → Boxes → Boxes
set name k w n = if text_eq name n then k else w n

abbrev inspected : Text → Boxes → Option Kept → Outcome Boxes ApiError Box
inspected ref w none = fail not_found w
inspected ref w (some k) = ok (box ref k) w

abbrev running : Option Kept → Option Kept
running none = none
running (some k) = some (k.0, true)

abbrev engine : Api
engine = record {
  World = Boxes;
  container_inspect = λ ref w. inspected ref w (w ref);
  container_stop = λ ref w. ok tt w;
  container_remove = λ ref w. ok tt (set ref none w);
  container_create = λ request name w. ok name (set name (some (request, false)) w);
  container_start = λ ref w. ok tt (set ref (running (w ref)) w);
  container_restart = λ ref w. ok tt w;
  network_list = λ name w. ok [] w;
  network_create = λ name w. ok tt w;
  network_connect = λ network name w. ok tt w;
  new_port = λ protocol port. some (port ++ codes "/" ++ protocol);
}

abbrev box_or : Box → Option Box → Box
box_or d none = d
box_or d (some b) = b

abbrev spec : ContainerSpec
spec = record {
  name = codes "shop";
  image = codes "ghcr.io/a/b";
  command = [];
  env = (codes "B", codes "2") ∷ (codes "A", codes "1") ∷ [];
  labels = [];
  network = codes "edge";
  mounts = [];
  exposed_ports = codes "8080" ∷ [];
  published_ports =
      record {
        container_port = codes "8080";
        host_port = codes "80";
        host_ip = [];
        protocol = codes "TCP";
      }
      ∷ [];
  restart_policy = [];
  auto_remove = false;
}

abbrev stale : Boxes
stale =
    set (codes "shop")
      (some (
        record {
          image = codes "old";
          command = [];
          env = [];
          labels = [];
          exposed_ports = [];
          binds = [];
          auto_remove = false;
          port_bindings = [];
          restart_policy = [];
          network_mode = [];
          endpoints = [];
        },
        true,
      ))
      (λ _. none)

-- A bind whose target ends in a mode is the bind of the target without it.
ambiguous :
    bind_mounts
      (record { source = codes "/srv"; target = codes "/data:rw"; read_only = false } ∷ [])
    ≡ codes "/srv:/data:rw" ∷ []
unfolding bind_mounts
ambiguous = refl
