-- ===== src/Docker/Recreate.antt =====
-- What `RecreateContainer` and `RemoveContainer` leave in Docker (internal/dockerx/service.go).
use caddytower.Prelude.{◌≡◌, true, false, none, some}
use caddytower.Prelude.Texts.{Text, text_eq}
use caddytower.Docker.Documented.{Named, IsDocker}
use caddytower.Docker.Requests.{IsRequest}
use caddytower.Docker.{Box, ContainerSpec, Api}

module _ (a : Api) (named : Named a) (docker : IsDocker a named) where
  -- Containers of other names are as they were.
  abbrev pub Others : Text → a.World → a.World → Type 0
  Others name w t = (n : Text) → text_eq name n ≡ false → named t n ≡ named w n

  abbrev pub Cleared : Text → a.World → a.World → Type 0
  Cleared name w t = (named t name ≡ none) × Others name w t

  -- The container of the name is the one that was asked for, it runs, and it is the answer.
  abbrev pub Recreated : ContainerSpec → a.World → Box → a.World → Type 0
  Recreated spec w answer t =
      (named t spec.name ≡ some answer)
      × IsRequest a spec answer.request
      × (answer.running ≡ true)
      × Others spec.name w t
