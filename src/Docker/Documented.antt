-- ===== src/Docker/Documented.antt =====
-- What internal/dockerx/service.go relies on of the API of Docker.
use caddytower.Prelude.{◌≡◌, true, false, Option, none, some}
use caddytower.Prelude.Effects.{Ends}
use caddytower.Prelude.Texts.{Text, text_eq}
use caddytower.Docker.{Request, Box, not_found, Api}

abbrev pub Named : Api → Type 0
Named a = a.World → Text → Option Box

abbrev pub started : Box → Box
started b = record b { running = true }

-- What the documentation of the API says of the containers, by their names. A call that fails may
-- leave anything.
pub record IsDocker (a : Api) (named : Named a) : Type 0 where
  pub inspect-keeps :
      (ref : Text) (w : a.World) → Ends (λ _ t. t ≡ w) (λ _ t. t ≡ w) (a.container_inspect ref w)
  pub inspect-missing :
      (name : Text) (w : a.World)
      → Ends
          (λ _ _. Unit {0})
          (λ e t. e ≡ not_found → named t name ≡ none)
          (a.container_inspect name w)
  pub inspect-finds :
      (name : Text) (b : Box) (w : a.World)
      → named w name ≡ some b
      → Ends (λ x _. x ≡ b) (λ _ _. Unit {0}) (a.container_inspect b.id w)
  pub network-keeps :
      (name : Text) (w : a.World)
      → Ends (λ _ t. (n : Text) → named t n ≡ named w n) (λ _ _. Unit {0}) (a.network_list name w)
  pub create_network-keeps :
      (name : Text) (w : a.World)
      → Ends (λ _ t. (n : Text) → named t n ≡ named w n) (λ _ _. Unit {0}) (a.network_create name w)
  pub stop-keeps :
      (name : Text) (w : a.World)
      → Ends
          (λ _ t. (n : Text) → text_eq name n ≡ false → named t n ≡ named w n)
          (λ e t. e ≡ not_found → (n : Text) → text_eq name n ≡ false → named t n ≡ named w n)
          (a.container_stop name w)
  pub remove-clears :
      (name : Text) (w : a.World)
      → Ends
          (λ _ t.
            (named t name ≡ none) × ((n : Text) → text_eq name n ≡ false → named t n ≡ named w n))
          (λ e t.
            e ≡ not_found
            → (named t name ≡ none) × ((n : Text) → text_eq name n ≡ false → named t n ≡ named w n))
          (a.container_remove name w)
  pub create-adds :
      (request : Request) (name : Text) (w : a.World)
      → Ends
          (λ id t.
            (b : Box) × (named t name ≡ some b)
            × (b.id ≡ id)
            × (b.request ≡ request)
            × ((n : Text) → text_eq name n ≡ false → named t n ≡ named w n))
          (λ _ _. Unit {0})
          (a.container_create request name w)
  pub start-runs :
      (name : Text) (b : Box) (w : a.World)
      → named w name ≡ some b
      → Ends
          (λ _ t.
            (named t name ≡ some (started b))
            × ((n : Text) → text_eq name n ≡ false → named t n ≡ named w n))
          (λ _ _. Unit {0})
          (a.container_start b.id w)
