-- ===== src/Config/Tests.antt =====
-- An environment that exposes the controller (internal/config/config.go).
use caddytower.Prelude.{◌≡◌, refl, true, false, Option, none, some, if◌then◌else◌}
use caddytower.Prelude.Int.{pos}
use caddytower.Prelude.Results.{value, error}
use caddytower.Prelude.Texts.{Text, codes, text_eq, lower}
use caddytower.Config.{Net, Lookup, variable, required_for_public, load_from_lookup, configuration}
use caddytower.Config.Accepted.{IsValid, load_from_lookup-IsValid}

abbrev net : Net
net = record {
  parse_url = λ raw. some (record { scheme = codes "https"; host = raw; hostname = raw });
  is_loopback = λ _. false;
}

abbrev only : Text → Option Text → Lookup
only key answer asked = if text_eq asked key then answer else none

abbrev environment : Lookup
environment = only (codes "CADDYTOWER_MASTER_KEY") (some (codes " secret "))

loaded :
    load_from_lookup net environment
    ≡ value (
        configuration environment
          (pos 0)
          false
          true
          (pos 14)
          true
          (pos 15)
          (pos 15)
          (pos 15)
          (pos 360)
          (pos 587))
unfolding load_from_lookup text_eq lower
loaded = refl

no_key :
    load_from_lookup net (λ _. none)
    ≡ error (variable (codes "CADDYTOWER_MASTER_KEY") required_for_public)
unfolding load_from_lookup lower
no_key = refl

load_from_lookup-IsValid_example : IsValid net (
    configuration environment
      (pos 0)
      false
      true
      (pos 14)
      true
      (pos 15)
      (pos 15)
      (pos 15)
      (pos 360)
      (pos 587))
load_from_lookup-IsValid_example =
    load_from_lookup-IsValid net environment
      (configuration environment (pos 0) false true (pos 14) true (pos 15) (pos 15) (pos 15)
        (pos 360) (pos 587))
      loaded
