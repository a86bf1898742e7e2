-- ===== src/Releases/Tests.antt =====
-- Two releases with a different number of parts.
use caddytower.Prelude.{◌≡◌, refl, ◌⊎◌, true, false, ◌||◌, is_empty}
use caddytower.Prelude.Texts.{Text, codes}
use caddytower.Releases.{
  compare_release_versions, normalize_release_version, parts_of, older, same_release,
}
use caddytower.Releases.Order.{Describes, compare_release_versions-Describes}

abbrev current : Text
current = codes "v1.2"

abbrev latest : Text
latest = codes "1.2.1-rc1"

later_part : compare_release_versions current latest ≡ older
unfolding compare_release_versions
later_part = refl

compare_release_versions-Describes_example :
    (((is_empty (normalize_release_version current) || is_empty (normalize_release_version latest))
        ≡ true)
      × (compare_release_versions current latest ≡ same_release))
    ⊎ (((is_empty (normalize_release_version current)
            || is_empty (normalize_release_version latest))
          ≡ false)
        × Describes
            (compare_release_versions current latest)
            (parts_of (normalize_release_version current))
            (parts_of (normalize_release_version latest)))
compare_release_versions-Describes_example = compare_release_versions-Describes current latest
