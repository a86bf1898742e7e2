-- ===== src/Store/Domains/Tests.antt =====
-- A project whose primary domain changes (internal/store/project_page.go).
use caddytower.Prelude.{ℕ, ◌≡◌, refl, true, false, Bool, none, List, [], ◌∷◌, map}
use caddytower.Prelude.Texts.{Text, codes, text_eq}
use caddytower.Store.Domains.{DomainRecord, DomainTable}
use caddytower.Store.Domains.Primary.{Sound}
use caddytower.Store.Domains.Kept.{Change, create, delete, verify, changes, changes-Sound}

abbrev domain : ℕ → Text → Bool → DomainRecord
domain id host primary = record {
  id = id;
  project_id = codes "p";
  hostname = host;
  is_primary = primary;
  dns_verified_at = none;
  created_at = 7;
}

abbrev table : DomainTable
table = record {
  rows = domain 1 (codes "a.test") true ∷ [];
  next_id = 2;
  has_project = λ _. true;
  clock = 7;
  fails = λ _. false;
  executed = 0;
}

abbrev history : List Change
history =
    create (domain 0 (codes "b.test") true)
    ∷ create (domain 0 (codes "b.test") false)
    ∷ verify (codes "p") 2 9
    ∷ delete (codes "p") 5
    ∷ []

one_primary : map (λ r. r.is_primary) (changes history table).rows ≡ false ∷ true ∷ []
unfolding changes text_eq
one_primary = refl

changes-Sound_example : Sound (changes history table)
changes-Sound_example = changes-Sound history table (tt, tt)
