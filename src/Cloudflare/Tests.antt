-- ===== src/Cloudflare/Tests.antt =====
-- A zone in memory with an old address record of the host.
use caddytower.Prelude.{
  ◌≡◌, refl, Bool, true, false, not, Option, none, List, [], ◌∷◌, ◌++◌, keep, exists, update_where,
  take, arith,
}
use caddytower.Prelude.Texts.{text_eq, Text, codes}
use caddytower.Prelude.Effects.{ok, done}
use caddytower.Cloudflare.{
  ApiResponse, list_dns_records, create_record, DnsRecord, DnsApi, IsDnsApi, is_record, has_id, row,
  rewrite_row, dns_types, upsert_record,
}
use caddytower.Cloudflare.Zone.{Few, Alone, has_request}
use caddytower.Cloudflare.Upsert.{wanted, upsert_record-Alone}

abbrev answer : {A : Type 0} → A → ApiResponse A
answer x = record { success = true; errors = []; result = x }

abbrev zone_in_memory : DnsApi
zone_in_memory = record {
  Zone = List DnsRecord;
  records = λ z. z;
  page = 100;
  get_records = λ kind name z. ok (answer (take 100 (keep (is_record kind name) z))) z;
  delete = λ id z. ok tt (keep (λ r. not (has_id id r)) z);
  post_record = λ q z. ok (answer (row (codes "new") q)) (z ++ row (codes "new") q ∷ []);
  put_record = λ id q z. ok (answer (row id q)) (update_where (has_id id) (rewrite_row q) z);
}

zone_in_memory-IsDnsApi : IsDnsApi zone_in_memory
zone_in_memory-IsDnsApi = record {
  get_records-Ends = λ kind name z. done (λ _. (refl, refl));
  delete-Ends = λ id z. done refl;
  post_record-Ends = λ q z. done (λ _. (refl, refl));
  put_record-Ends = λ id q z. done (λ _. (refl, refl));
}

abbrev no_address : Text → Option Bool
no_address target = none

abbrev old_zone : List DnsRecord
old_zone =
    record {
      id = codes "old";
      kind = codes "A";
      name = codes "a.dev";
      content = codes "10.0.0.1";
      proxied = false;
    }
    ∷ []

abbrev new_zone : List DnsRecord
new_zone =
    row (codes "new") (wanted zone_in_memory no_address (codes "a.dev") (codes "origin.dev") true)
    ∷ []

upserted :
    upsert_record zone_in_memory no_address (codes "a.dev") (codes "origin.dev") true old_zone
    ≡ ok
        (
          row
              (codes "new")
              (wanted zone_in_memory no_address (codes "a.dev") (codes "origin.dev") true),
          true,
        )
        new_zone
unfolding upsert_record list_dns_records create_record keep
upserted = refl

old_zone-Few : Few 100 (codes "a.dev") old_zone dns_types
unfolding keep text_eq
old_zone-Few = (omega arith, (omega arith, (omega arith, tt)))

upsert_record-Alone_example :
    Alone
      (wanted zone_in_memory no_address (codes "a.dev") (codes "origin.dev") true)
      new_zone
      dns_types
    × (exists
          (has_request (wanted zone_in_memory no_address (codes "a.dev") (codes "origin.dev") true))
          new_zone
        ≡ true)
upsert_record-Alone_example =
    upsert_record-Alone zone_in_memory zone_in_memory-IsDnsApi no_address (codes "a.dev")
      (codes "origin.dev") true old_zone new_zone
      (
        row (codes "new")
            (wanted zone_in_memory no_address (codes "a.dev") (codes "origin.dev") true),
        true,
      )
      old_zone-Few upserted
