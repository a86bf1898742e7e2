-- ===== src/Cloudflare/Upsert.antt =====
-- What `UpsertRecord` leaves in the zone (internal/cloudflare/service.go).
use caddytower.Prelude.{
  or_true, ◌≡◌, refl, sym, ◌∙◌, ap, ◌⊎◌, inl, inr, Bool, true, false, not, ◌&&◌, Option, List, [],
  ◌∷◌, ◌++◌, keep, exists, All, Bool-cases, length, ◌≤◌, take_all, if_holds, none, some,
}
use caddytower.Prelude.Texts.{codes, trim_space, Text, text_eq, text_eq_refl}
use caddytower.Prelude.Effects.{ok, M, failed, Ends, done, bind-Ends, then-Ends, Ends-mono, Ends-ok}
use mathlib.Core.Path.{subst}
use caddytower.Cloudflare.{
  type_of_address, ApiResponse, result_of, list_dns_records, create_record, update_record,
  DnsRecord, RecordRequest, DnsApi, IsDnsApi, is_record, has_id, row, dns_types, dns_record_type,
  delete_listed, delete_types, delete_conflicting_records, same_flag, put_record, upsert_record,
}
use caddytower.Cloudflare.Zone.{
  Shrinks, Shrinks-refl, Shrinks-trans, still_gone, Few, Few-Shrinks, keep-Shrinks, id_gone, in_ids,
  every_listed, unlisted, every_gone, kept_head, Alone, Alone-append, Alone-rewrite, has_request,
  row-request, exists-append_row, exists-rewritten,
}

module _ (api : DnsApi) (parse_ip : Text → Option Bool) where
  -- The record that an upsert asks for.
  abbrev pub wanted : Text → Text → Bool → RecordRequest
  wanted fqdn target proxied = record {
    kind = dns_record_type api parse_ip target;
    name = fqdn;
    content = target;
    proxied = proxied;
  }

module _ (api : DnsApi) (sound : IsDnsApi api) (parse_ip : Text → Option Bool) where
  delete_listed-Ends :
      (rs : List DnsRecord) (z : api.Zone)
      → Ends
          (λ _ z'.
            Shrinks (api.records z) (api.records z')
            × All (λ r. exists (has_id r.id) (api.records z') ≡ false) rs)
          (λ _ _. Unit {0})
          (delete_listed api parse_ip rs z)
  unfolding delete_listed
  delete_listed-Ends [] z = done (Shrinks-refl (api.records z), tt)
  delete_listed-Ends (r ∷ rs) z = then-Ends _ (sound.delete-Ends r.id z) λ _ z1 e.
      Ends-mono (delete_listed-Ends rs z1)
        (λ _ z2 k.
          let first : Shrinks (api.records z) (api.records z1) =
            rw e (keep-Shrinks (λ q. not (has_id r.id q)) (api.records z)) in
          (
            Shrinks-trans _ _ _ first k.0,
            (still_gone _ _ k.0 (has_id r.id) (rw e (id_gone r.id (api.records z))), k.1),
          ))
        (λ _ _ k. k)

  result_of-Ends :
      {A : Type 0} {P : A → api.Zone → Type 0} (what : Text)
      (request : M api.Zone Text (ApiResponse A)) (z : api.Zone)
      → Ends (λ r t. r.success ≡ true → P r.result t) (λ _ _. Unit {0}) (request z)
      → Ends P (λ _ _. Unit {0}) (result_of api what request z)
  unfolding result_of
  result_of-Ends {A} {P} what request z h = bind-Ends h λ r t holds.
      if_holds (λ (m : M api.Zone Text A). Ends P (λ _ _. Unit {0}) (m t)) r.success
        (λ e. done (holds e)) (λ _. failed tt)

  -- A listing has every record if they fit one page.
  listed-Ends :
      (kind name : Text) (z : api.Zone)
      → length (keep (is_record kind name) (api.records z)) ≤ api.page
      → Ends
          (λ rs t.
            (rs ≡ keep (is_record kind name) (api.records z)) × (api.records t ≡ api.records z))
          (λ _ _. Unit {0})
          (list_dns_records api kind name z)
  unfolding list_dns_records
  listed-Ends kind name z few =
      Ends-mono
        (result_of-Ends (codes "list dns records failed: ") (api.get_records kind name) z
          (sound.get_records-Ends kind name z))
        (λ rs t h. (h.0 ∙ take_all api.page _ few, h.1)) (λ _ _ h. h)

  delete_types-Ends :
      (skip : Text → Bool) (fqdn : Text) (ks : List Text) (z : api.Zone)
      → Few api.page fqdn (api.records z) ks
      → Ends
          (λ _ z'.
            Shrinks (api.records z) (api.records z')
            × All (λ k. (skip k ≡ true) ⊎ (exists (is_record k fqdn) (api.records z') ≡ false)) ks)
          (λ _ _. Unit {0})
          (delete_types api parse_ip skip fqdn ks z)
  unfolding delete_types
  delete_types-Ends skip fqdn [] z few = done (Shrinks-refl (api.records z), tt)
  delete_types-Ends skip fqdn (k ∷ ks) z few = elim (Bool-cases (skip k)) [
    | inl e ↦ rw e (
        Ends-mono (delete_types-Ends skip fqdn ks z few.1) (λ _ _ g. (g.0, (inl refl, g.1)))
          (λ _ _ g. g))
    | inr e ↦ rw e (
        bind-Ends (listed-Ends k fqdn z few.0) λ rs z1 l.
          then-Ends _ (delete_listed-Ends rs z1) λ _ z2 g.
            let is : DnsRecord → Bool = is_record k fqdn in
            let clear : exists is (api.records z2) ≡ false =
              every_gone is rs (api.records z2)
                (still_gone _ _ g.0 (λ q. is q && not (in_ids rs q))
                  (rw (l.0, l.1)
                    (unlisted is (keep is (api.records z)) (api.records z)
                      (every_listed is (api.records z)))))
                g.1 in
            let shrunk : Shrinks (api.records z) (api.records z2) =
              subst (λ (zs : List DnsRecord). Shrinks zs (api.records z2)) l.1 g.0 in
            Ends-mono
              (delete_types-Ends skip fqdn ks z2 (Few-Shrinks _ _ api.page fqdn ks shrunk few.1))
              (λ _ z3 t. (Shrinks-trans _ _ _ shrunk t.0, (inr (still_gone _ _ t.0 is clear), t.1)))
              (λ _ _ t. t))
  ]

  -- What `put_record` is called with: no record of the other types, and the records that it found.
  put_record-Ends :
      (q : RecordRequest) (existing : List DnsRecord) (z : api.Zone)
      → existing ≡ keep (is_record q.kind q.name) (api.records z)
      → Alone q (api.records z) dns_types
      → Ends
          (λ _ z'.
            Alone q (api.records z') dns_types × (exists (has_request q) (api.records z') ≡ true))
          (λ _ _. Unit {0})
          (put_record api parse_ip q existing z)
  unfolding put_record create_record update_record
  put_record-Ends q [] z e alone =
      bind-Ends
        (result_of-Ends (codes "create dns record failed: ") (api.post_record q) z
          (sound.post_record-Ends q z))
        λ r z1 k.
          let zs : List DnsRecord = api.records z in
          let e' : api.records z1 ≡ zs ++ row r.id q ∷ [] =
            k.1 ∙ ap (λ (x : DnsRecord). zs ++ x ∷ []) k.0 in
          done (
            subst (λ (l : List DnsRecord). Alone q l dns_types × (exists (has_request q) l ≡ true))
              (sym e')
              (
                Alone-append q zs r.id dns_types alone,
                exists-append_row (has_request q) zs (row r.id q)
                    ∙ or_true (exists (has_request q) zs) _ (row-request r.id q),
              ))
  put_record-Ends q (r ∷ rs) z e alone =
      elim (Bool-cases (text_eq r.content q.content && same_flag r.proxied q.proxied)) [
        | inl same ↦ rw same (
            done (
              alone,
              kept_head (is_record q.kind q.name) (has_request q) (api.records z) rs r e
                  (λ i. rw (i, same) refl),
            ))
        | inr other ↦ rw other (
            bind-Ends
              (result_of-Ends (codes "update dns record failed: ") (api.put_record r.id q) z
                (sound.put_record-Ends r.id q z))
              λ u z1 k. done (
                subst
                  (λ (l : List DnsRecord). Alone q l dns_types × (exists (has_request q) l ≡ true))
                  (sym k.1)
                  (
                    Alone-rewrite q (api.records z) r.id dns_types alone,
                    exists-rewritten (has_request q) r.id q (api.records z) (λ i. row-request i q)
                        (kept_head (is_record q.kind q.name) (has_id r.id) (api.records z) rs r e
                          (λ _. text_eq_refl r.id)),
                  )))
      ]

  kind-Few :
      (fqdn target : Text) (zs : List DnsRecord)
      → Few api.page fqdn zs dns_types
      → length (keep (is_record (dns_record_type api parse_ip target) fqdn) zs) ≤ api.page
  unfolding dns_record_type
  kind-Few fqdn target zs few =
      elim (parse_ip (trim_space target))
        as (λ (x : Option Bool). length (keep (is_record (type_of_address x) fqdn) zs) ≤ api.page) [
          | none ↦ few.0
          | some true ↦ few.1.0
          | some false ↦ few.1.1.0
        ]

  -- After an upsert that succeeds, the zone has a record of the host that is of the type of the target
  -- and has the target and the proxy flag, and no record of the host of the other two types, if the API
  -- does what its documentation says and the host had no more records of each of the three types than
  -- one page of a listing has.
  pub upsert_record-Alone :
      (fqdn target : Text) (proxied : Bool) (z z' : api.Zone) (result : DnsRecord × Bool)
      → Few api.page fqdn (api.records z) dns_types
      → upsert_record api parse_ip fqdn target proxied z ≡ ok result z'
      → Alone (wanted api parse_ip fqdn target proxied) (api.records z') dns_types
        × (exists (has_request (wanted api parse_ip fqdn target proxied)) (api.records z') ≡ true)
  unfolding upsert_record delete_conflicting_records
  upsert_record-Alone fqdn target proxied z z' result few h =
      let q = wanted api parse_ip fqdn target proxied in
      Ends-ok
        {P = λ _ t.
          Alone q (api.records t) dns_types × (exists (has_request q) (api.records t) ≡ true)}
        {Q = λ _ _. Unit {0}}
        (then-Ends _ (delete_types-Ends (λ k. text_eq k q.kind) fqdn dns_types z few) λ _ z1 d.
          bind-Ends
            (listed-Ends q.kind fqdn z1 (
              kind-Few fqdn target (api.records z1)
                (Few-Shrinks _ _ api.page fqdn dns_types d.0 few)))
            λ existing z2 l.
              put_record-Ends q existing z2 (l.0 ∙ ap (keep (is_record q.kind fqdn)) (sym l.1))
                (subst (λ (zs : List DnsRecord). Alone q zs dns_types) (sym l.1) d.1))
        h
