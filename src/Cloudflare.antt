-- ===== src/Cloudflare.antt =====
-- internal/cloudflare/service.go: the DNS records of a host (`UpsertRecord`, `DeleteRecord`). The API of
-- Cloudflare and what `net.ParseIP` says of a target are parameters.
pub mod Zone
pub mod Upsert
mod Tests
use caddytower.Prelude.{
  ℕ, take, map, ◌≡◌, Bool, true, false, not, ◌&&◌, Option, none, some, List, [], ◌∷◌, ◌++◌, keep,
  update_where, if◌then◌else◌,
}
use caddytower.Prelude.Texts.{join, Text, codes, text_eq, trim_space}
use caddytower.Prelude.Int.{ℤ, pos, eqb_ℤ}
use caddytower.Prelude.Decimal.{format_int}
use caddytower.Prelude.Effects.{throw, M, Outcome, ok, fail, Ends, ◌>>=◌, ◌>>◌, return}

pub record DnsRecord : Type 0 where
  pub id : Text
  pub kind : Text
  pub name : Text
  pub content : Text
  pub proxied : Bool

pub record RecordRequest : Type 0 where
  pub kind : Text
  pub name : Text
  pub content : Text
  pub proxied : Bool

pub record ApiError : Type 0 where
  pub code : ℤ
  pub message : Text

pub record ApiResponse (A : Type 0) : Type 0 where
  pub success : Bool
  pub errors : List ApiError
  pub result : A

-- The requests, with their decoded answers; what is no answer, or is no JSON, is an error. `records`
-- is what a state of the zone holds, and `page` how many records one page of a listing has.
pub record DnsApi : Type 1 where
  pub Zone : Type 0
  pub records : Zone → List DnsRecord
  pub page : ℕ
  pub get_records : Text → Text → M Zone Text (ApiResponse (List DnsRecord))
  pub delete : Text → M Zone Text (Unit {0})
  pub post_record : RecordRequest → M Zone Text (ApiResponse DnsRecord)
  pub put_record : Text → RecordRequest → M Zone Text (ApiResponse DnsRecord)

abbrev pub is_record : Text → Text → DnsRecord → Bool
is_record kind name r = text_eq r.kind kind && text_eq r.name name

abbrev pub has_id : Text → DnsRecord → Bool
has_id id r = text_eq r.id id

abbrev pub row : Text → RecordRequest → DnsRecord
row id q = record {
  id = id;
  kind = q.kind;
  name = q.name;
  content = q.content;
  proxied = q.proxied;
}

abbrev pub rewrite_row : RecordRequest → DnsRecord → DnsRecord
rewrite_row q r = row r.id q

-- What a successful answer means, by the API's documentation: a listing answers its first page.
pub record IsDnsApi (api : DnsApi) : Type 0 where
  pub get_records-Ends :
      (kind name : Text) (z : api.Zone)
      → Ends
          (λ r z'.
            r.success ≡ true
            → (r.result ≡ take api.page (keep (is_record kind name) (api.records z)))
              × (api.records z' ≡ api.records z))
          (λ _ _. Unit {0})
          (api.get_records kind name z)
  pub delete-Ends :
      (id : Text) (z : api.Zone)
      → Ends
          (λ _ z'. api.records z' ≡ keep (λ r. not (has_id id r)) (api.records z))
          (λ _ _. Unit {0})
          (api.delete id z)
  pub post_record-Ends :
      (q : RecordRequest) (z : api.Zone)
      → Ends
          (λ r z'.
            r.success ≡ true
            → (r.result ≡ row r.result.id q) × (api.records z' ≡ api.records z ++ r.result ∷ []))
          (λ _ _. Unit {0})
          (api.post_record q z)
  pub put_record-Ends :
      (id : Text) (q : RecordRequest) (z : api.Zone)
      → Ends
          (λ r z'.
            r.success ≡ true
            → (r.result ≡ row id q)
              × (api.records z' ≡ update_where (has_id id) (rewrite_row q) (api.records z)))
          (λ _ _. Unit {0})
          (api.put_record id q z)

-- The record types that the program manages, in the order of its loops.
abbrev pub dns_types : List Text
dns_types = codes "CNAME" ∷ codes "A" ∷ codes "AAAA" ∷ []

-- `some true` stands for an IPv4 address, `some false` for another one.
abbrev pub type_of_address : Option Bool → Text
type_of_address none = codes "CNAME"
type_of_address (some true) = codes "A"
type_of_address (some false) = codes "AAAA"

abbrev pub same_flag : Bool → Bool → Bool
same_flag true b = b
same_flag false b = not b

unfoldable pub format_error : ApiError → Text
unfolding format_int
format_error e =
    if eqb_ℤ e.code (pos 0) then e.message else format_int e.code ++ codes ": " ++ e.message

unfoldable pub format_errors : List ApiError → Text
unfolding format_error join
format_errors [] = codes "unknown error"
format_errors (e ∷ es) = join (codes "; ") (map format_error (e ∷ es))

module _ (api : DnsApi) where
  -- The result of a successful response.
  unfoldable pub result_of :
      {A : Type 0} → Text → M api.Zone Text (ApiResponse A) → M api.Zone Text A
  unfolding format_errors
  result_of what request = do
    response ← request
    if response.success
        then return response.result
        else throw (what ++ format_errors response.errors)

  unfoldable pub list_dns_records : Text → Text → M api.Zone Text (List DnsRecord)
  unfolding result_of
  list_dns_records kind name =
      result_of (codes "list dns records failed: ") (api.get_records kind name)

  unfoldable pub create_record : RecordRequest → M api.Zone Text DnsRecord
  unfolding result_of
  create_record q = result_of (codes "create dns record failed: ") (api.post_record q)

  unfoldable pub update_record : Text → RecordRequest → M api.Zone Text DnsRecord
  unfolding result_of
  update_record id q = result_of (codes "update dns record failed: ") (api.put_record id q)

module _ (api : DnsApi) (parse_ip : Text → Option Bool) where
  unfoldable pub dns_record_type : Text → Text
  dns_record_type target = type_of_address (parse_ip (trim_space target))

  unfoldable pub delete_listed : List DnsRecord → M api.Zone Text (Unit {0})
  delete_listed [] = return tt
  delete_listed (r ∷ rs) =
      let rest : M api.Zone Text (Unit {0}) = delete_listed rs in do api.delete r.id; rest

  -- The loop over the types, without the one that is kept.
  unfoldable pub delete_types : (Text → Bool) → Text → List Text → M api.Zone Text (Unit {0})
  unfolding delete_listed list_dns_records
  delete_types skip fqdn [] = return tt
  delete_types skip fqdn (k ∷ ks) =
      let rest : M api.Zone Text (Unit {0}) = delete_types skip fqdn ks in
      if skip k
      then rest
      else (do records ← list_dns_records api k fqdn; delete_listed records; rest)

  unfoldable pub delete_conflicting_records : Text → Text → M api.Zone Text (Unit {0})
  unfolding delete_types text_eq
  delete_conflicting_records fqdn keep_type = delete_types (λ k. text_eq k keep_type) fqdn dns_types

  unfoldable pub delete_record : Text → M api.Zone Text (Unit {0})
  unfolding delete_types
  delete_record fqdn = delete_types (λ _. false) fqdn dns_types

  unfoldable pub put_record : RecordRequest → List DnsRecord → M api.Zone Text (DnsRecord × Bool)
  unfolding create_record update_record text_eq
  put_record q [] = do created ← create_record api q; return (created, true)
  put_record q (r ∷ rs) =
      if text_eq r.content q.content && same_flag r.proxied q.proxied
      then return (r, false)
      else (do updated ← update_record api r.id q; return (updated, true))

  -- The record, and whether the zone had to be changed for it.
  unfoldable pub upsert_record : Text → Text → Bool → M api.Zone Text (DnsRecord × Bool)
  unfolding dns_record_type delete_conflicting_records put_record list_dns_records
  upsert_record fqdn target proxied =
      let kind = dns_record_type target in
      do
        delete_conflicting_records fqdn kind
        existing ← list_dns_records api kind fqdn
        put_record (record { kind = kind; name = fqdn; content = target; proxied = proxied })
            existing
