-- ===== src/Cloudflare/Zone.antt =====
-- The records of a zone under the requests that internal/cloudflare/service.go makes.
use caddytower.Prelude.{
  or_true, ◌≡◌, refl, sym, ◌∙◌, ap, ◌⊎◌, inl, inr, Bool, true, false, not, ◌&&◌, ◌||◌, List, [],
  length, ℕ, ◌≤◌, ◌∷◌, ◌++◌, keep, exists, update_where, All, All-mono, arith, Bool-cases,
}
use caddytower.Prelude.Texts.{Text, text_eq, text_eq_iff, text_eq_refl}
use mathlib.Core.Path.{subst}
use caddytower.Cloudflare.{DnsRecord, RecordRequest, is_record, has_id, row, rewrite_row, same_flag}

-- No test finds more records than before.
abbrev pub Shrinks : List DnsRecord → List DnsRecord → Type 0
Shrinks zs zs' = (p : DnsRecord → Bool) → length (keep p zs') ≤ length (keep p zs)

pub Shrinks-refl : (zs : List DnsRecord) → Shrinks zs zs
Shrinks-refl zs p = omega arith

pub Shrinks-trans :
    (zs zs' zs'' : List DnsRecord) → Shrinks zs zs' → Shrinks zs' zs'' → Shrinks zs zs''
Shrinks-trans zs zs' zs'' h k p = let a = h p in let b = k p in omega arith

none_kept :
    (p : DnsRecord → Bool) (zs : List DnsRecord) → exists p zs ≡ false → length (keep p zs) ≡ 0
unfolding exists keep
none_kept p [] h = refl
none_kept p (z ∷ zs) h = ground (arith, none_kept p zs)

none_there :
    (p : DnsRecord → Bool) (zs : List DnsRecord) → length (keep p zs) ≡ 0 → exists p zs ≡ false
unfolding exists keep
none_there p [] h = refl
none_there p (z ∷ zs) h = elim (Bool-cases (p z)) [
  | inl e ↦ absurd (
      let kept : keep p (z ∷ zs) ≡ z ∷ keep p zs = rw e refl in
      let long = ap length (sym kept) ∙ h in omega arith)
  | inr e ↦
      let kept : keep p (z ∷ zs) ≡ keep p zs = rw e refl in
      rw e (none_there p zs (ap length (sym kept) ∙ h))
]

-- What is not there does not come.
pub still_gone :
    (zs zs' : List DnsRecord)
    → Shrinks zs zs'
    → (p : DnsRecord → Bool) → exists p zs ≡ false
    → exists p zs' ≡ false
still_gone zs zs' h p gone =
    none_there p zs' (let a = h p in let b = none_kept p zs gone in omega arith)

pub keep-Shrinks : (q : DnsRecord → Bool) (zs : List DnsRecord) → Shrinks zs (keep q zs)
unfolding keep
keep-Shrinks q [] p = omega arith
keep-Shrinks q (z ∷ zs) p = ground (arith, keep-Shrinks q zs p)

pub id_gone :
    (id : Text) (zs : List DnsRecord)
    → exists (has_id id) (keep (λ r. not (has_id id r)) zs) ≡ false
unfolding exists keep
id_gone id [] = refl
id_gone id (z ∷ zs) = ground (arith, id_gone id zs)

-- Whether a record has the key of one of the listed ones.
abbrev pub in_ids : List DnsRecord → DnsRecord → Bool
in_ids rs q = exists (λ r. has_id r.id q) rs

abbrev head_or : DnsRecord → List DnsRecord → DnsRecord
head_or d [] = d
head_or d (x ∷ xs) = x

module _ (is : DnsRecord → Bool) where
  pub every_listed :
      (zs : List DnsRecord) → All (λ q. is q ≡ true → in_ids (keep is zs) q ≡ true) zs
  unfolding exists keep
  every_listed [] = tt
  every_listed (z ∷ zs) = elim (Bool-cases (is z)) [
    | inl e ↦
        let kept : keep is (z ∷ zs) ≡ z ∷ keep is zs = rw e refl in
        subst (λ (l : List DnsRecord). All (λ q. is q ≡ true → in_ids l q ≡ true) (z ∷ zs))
          (sym kept)
          (
            (λ _. rw (text_eq_refl z.id) refl),
            All-mono zs (λ q f h. or_true (has_id z.id q) (in_ids (keep is zs) q) (f h))
                (every_listed zs),
          )
    | inr e ↦
        let kept : keep is (z ∷ zs) ≡ keep is zs = rw e refl in
        subst (λ (l : List DnsRecord). All (λ q. is q ≡ true → in_ids l q ≡ true) (z ∷ zs))
          (sym kept) ((λ h. absurd cc), every_listed zs)
  ]

  pub unlisted :
      (rs zs : List DnsRecord)
      → All (λ q. is q ≡ true → in_ids rs q ≡ true) zs
      → exists (λ q. is q && not (in_ids rs q)) zs ≡ false
  unfolding exists
  unlisted rs [] h = refl
  unlisted rs (z ∷ zs) h = elim (Bool-cases (is z)) [
    | inl e ↦ rw (e, h.0 e) (unlisted rs zs h.1)
    | inr e ↦ rw e (unlisted rs zs h.1)
  ]

  not_in_ids :
      (q : DnsRecord) (qs rs : List DnsRecord)
      → All (λ r. exists (has_id r.id) (q ∷ qs) ≡ false) rs
      → in_ids rs q ≡ false
  unfolding exists
  not_in_ids q qs [] h = refl
  not_in_ids q qs (r ∷ rs) h =
      let tail = not_in_ids q qs rs h.1 in
      elim (Bool-cases (has_id r.id q)) [
        | inl e ↦ absurd (let k = h.0 in ground arith)
        | inr e ↦ rw e tail
      ]

  pub every_gone :
      (rs zs : List DnsRecord)
      → exists (λ q. is q && not (in_ids rs q)) zs ≡ false
      → All (λ r. exists (has_id r.id) zs ≡ false) rs
      → exists is zs ≡ false
  unfolding exists
  every_gone rs [] h g = refl
  every_gone rs (z ∷ zs) h g = elim (Bool-cases (is z)) [
    | inl e ↦ absurd (let k = not_in_ids z zs rs g in ground arith)
    | inr e ↦ rw e (every_gone rs zs (ground arith) (All-mono rs (λ r k. ground arith) g))
  ]

  -- The first of the kept records is in the list.
  pub kept_head :
      (m : DnsRecord → Bool) (zs rs : List DnsRecord) (r : DnsRecord)
      → r ∷ rs ≡ keep is zs
      → (is r ≡ true → m r ≡ true)
      → exists m zs ≡ true
  unfolding exists keep
  kept_head m [] rs r h f = absurd cc
  kept_head m (z ∷ zs) rs r h f = elim (Bool-cases (is z)) [
    | inl e ↦
        let kept : keep is (z ∷ zs) ≡ z ∷ keep is zs = rw e refl in
        let same : r ≡ z = ap (head_or r) (h ∙ kept) in
        let holds : m z ≡ true =
          subst (λ (x : DnsRecord). m x ≡ true) same
            (f (subst (λ (x : DnsRecord). is x ≡ true) (sym same) e)) in
        rw holds refl
    | inr e ↦
        let kept : keep is (z ∷ zs) ≡ keep is zs = rw e refl in
        or_true (m z) (exists m zs) (kept_head m zs rs r (h ∙ kept) f)
  ]

abbrev pub Alone : RecordRequest → List DnsRecord → List Text → Type 0
Alone q zs ks = All (λ k. (text_eq k q.kind ≡ true) ⊎ (exists (is_record k q.name) zs ≡ false)) ks

-- A host has no more than a page of records of each type.
abbrev pub Few : ℕ → Text → List DnsRecord → List Text → Type 0
Few page name zs ks = All (λ k. length (keep (is_record k name) zs) ≤ page) ks

pub Few-Shrinks :
    (zs zs' : List DnsRecord) (page : ℕ) (name : Text) (ks : List Text)
    → Shrinks zs zs'
    → Few page name zs ks
    → Few page name zs' ks
Few-Shrinks zs zs' page name ks h =
    All-mono ks (λ k few. let a = h (is_record k name) in omega arith)

abbrev pub has_request : RecordRequest → DnsRecord → Bool
has_request q r =
    is_record q.kind q.name r && text_eq r.content q.content && same_flag r.proxied q.proxied

same_flag_refl : (b : Bool) → same_flag b b ≡ true
same_flag_refl true = refl
same_flag_refl false = refl

pub row-request : (id : Text) (q : RecordRequest) → has_request q (row id q) ≡ true
row-request id q =
    rw (text_eq_refl q.kind, text_eq_refl q.name, text_eq_refl q.content, same_flag_refl q.proxied)
      refl

pub other_kind :
    (k : Text) (id : Text) (q : RecordRequest)
    → text_eq k q.kind ≡ false
    → is_record k q.name (row id q) ≡ false
other_kind k id q h = elim (Bool-cases (text_eq q.kind k)) [
  | inr e ↦ rw e refl
  | inl e ↦ absurd (let s = (text_eq_iff k q.kind).1 (sym ((text_eq_iff q.kind k).0 e)) in cc)
]

pub exists-append_row :
    (p : DnsRecord → Bool) (zs : List DnsRecord) (r : DnsRecord)
    → exists p (zs ++ r ∷ []) ≡ (exists p zs || p r)
unfolding exists
exists-append_row p [] r = ground arith
exists-append_row p (z ∷ zs) r = ground (arith, exists-append_row p zs r)

pub exists-rewrite :
    (p : DnsRecord → Bool) (id : Text) (q : RecordRequest) (zs : List DnsRecord)
    → ((i : Text) → p (row i q) ≡ false)
    → exists p zs ≡ false
    → exists p (update_where (has_id id) (rewrite_row q) zs) ≡ false
unfolding exists update_where
exists-rewrite p id q [] f h = refl
exists-rewrite p id q (z ∷ zs) f h =
    let rest = exists-rewrite p id q zs f (ground arith) in
    let here = f z.id in
    elim (Bool-cases (has_id id z)) [ inl e ↦ rw (e, here) rest | inr e ↦ rw e (ground arith) ]

pub exists-rewritten :
    (p : DnsRecord → Bool) (id : Text) (q : RecordRequest) (zs : List DnsRecord)
    → ((i : Text) → p (row i q) ≡ true)
    → exists (has_id id) zs ≡ true
    → exists p (update_where (has_id id) (rewrite_row q) zs) ≡ true
unfolding exists update_where
exists-rewritten p id q [] f h = h
exists-rewritten p id q (z ∷ zs) f h = elim (Bool-cases (has_id id z)) [
  | inl e ↦ rw (e, f z.id) refl
  | inr e ↦ rw e (or_true (p z) _ (exists-rewritten p id q zs f (ground arith)))
]

pub Alone-append :
    (q : RecordRequest) (zs : List DnsRecord) (id : Text) (ks : List Text)
    → Alone q zs ks
    → Alone q (zs ++ row id q ∷ []) ks
Alone-append q zs id ks h =
    All-mono ks
      (λ k s. elim (Bool-cases (text_eq k q.kind)) [
        | inl e ↦ inl e
        | inr e ↦ elim s [
          | inl e' ↦ absurd cc
          | inr clear ↦ inr (
              exists-append_row (is_record k q.name) zs (row id q)
              ∙ rw (clear, other_kind k id q e) refl)
        ]
      ])
      h

pub Alone-rewrite :
    (q : RecordRequest) (zs : List DnsRecord) (id : Text) (ks : List Text)
    → Alone q zs ks
    → Alone q (update_where (has_id id) (rewrite_row q) zs) ks
Alone-rewrite q zs id ks h =
    All-mono ks
      (λ k s. elim (Bool-cases (text_eq k q.kind)) [
        | inl e ↦ inl e
        | inr e ↦ elim s [
          | inl e' ↦ absurd cc
          | inr clear ↦
              inr (exists-rewrite (is_record k q.name) id q zs (λ i. other_kind k i q e) clear)
        ]
      ])
      h
