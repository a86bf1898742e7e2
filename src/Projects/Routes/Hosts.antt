-- ===== src/Projects/Routes/Hosts.antt =====
-- The hosts of a project (`effectiveProjectRouteHosts`, internal/projects/service.go).
use caddytower.Prelude.{
  ◌≡◌, sym, false, List, [], ◌∷◌, ◌++◌, All, All-append, is_empty, exists, arith, inl, inr,
  Bool-cases,
}
use caddytower.Prelude.Sorting.{sort, insert_sorted, All-insert_sorted, All-sort}
use caddytower.Prelude.Texts.{Text, text_eq, text_eq_iff, text_lt}
use caddytower.Projects.{Project}
use caddytower.Projects.Routes.{
  add_host, add_hosts, effective_project_route_hosts, normalize_hostname,
}

-- No host stands twice in the list.
abbrev pub Distinct : List Text → Type 0
Distinct [] = Unit
Distinct (x ∷ xs) = All (λ y. text_eq x y ≡ false) xs × Distinct xs

text_eq_sym : (s t : Text) → text_eq s t ≡ false → text_eq t s ≡ false
text_eq_sym s t h = elim (Bool-cases (text_eq t s)) [
  | inr other ↦ other
  | inl same ↦
      absurd (let e = sym ((text_eq_iff t s).0 same) in let k = (text_eq_iff s t).1 e in cc)
]

insert_sorted-Distinct :
    (a : Text) (xs : List Text)
    → All (λ y. text_eq a y ≡ false) xs
    → Distinct xs
    → Distinct (insert_sorted text_lt a xs)
unfolding insert_sorted
insert_sorted-Distinct a [] h d = (tt, tt)
insert_sorted-Distinct a (x ∷ xs) h d = elim (Bool-cases (text_lt x a)) [
  | inl e ↦ rw e (
    All-insert_sorted (λ y. text_eq x y ≡ false) text_lt a xs (text_eq_sym a x h.0) d.0,
    insert_sorted-Distinct a xs h.1 d.1,
  )
  | inr e ↦ rw e (h, d)
]

sort-Distinct : (xs : List Text) → Distinct xs → Distinct (sort text_lt xs)
unfolding sort
sort-Distinct [] d = tt
sort-Distinct (x ∷ xs) d =
    insert_sorted-Distinct x (sort text_lt xs) (All-sort (λ y. text_eq x y ≡ false) text_lt xs d.0)
      (sort-Distinct xs d.1)

Distinct-append :
    (xs : List Text) (h : Text)
    → exists (text_eq h) xs ≡ false
    → Distinct xs
    → Distinct (xs ++ h ∷ [])
unfolding exists
Distinct-append [] h e d = (tt, tt)
Distinct-append (x ∷ xs) h e d = elim (Bool-cases (text_eq h x)) [
  | inl same ↦ absurd (ground arith)
  | inr other ↦ (
    All-append (λ y. text_eq x y ≡ false) xs (h ∷ []) d.0 (text_eq_sym h x other, tt),
    Distinct-append xs h (ground arith) d.1,
  )
]

abbrev pub IsHostList : List Text → Type 0
IsHostList hosts = Distinct hosts × All (λ h. is_empty h ≡ false) hosts

add_host-IsHostList :
    (d : Text) (hosts : List Text) → IsHostList hosts → IsHostList (add_host d hosts)
unfolding add_host
add_host-IsHostList d hosts g = elim (Bool-cases (is_empty (normalize_hostname d))) [
  | inl e ↦ rw e g
  | inr e ↦ rw e (elim (Bool-cases (exists (text_eq (normalize_hostname d)) hosts)) [
    | inl seen ↦ rw seen g
    | inr new_host ↦ rw new_host (
      Distinct-append hosts (normalize_hostname d) new_host g.0,
      All-append (λ h. is_empty h ≡ false) hosts (normalize_hostname d ∷ []) g.1 (e, tt),
    )
  ])
]

add_hosts-IsHostList : (ds hosts : List Text) → IsHostList hosts → IsHostList (add_hosts ds hosts)
unfolding add_hosts
add_hosts-IsHostList [] hosts g = g
add_hosts-IsHostList (d ∷ ds) hosts g =
    add_hosts-IsHostList ds (add_host d hosts) (add_host-IsHostList d hosts g)

-- No host of a project is empty or stands twice in the list, whatever its domains are.
pub effective_hosts-IsHostList : (p : Project) → IsHostList (effective_project_route_hosts p)
unfolding effective_project_route_hosts
effective_hosts-IsHostList p =
    let found = add_hosts p.custom_domains (add_host p.full_domain []) in
    let g : IsHostList found =
      add_hosts-IsHostList p.custom_domains (add_host p.full_domain [])
        (add_host-IsHostList p.full_domain [] (tt, tt)) in
    (sort-Distinct found g.0, All-sort (λ h. is_empty h ≡ false) text_lt found g.1)
