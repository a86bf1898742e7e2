-- ===== src/Backups/Retention.antt =====
-- What `pruneOld` and `RunNow` leave in the backup directory (internal/backups/service.go).
use caddytower.Prelude.{
  ℕ, ◌≡◌, refl, sym, ap, ◌∙◌, inl, inr, Bool, true, false, not, ◌&&◌, ◌||◌, List, [], ◌∷◌, map, All,
  All-mono, keep, exists, Bool-cases, if_holds, arith,
}
use caddytower.Prelude.Sorting.{sort, insert_sorted}
use caddytower.Prelude.Effects.{Outcome, Ends, done, failed, bind-Ends, then-Ends, Ends-mono}
use caddytower.Prelude.Texts.{Text, text_eq, text_eq_comm, text_eq_refl}
use caddytower.Backups.{
  Entry, Snapshot, Directory, BackupError, Faults, refuse_if, is_archive, snapshot_of, newer,
  read_entries, list_snapshots, is_old, remove, remove_each, prune_old,
}

-- The names of the entries differ from each other.
abbrev pub Distinct : Directory → Type 0
Distinct [] = Unit
Distinct (x ∷ xs) = All (λ e. text_eq e.name x.name ≡ false) xs × Distinct xs

-- What a prune keeps: directories, files of other kinds, and archives that are young enough.
abbrev pub is_kept : ℕ → ℕ → Entry → Bool
is_kept now days e = not (is_archive e && is_old now days (snapshot_of e))

keep_cong : (p q : Entry → Bool) (xs : Directory) → All (λ x. p x ≡ q x) xs → keep p xs ≡ keep q xs
unfolding keep
keep_cong p q [] h = refl
keep_cong p q (x ∷ xs) h = rw (h.0, keep_cong p q xs h.1) refl

keep-keep : (p q : Entry → Bool) (xs : Directory) → keep q (keep p xs) ≡ keep (λ x. p x && q x) xs
unfolding keep
keep-keep p q [] = refl
keep-keep p q (x ∷ xs) = ground (arith, keep-keep p q xs)

All-true : {A : Type 0} {P : A → Type 0} (xs : List A) → ((x : A) → P x) → All P xs
All-true [] f = tt
All-true (x ∷ xs) f = (f x, All-true xs f)

exists-insert_sorted :
    (p : Snapshot → Bool) (a : Snapshot) (xs : List Snapshot)
    → exists p (insert_sorted newer a xs) ≡ (p a || exists p xs)
unfolding exists insert_sorted
exists-insert_sorted p a [] = refl
exists-insert_sorted p a (x ∷ xs) =
    if_holds (λ ys. exists p ys ≡ (p a || (p x || exists p xs))) (newer x a)
      (λ _. let rest = exists-insert_sorted p a xs in ground arith) (λ _. refl)

exists-sort : (p : Snapshot → Bool) (xs : List Snapshot) → exists p (sort newer xs) ≡ exists p xs
unfolding exists sort
exists-sort p [] = refl
exists-sort p (x ∷ xs) =
    exists-insert_sorted p x (sort newer xs) ∙ ap (λ b. p x || b) (exists-sort p xs)

-- The snapshots of the archives among the entries.
archives : Directory → List Snapshot
archives es = map snapshot_of (keep is_archive es)

exists-archives :
    (p : Snapshot → Bool) (es : Directory)
    → exists p (archives es) ≡ exists (λ e. is_archive e && p (snapshot_of e)) es
unfolding exists archives keep
exists-archives p [] = refl
exists-archives p (e ∷ es) = elim (Bool-cases (is_archive e)) [
  | inl k ↦ rw (k, exists-archives p es) refl
  | inr k ↦ rw (k, exists-archives p es) refl
]

keep_every : (es : Directory) → keep (λ _. true) es ≡ es
unfolding keep
keep_every [] = refl
keep_every (e ∷ es) = ap (λ t. e ∷ t) (keep_every es)

pub clash : {b : Bool} → b ≡ true → b ≡ false → ⊥
clash e f = cc

-- The operating system refuses nothing that a prune asks for.
abbrev pub IsQuiet : Faults → Type 0
IsQuiet f =
    (f.mkdir ≡ false)
    × (f.read_dir ≡ false)
    × ((name : Text) → f.info name ≡ false)
    × ((name : Text) → f.remove name ≡ false)

module _ (now days : ℕ) where
  -- An old snapshot of the name is among the snapshots.
  abbrev is_listed : List Snapshot → Entry → Bool
  is_listed xs e = exists (λ x. is_old now days x && text_eq x.name e.name) xs

  abbrev is_doomed : Entry → Entry → Bool
  is_doomed e x = is_archive x && (is_old now days (snapshot_of x) && text_eq x.name e.name)

  absent :
      (e : Entry) (xs : Directory)
      → All (λ x. text_eq x.name e.name ≡ false) xs
      → exists (is_doomed e) xs ≡ false
  unfolding exists
  absent e [] h = refl
  absent e (x ∷ xs) h = let other = h.0 in let rest = absent e xs h.1 in ground arith

  doomed_here :
      (xs : Directory)
      → Distinct xs
      → All (λ e. exists (is_doomed e) xs ≡ not (is_kept now days e)) xs
  unfolding exists
  doomed_here [] d = tt
  doomed_here (x ∷ xs) d =
      let same = text_eq_refl x.name in
      let gone = absent x xs d.0 in (ground arith, both xs d.0 (doomed_here xs d.1))
    where
      both :
          (ys : Directory)
          → All (λ e. text_eq e.name x.name ≡ false) ys
          → All (λ e. exists (is_doomed e) xs ≡ not (is_kept now days e)) ys
          → All (λ e. exists (is_doomed e) (x ∷ xs) ≡ not (is_kept now days e)) ys
      both [] h k = tt
      both (y ∷ ys) h k =
          let turned : text_eq x.name y.name ≡ false = text_eq_comm x.name y.name ∙ h.0 in
          let rest = k.0 in (ground arith, both ys h.1 k.1)

  remove-Removes :
      (f : Faults) (name : Text) (s : Directory)
      → Ends
          (λ _ t. t ≡ keep (λ e. not (text_eq name e.name)) s)
          (λ _ _. ¬ IsQuiet f)
          (remove f name s)
  unfolding remove
  remove-Removes f name s =
      if_holds (Ends (λ _ t. t ≡ keep (λ e. not (text_eq name e.name)) s) (λ _ _. ¬ IsQuiet f))
        (f.remove name) (λ e. failed (λ q. clash e (q.3 name))) (λ _. done refl)

  remove_each-Removed :
      (f : Faults) (xs : List Snapshot) (s : Directory)
      → Ends
          (λ _ t. t ≡ keep (λ e. not (is_listed xs e)) s)
          (λ _ _. ¬ IsQuiet f)
          (remove_each f now days xs s)
  unfolding remove_each remove exists
  remove_each-Removed f [] s = done (sym (keep_every s))
  remove_each-Removed f (x ∷ xs) s =
      if_holds
        (λ (o : Outcome Directory BackupError (Unit {0})).
          Ends (λ _ t. t ≡ keep (λ e. not (is_listed (x ∷ xs) e)) s) (λ _ _. ¬ IsQuiet f) o)
        (is_old now days x)
        (λ old. then-Ends _ (remove-Removes f x.name s) (λ _ t here.
          Ends-mono (remove_each-Removed f xs t)
            (λ _ u h.
              h
              ∙ ap (keep _) here
              ∙ keep-keep _ _ s
              ∙ keep_cong (λ e. not (text_eq x.name e.name) && not (is_listed xs e)) _ s
                  (All-true s (λ e. ground arith)))
            (λ _ _ faulty. faulty)))
        (λ young.
          Ends-mono (remove_each-Removed f xs s)
            (λ _ t h. h ∙ keep_cong _ _ s (All-true s (λ e. ground arith))) (λ _ _ faulty. faulty))

  read_entries-archives :
      (f : Faults) (es s : Directory)
      → Ends (λ xs t. (xs ≡ archives es) × (t ≡ s)) (λ _ _. ¬ IsQuiet f) (read_entries f es s)
  unfolding read_entries archives keep
  read_entries-archives f [] s = done (refl, refl)
  read_entries-archives f (e ∷ es) s = elim (Bool-cases (is_archive e)) [
    | inr k ↦ rw k (read_entries-archives f es s)
    | inl k ↦ rw k (elim (Bool-cases (f.info e.name)) [
      | inl bad ↦ rw bad (failed (λ q. clash bad (q.2 e.name)))
      | inr good ↦ rw good (
          bind-Ends (read_entries-archives f es s)
            (λ xs t h. done (ap (λ ys. snapshot_of e ∷ ys) h.0, h.1)))
    ])
  ]

  refuse_if-Same :
      (f : Faults) (fault : Bool) (e : BackupError) (s : Directory)
      → (fault ≡ true → ¬ IsQuiet f)
      → Ends (λ _ t. t ≡ s) (λ _ _. ¬ IsQuiet f) (refuse_if fault e s)
  refuse_if-Same f true e s h = failed (h refl)
  refuse_if-Same f false e s h = done refl

  list_snapshots-sorted :
      (f : Faults) (s : Directory)
      → Ends
          (λ xs t. (xs ≡ sort newer (archives s)) × (t ≡ s))
          (λ _ _. ¬ IsQuiet f)
          (list_snapshots f s)
  unfolding list_snapshots
  list_snapshots-sorted f s =
      then-Ends _ (refuse_if-Same f f.mkdir _ s (λ e q. clash e q.0)) (λ _ t h.
        then-Ends _ (refuse_if-Same f f.read_dir _ t (λ e q. clash e q.1)) (λ _ u k.
          bind-Ends (read_entries-archives f t u)
            (λ xs v r. done (ap (sort newer) (r.0 ∙ ap archives h), r.1 ∙ k ∙ h))))

  -- Where the entries of the directory have different names, a prune that succeeds leaves exactly the
  -- directories, the files that are no archives and the archives created less than the retention before
  -- it, in their order; and it fails only where the operating system refuses to create or read the
  -- directory, to describe an archive or to remove one.
  pub prune_old-keep :
      (f : Faults) (s : Directory)
      → Distinct s
      → Ends (λ _ t. t ≡ keep (is_kept now days) s) (λ _ _. ¬ IsQuiet f) (prune_old f now days s)
  unfolding prune_old
  prune_old-keep f s d = bind-Ends (list_snapshots-sorted f s) (λ xs t h.
      Ends-mono (remove_each-Removed f xs t)
        (λ _ u k.
          k
          ∙ ap (keep _) h.1
          ∙ keep_cong _ _ s
              (All-mono s (λ e doomed. listed_kept xs e h.0 doomed) (doomed_here s d)))
        (λ _ _ faulty. faulty))
    where
      listed_kept :
          (xs : List Snapshot) (e : Entry)
          → xs ≡ sort newer (archives s)
          → exists (is_doomed e) s ≡ not (is_kept now days e)
          → not (is_listed xs e) ≡ is_kept now days e
      listed_kept xs e h k =
          let p = λ (x : Snapshot). is_old now days x && text_eq x.name e.name in
          let found : is_listed xs e ≡ not (is_kept now days e) =
            ap (exists p) h ∙ exists-sort p (archives s) ∙ exists-archives p s ∙ k in
          ground arith
