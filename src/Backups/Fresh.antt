-- ===== src/Backups/Fresh.antt =====
-- The snapshot that `RunNow` makes (internal/backups/service.go).
use caddytower.Prelude.{
  ℕ, ◌+◌, ◌*◌, ◌<◌, ◌≡◌, ◌≢◌, refl, ap, ◌∙◌, Bool, true, false, not, Option, none, some, List, [],
  ◌∷◌, All, keep, find_first, if_holds, arith,
}
use caddytower.Prelude.Sorting.{sort}
use caddytower.Prelude.Effects.{Ends, done, failed, bind-Ends, then-Ends, Ends-mono}
use caddytower.Prelude.Texts.{Text, codes, text_eq, text_lt, text_eq_comm, text_eq_refl}
use caddytower.Backups.{
  Entry, Directory, BackupError, Faults, Backups, Run, refuse_if, snapshot_of, day, prune_old,
  dumped, engine_files, archive_of, archive_directory, archive_name, entry_of, stated, run_now,
}
use caddytower.Backups.Retention.{Distinct, IsQuiet, clash, is_kept, prune_old-keep}

-- The entries of other names.
abbrev pub others : Text → Directory → Directory
others name s = keep (λ e. not (text_eq name e.name)) s

keep-All : (P : Entry → Type 0) (p : Entry → Bool) (xs : Directory) → All P xs → All P (keep p xs)
unfolding keep
keep-All P p [] h = tt
keep-All P p (x ∷ xs) h =
    if_holds (All P) (p x) (λ _. (h.0, keep-All P p xs h.1)) (λ _. keep-All P p xs h.1)

keep-Distinct : (p : Entry → Bool) (xs : Directory) → Distinct xs → Distinct (keep p xs)
unfolding keep
keep-Distinct p [] d = tt
keep-Distinct p (x ∷ xs) d =
    if_holds Distinct (p x)
      (λ _. (keep-All (λ e. text_eq e.name x.name ≡ false) p xs d.0, keep-Distinct p xs d.1))
      (λ _. keep-Distinct p xs d.1)

others-differ :
    (name : Text) (s : Directory) → All (λ e. text_eq e.name name ≡ false) (others name s)
unfolding keep
others-differ name [] = tt
others-differ name (e ∷ es) =
    let turned = text_eq_comm name e.name in
    if_holds (All (λ x. text_eq x.name name ≡ false)) (not (text_eq name e.name))
      (λ k. (ground arith, others-differ name es)) (λ _. others-differ name es)

module _ (f : Faults) (r : Run) (days : ℕ) (s : Directory) where
  -- The directory after a run: the archive first, then what the retention keeps of the other entries.
  abbrev pub after_run : List Text → Directory
  after_run files =
      archive_of r (archive_name r) files
      ∷ keep (is_kept r.pruned_at days) (others (archive_name r) s)

  -- Nothing that a run needs is refused, and the engines are dumped.
  abbrev pub IsSmooth : Type 0
  IsSmooth =
      IsQuiet f
      × (f.mkdir_temp ≡ false)
      × (f.vacuum ≡ false)
      × (f.write_file ≡ false)
      × (r.archive_fails ≡ false)
      × (r.dumps ≢ none)

  refuse_if-Same :
      (fault : Bool) (e : BackupError) (t : Directory)
      → (IsSmooth → fault ≡ false)
      → Ends (λ _ u. u ≡ t) (λ _ _. ¬ IsSmooth) (refuse_if fault e t)
  refuse_if-Same true e t h = failed (λ q. clash refl (h q))
  refuse_if-Same false e t h = done refl

  dumped-Same :
      (o : Option (List Text)) (t : Directory)
      → r.dumps ≡ o
      → Ends (λ _ u. u ≡ t) (λ _ _. ¬ IsSmooth) (dumped o t)
  dumped-Same none t e = failed (λ q. q.5 e)
  dumped-Same (some files) t e = done refl

  engine_files-Same : (t : Directory) → Ends (λ _ u. u ≡ t) (λ _ _. ¬ IsSmooth) (engine_files r t)
  engine_files-Same t =
      if_holds (λ (m : Backups (List Text)). Ends (λ _ u. u ≡ t) (λ _ _. ¬ IsSmooth) (m t))
        r.include_dumps (λ _. dumped-Same r.dumps t refl) (λ _. done refl)

  archive_directory-Same :
      (name : Text) (files : List Text) (t : Directory)
      → Ends
          (λ _ u. u ≡ archive_of r name files ∷ others name t)
          (λ _ _. ¬ IsSmooth)
          (archive_directory r name files t)
  unfolding archive_directory
  archive_directory-Same name files t =
      if_holds (Ends (λ _ u. u ≡ archive_of r name files ∷ others name t) (λ _ _. ¬ IsSmooth))
        r.archive_fails (λ e. failed (λ q. clash e q.4)) (λ _. done refl)

  -- The archive is young enough to stay.
  kept_first :
      (files : List Text)
      → r.pruned_at < r.archived_at + days * day
      → keep
          (is_kept r.pruned_at days)
          (archive_of r (archive_name r) files ∷ others (archive_name r) s)
        ≡ after_run files
  unfolding keep
  kept_first files h =
      let young : is_kept r.pruned_at days (archive_of r (archive_name r) files) ≡ true =
        ground arith in
      rw young refl

  found_first :
      (files : List Text)
      → entry_of (archive_name r) (after_run files) ≡ some (archive_of r (archive_name r) files)
  unfolding entry_of find_first
  found_first files = rw (text_eq_refl (archive_name r)) refl

  pruned :
      (files : List Text) (t : Directory)
      → Distinct s
      → r.pruned_at < r.archived_at + days * day
      → t ≡ archive_of r (archive_name r) files ∷ others (archive_name r) s
      → Ends (λ _ u. u ≡ after_run files) (λ _ _. ¬ IsSmooth) (prune_old f r.pruned_at days t)
  pruned files t d young e =
      let distinct : Distinct (archive_of r (archive_name r) files ∷ others (archive_name r) s) =
        (others-differ (archive_name r) s, keep-Distinct _ s d) in
      rw e (
        Ends-mono (prune_old-keep r.pruned_at days f _ distinct)
          (λ _ u h. h ∙ kept_first files young) (λ _ _ faulty q. faulty q.0))

  stated_first :
      (e : BackupError) (files : List Text) (t u : Directory)
      → t ≡ after_run files
      → u ≡ after_run files
      → Ends
          (λ snapshot v.
            (fs : List Text) × (v ≡ after_run fs)
            × (snapshot ≡ snapshot_of (archive_of r (archive_name r) fs)))
          (λ _ _. ¬ IsSmooth)
          (stated e (entry_of (archive_name r) t) u)
  stated_first e files t u h k = rw (h, found_first files) (done (files, k, refl))

  -- Where the names in the directory differ and the archive is younger than the retention when the prune
  -- reads the clock, a run that succeeds leaves the new archive and, of the other entries, exactly those
  -- that the retention keeps, and it answers with the new archive; and it fails only where the operating
  -- system, a dump or the archive fails.
  pub run_now-keep :
      Distinct s
      → r.pruned_at < r.archived_at + days * day
      → Ends
          (λ snapshot t.
            (files : List Text) × (t ≡ after_run files)
            × (snapshot ≡ snapshot_of (archive_of r (archive_name r) files)))
          (λ _ _. ¬ IsSmooth)
          (run_now f r days s)
  unfolding run_now
  run_now-keep d young = then-Ends _ (refuse_if-Same f.mkdir _ s (λ q. q.0.0)) λ _ s1 h1.
      then-Ends _ (refuse_if-Same f.mkdir_temp _ s1 (λ q. q.1)) λ _ s2 h2.
        then-Ends _ (refuse_if-Same f.vacuum _ s2 (λ q. q.2)) λ _ s3 h3.
          bind-Ends (engine_files-Same s3) λ files s4 h4.
            then-Ends _ (refuse_if-Same f.write_file _ s4 (λ q. q.3)) λ _ s5 h5.
              let whole = sort text_lt (codes "state.db" ∷ files) in
              then-Ends _ (archive_directory-Same (archive_name r) whole s5) λ _ s6 h6.
                let start = h5 ∙ h4 ∙ h3 ∙ h2 ∙ h1 in
                let here =
                  h6
                  ∙ ap (λ u. archive_of r (archive_name r) whole ∷ others (archive_name r) u)
                      start in
                then-Ends _ (pruned whole s6 d young here) λ _ s7 h7.
                  then-Ends _
                    (refuse_if-Same (f.info (archive_name r)) _ s7 (λ q. q.0.2 (archive_name r)))
                    λ _ s8 h8. stated_first _ whole s7 s8 h7 (h8 ∙ h7)
