-- ===== src/Gc/Safety.antt =====
-- What is deleted, and on which grounds.
use houba.Common.{
  ℕ, String, true, false, ◌≡◌, refl, sym, ap, ◌∙◌, inl, inr, Option, none, some, List, [], ◌∷◌,
  ◌++◌, arith,
}
use houba.Common.Int.{ℤ, scale}
use houba.Common.Keys.{◌⊕◌}
use houba.Common.Eq.{elem, string_eq}
use houba.Errors.{error_of, Result, ok, raise, Result-cases}
use houba.Config.{Roster}
use houba.Purge.{PurgeMode, apply, dry_run, day}
use houba.Session.{
  Call, History, Ports, Io, Done, Referrer, listed_referrers, deleted_referrer, deleted_tag, pure,
  ◌>>=◌, continue_with,
}
use houba.Session.Keeps.{Keeps, Keeps-bind, Keeps-walk_targets, KeepsWalk, bind_at, try_at}
use houba.Gc.{
  GcOutcome, scan_result_artifact_type, delete_all, superseded, outcome_of, delete_or_report,
  process_listed, process, process_image, gc_over, gc_referrers, failed_to_list,
}

module _ (fromisoformat : String → Option ℕ) (label_prefix : String) (keep older_than : ℤ) (now : ℕ)
    (ports : Ports) where
  -- An earlier listing of an image's scan results had this referrer as superseded.
  pub record IsGarbage (referrer_ref : String) (h : History) : Type 0 where
    pub repo_ref : String
    pub image_ref : String
    pub digest : String
    pub referrers : List Referrer
    pub older : History
    pub later : History
    pub named : referrer_ref ≡ repo_ref ⊕ ("@" ⊕ digest)
    pub calls : h ≡ later ++ listed_referrers image_ref scan_result_artifact_type ∷ older
    pub answered : ports.list_referrers older image_ref scan_result_artifact_type ≡ ok referrers
    pub collected :
        elem digest (superseded fromisoformat label_prefix keep older_than now referrers) ≡ true

  abbrev pub IsAllowed : Call → History → Type 0
  IsAllowed (deleted_referrer referrer_ref) h = IsGarbage referrer_ref h
  IsAllowed (deleted_tag image_ref) h = ⊥
  IsAllowed _ h = Unit

  unfoldable pub IsTidy : History → Type 0
  IsTidy [] = Unit
  IsTidy (call ∷ h) = IsAllowed call h × IsTidy h

  KeepsWalk-IsTidy : KeepsWalk IsTidy
  unfolding IsTidy
  KeepsWalk-IsTidy = record {
    configuring = λ host tls ca h p. (tt, p);
    login = λ host user pass tls h p. (tt, p);
    catalog = λ host h p. (tt, p);
    tags = λ repo h p. (tt, p);
  }

  module _ (repo_ref image_ref : String) (referrers : List Referrer) (older : History)
      (answered : ports.list_referrers older image_ref scan_result_artifact_type
        ≡ ok referrers) where
    listing : History
    listing = listed_referrers image_ref scan_result_artifact_type ∷ older

    delete_all-IsTidy :
        (digests : List String) (later : History)
        → ((d : String)
            → elem d digests ≡ true
            → elem d (superseded fromisoformat label_prefix keep older_than now referrers) ≡ true)
        → IsTidy (later ++ listing)
        → IsTidy (delete_all ports repo_ref digests (later ++ listing)).1
    unfolding delete_all IsTidy listing elem ◌>>=◌ continue_with
    delete_all-IsTidy [] later f p = p
    delete_all-IsTidy (d ∷ digests) later f p =
        let ref = repo_ref ⊕ ("@" ⊕ d) in
        let garbage : IsGarbage ref (later ++ listing) = record {
          repo_ref = repo_ref;
          image_ref = image_ref;
          digest = d;
          referrers = referrers;
          older = older;
          later = later;
          named = refl;
          calls = refl;
          answered = answered;
          collected = f d (ground (arith, string_eq.beq_iff d d));
        } in
        elim (Result-cases (ports.delete_referrer (later ++ listing) ref)) [
          | inl (done, gone) ↦ rw gone (
              delete_all-IsTidy digests (deleted_referrer ref ∷ later) (λ e h. f e (ground arith))
                (garbage, p))
          | inr (exc, failed) ↦ rw failed (garbage, p)
        ]

    delete_or_report-IsTidy :
        (mode : PurgeMode) (digests : List String)
        → digests ≡ superseded fromisoformat label_prefix keep older_than now referrers
        → IsTidy listing
        → IsTidy
            (delete_or_report fromisoformat label_prefix keep older_than now ports repo_ref
              image_ref referrers mode digests listing).1
    delete_or_report-IsTidy dry_run [] e p = p
    delete_or_report-IsTidy dry_run (d ∷ digests) e p = p
    delete_or_report-IsTidy apply [] e p = p
    delete_or_report-IsTidy apply (d ∷ digests) e p =
        let report =
          outcome_of fromisoformat label_prefix keep older_than now image_ref referrers in
        let done : Done → Io GcOutcome = λ all_gone. pure (report true none) in
        try_at IsTidy (delete_all ports repo_ref (d ∷ digests) >>= done)
          (λ exc. report false (some (error_of exc))) listing
          (bind_at IsTidy (delete_all ports repo_ref (d ∷ digests)) done listing
            (delete_all-IsTidy (d ∷ digests) [] (λ x h. ap (elem x) (sym e) ∙ h) p) (λ gone k q. q))

  process_listed-IsTidy :
      (mode : PurgeMode) (repo_ref image_ref : String) (older : History)
      → IsTidy older
      → (answer : Result (List Referrer))
      → ports.list_referrers older image_ref scan_result_artifact_type ≡ answer
      → IsTidy
          (process_listed fromisoformat label_prefix keep older_than now ports mode repo_ref
            image_ref answer
            (listed_referrers image_ref scan_result_artifact_type ∷ older)).1
  unfolding IsTidy listing
  process_listed-IsTidy mode repo_ref image_ref older p (raise exc) e =
      try_at IsTidy (λ h. (raise exc, h)) (failed_to_list image_ref) _ (tt, p)
  process_listed-IsTidy mode repo_ref image_ref older p (ok referrers) e =
      delete_or_report-IsTidy repo_ref image_ref referrers older e mode _ refl (tt, p)

  process_image-IsTidy :
      (mode : PurgeMode) (repo_ref image_ref : String)
      → Keeps IsTidy (
          process_image fromisoformat label_prefix keep older_than now ports mode repo_ref
            image_ref)
  unfolding process
  process_image-IsTidy mode repo_ref image_ref =
      let outcome_at =
        process fromisoformat label_prefix keep older_than now ports mode repo_ref image_ref in
      Keeps-bind IsTidy outcome_at (λ outcome. pure (outcome ∷ []))
        (λ h p.
          process_listed-IsTidy mode repo_ref image_ref h p
            (ports.list_referrers h image_ref scan_result_artifact_type) refl)
        (λ outcome h p. p)

-- Whatever the registry answers, a run deletes no tag, and deletes a referrer only if an earlier
-- listing in the same history showed it among the scan results of an image that are superseded.
pub gc_referrers-IsTidy :
    (fromisoformat : String → Option ℕ) (ports : Ports) (roster : Roster)
    (only_registry : Option String) (label_prefix : String) (keep older_than_days : ℤ) (now : ℕ)
    (mode : PurgeMode) (h : History)
    → IsTidy fromisoformat label_prefix keep (scale older_than_days day) now ports h
    → IsTidy fromisoformat label_prefix keep
        (scale older_than_days day)
        now
        ports
        (gc_referrers fromisoformat ports roster only_registry label_prefix keep older_than_days now
          mode h).1
unfolding gc_referrers gc_over
gc_referrers-IsTidy fromisoformat ports roster only_registry label_prefix keep older_than_days now
      mode =
    let older_than = scale older_than_days day in
    let IsTidyHere = IsTidy fromisoformat label_prefix keep older_than now ports in
    Keeps-bind IsTidyHere _ _
      (Keeps-walk_targets IsTidyHere ports
        (KeepsWalk-IsTidy fromisoformat label_prefix keep older_than now ports)
        (process_image fromisoformat label_prefix keep older_than now ports mode)
        (process_image-IsTidy fromisoformat label_prefix keep older_than now ports mode)
        only_registry roster)
      (λ outcomes h p. p)
