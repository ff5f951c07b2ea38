-- ===== src/Purge/Safety.antt =====
-- What has been called before anything is deleted.
use houba.Common.{String, ◌≡◌, ◌⊎◌, inr, none, [], ◌∷◌}
use houba.Common.Int.{ℤ}
use houba.Errors.{Result, ok}
use houba.IsoTime.{IsoFormat}
use houba.Session.{
  Call, History, Ports, ImageInfo, UsageQuery, UsageObservation, inspected, asked, deleted_referrer,
  deleted_tag,
}
use houba.Session.Keeps.{Keeps}
use houba.Purge.{PurgeDecision, purge, PurgeOutcome}

module _ (ports : Ports) (since : ℤ) where
  -- The two latest calls inspected an image and asked for the usage of its digest since the
  -- start of the window, and the oracle answered that there was none.
  pub record IsUnused (image_ref : String) (h : History) : Type 0 where
    pub older : History
    pub query : UsageQuery
    pub info : ImageInfo
    pub observation : UsageObservation
    pub calls : h ≡ asked query ∷ inspected image_ref ∷ older
    pub resolved : ports.inspect older image_ref ≡ ok info
    pub same_digest : query.digest ≡ info.digest
    pub window : query.since ≡ since
    pub answered : ports.last_prod_usage (inspected image_ref ∷ older) query ≡ ok observation
    pub unseen : observation.last_seen ≡ none

  -- Before a tag is deleted, its mark was deleted, and before that it was found unused.
  pub record IsTagAllowed (image_ref : String) (h : History) : Type 0 where
    pub older : History
    pub referrer_ref : String
    pub calls : h ≡ deleted_referrer referrer_ref ∷ older
    pub mark_gone : ports.delete_referrer older referrer_ref ≡ ok tt
    pub unused : IsUnused image_ref older

  abbrev pub IsAllowed : Call → History → Type 0
  IsAllowed (deleted_tag image_ref) h = IsTagAllowed image_ref h
  IsAllowed (deleted_referrer referrer_ref) h = (image_ref : String) × IsUnused image_ref h
  IsAllowed _ h = Unit

  -- Every deletion was allowed by the calls before it.
  unfoldable pub IsSafe : History → Type 0
  IsSafe [] = Unit
  IsSafe (call ∷ h) = IsAllowed call h × IsSafe h

  -- What the judgement leaves behind: `purge` only if the image was found unused.
  abbrev IsJudged : String → Result (PurgeDecision × String) × History → Type 0
  IsJudged image_ref (ok (purge, reason), h) = IsSafe h × IsUnused image_ref h
  IsJudged image_ref (_, h) = IsSafe h

  module _ (time : IsoFormat) (label_prefix : String) where
    -- What the inspection leaves behind: the digest that the image has.
    abbrev IsInspected : String → Result (PurgeOutcome ⊎ String) × History → Type 0
    IsInspected image_ref (ok (inr digest), h) =
        (older : History) × (info : ImageInfo) × (digest ≡ info.digest)
        × (h ≡ inspected image_ref ∷ older)
        × (ports.inspect older image_ref ≡ ok info)
        × IsSafe older
    IsInspected image_ref (_, h) = IsSafe h
