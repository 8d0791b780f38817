-- ===== src/Supervisor/Collisions.antt =====
-- src/supervisor.rs: profiles that pass claim distinct resources.
use oh_myserial.Common.{◌≡◌, subst, List, [], String, ok, OnOk}
use oh_myserial.Common.Distinct.{AreDistinct}
use oh_myserial.Supervisor.{Profile, Resources, claim_profiles}
use oh_myserial.Supervisor.Adding.{keys, Adds, profiles_keys, claim_profiles-Adds}
use oh_myserial.Supervisor.Selectors.{AreApart, claim_profiles-AreApart}

module _ (absolute : String → String) where
  -- If the claims of all profiles succeed, no two of them are on the same real port, listener, ledger
  -- directory or PTY link: the normalized keys are distinct, and the result lists exactly these
  -- keys in order. Nor may two USB selectors match one device: where vendor and product agree, both
  -- have a serial number, and the normalized serial numbers differ.
  pub claim_profiles-AreDistinct :
      (profiles : List Profile) (claimed : Resources)
      → claim_profiles absolute 0 profiles [] ≡ ok claimed
      → (keys claimed ≡ profiles_keys absolute profiles)
        × AreDistinct (profiles_keys absolute profiles)
        × AreApart profiles
  claim_profiles-AreDistinct profiles claimed accepted =
      let added =
        subst (Adds (profiles_keys absolute profiles) []) accepted
          (claim_profiles-Adds absolute 0 profiles []) in
      (
        added.0,
        subst AreDistinct added.0 (added.1 tt),
        subst (λ m. OnOk m (λ behind. AreApart profiles)) accepted
            (claim_profiles-AreApart absolute 0 profiles []),
      )
