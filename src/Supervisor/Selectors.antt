-- ===== src/Supervisor/Selectors.antt =====
-- src/supervisor.rs: no two USB selectors of profiles that pass may match one device.
use text.Mathlib.TextPositions.{starts_with-append}
use oh_myserial.Common.{
  ℕ, ◌+◌, ◌≡◌, refl, sym, ap, subst, Bool, true, false, not, ◌&&◌, ◌||◌, List, [], ◌∷◌, ◌++◌, All,
  Option, none, some, String, Result, ok, err, str_eq, ◌==◌, ==_iff, eq_iff, arith, OnOk, OnOk-then,
  OnOk-map, OnOk-both, is_ok, is_some, Bool-cases, inl, inr, ◌∙◌,
}
use oh_myserial.Common.Distinct.{contains, contains-append, contains-append_right}
use oh_myserial.Config.{UsbSelector}
use oh_myserial.Common.Text.{◌^^◌, is_blank, starts_with}
use oh_myserial.Common.Map.{lookup}
use oh_myserial.Supervisor.{
  Profile, ProfileError, Resources, normalize_key, usb_key, usb_prefix, or_star, has_prefix, claim,
  claim_usb, claim_profile, claim_profiles,
}
use oh_myserial.Supervisor.Adding.{
  keys, Adds, claim_if-Adds, claim_profile-Adds, usb_keys, profile_keys,
}

-- The selectors may match one device: the same product, unless two serial numbers tell them apart.
abbrev pub overlaps : UsbSelector → UsbSelector → Bool
overlaps u v =
    (u.vid == v.vid)
    && (u.pid == v.pid)
    && (not (is_some u.serial_number)
        || not (is_some v.serial_number)
        || str_eq (normalize_key (or_star u.serial_number))
            (normalize_key (or_star v.serial_number)))

lookup-contains :
    (key : String) (r : Resources) → contains key (keys r) ≡ true → is_some (lookup key r) ≡ true
unfolding lookup
lookup-contains key [] h = ground arith
lookup-contains key ((k, o) ∷ r) h = elim (Bool-cases (str_eq k key)) [
  | inl same ↦ rw same refl
  | inr other ↦ rw other (lookup-contains key r (ground (arith, h, other)))
]

has_prefix-contains :
    (prefix rest : String) (r : Resources)
    → contains (prefix ^^ rest) (keys r) ≡ true
    → has_prefix prefix r ≡ true
unfolding has_prefix
has_prefix-contains prefix rest [] h = ground arith
has_prefix-contains prefix rest ((k, o) ∷ r) h = elim (Bool-cases (str_eq k (prefix ^^ rest))) [
  | inl same ↦ ground (
    arith,
    ap (λ z. starts_with z prefix) ((eq_iff k (prefix ^^ rest)).0 same),
    starts_with-append prefix rest,
  )
  | inr other ↦
      ground (arith, h, other, has_prefix-contains prefix rest r (ground (arith, h, other)))
]

claim-contains :
    (r : Resources) (key owner : String)
    → contains key (keys r) ≡ true
    → is_ok (claim r key owner) ≡ false
unfolding claim
claim-contains r key owner h = ground (arith, lookup-contains key r h)

usb_prefix-overlaps : (u v : UsbSelector) → overlaps u v ≡ true → usb_prefix u ≡ usb_prefix v
unfolding usb_prefix
usb_prefix-overlaps u v h =
    ap (λ n. usb_prefix (record u { vid = n })) ((==_iff u.vid v.vid).0 (ground (arith, h)))
    ∙ ap (λ n. usb_prefix (record u { vid = v.vid; pid = n }))
        ((==_iff u.pid v.pid).0 (ground (arith, h)))

star : (o : Option String) → is_some o ≡ false → normalize_key (or_star o) ≡ "*"
unfolding normalize_key or_star is_blank
star none h = refl
star (some serial) h = ground (arith, h)

moved :
    (u v : UsbSelector) (rest : String) (r : Resources)
    → overlaps u v ≡ true
    → normalize_key (or_star u.serial_number) ≡ rest
    → contains (usb_key u) (keys r) ≡ true
    → contains (usb_prefix v ^^ rest) (keys r) ≡ true
moved u v rest r o e h =
    subst (λ z. contains (usb_prefix v ^^ z) (keys r) ≡ true) e
      (subst (λ z. contains (z ^^ normalize_key (or_star u.serial_number)) (keys r) ≡ true)
        (usb_prefix-overlaps u v o) h)

claim_usb-refused :
    (label : String) (u v : UsbSelector) (r : Resources)
    → contains (usb_key u) (keys r) ≡ true
    → overlaps u v ≡ true
    → is_ok (claim_usb label (some v) r) ≡ false
unfolding claim_usb
claim_usb-refused label u v r h o = elim (Bool-cases (is_some v.serial_number)) [
  | inr wild ↦ ground (
    arith,
    wild,
    has_prefix-contains (usb_prefix v) (normalize_key (or_star u.serial_number)) r
        (moved u v _ r o refl h),
  )
  | inl exact ↦ elim (Bool-cases (is_some u.serial_number)) [
    | inr wild ↦ ground (
      arith,
      exact,
      lookup-contains (usb_prefix v ^^ "*") r (moved u v "*" r o (star u.serial_number wild) h),
    )
    | inl both ↦ ground (
      arith,
      exact,
      claim-contains r (usb_key v) (label ^^ " real.usb") (
          moved u v _ r o
            ((eq_iff (normalize_key (or_star u.serial_number))
                (normalize_key (or_star v.serial_number))).0
              (ground (arith, o, exact, both)))
            h),
    )
  ]
]

-- The selectors of a profile, none or one, do not overlap with this one.
abbrev pub IsApart : UsbSelector → Option UsbSelector → Type 0
IsApart u none = Unit
IsApart u (some v) = overlaps u v ≡ false

OnOk-refused :
    (m : Result Resources ProfileError) (P : Type 0) → (is_ok m ≡ true → P) → OnOk m (λ behind. P)
OnOk-refused (ok r) P h = h refl
OnOk-refused (err e) P h = tt

claim_usb-IsApart :
    (label : String) (u : UsbSelector) (o : Option UsbSelector) (r : Resources)
    → contains (usb_key u) (keys r) ≡ true
    → OnOk (claim_usb label o r) (λ behind. IsApart u o)
claim_usb-IsApart label u none r h = OnOk-refused (claim_usb label none r) Unit (λ e. tt)
claim_usb-IsApart label u (some v) r h =
    OnOk-refused (claim_usb label (some v) r) (overlaps u v ≡ false) (λ e.
      elim (Bool-cases (overlaps u v)) [
        | inl same ↦ ground (arith, e, claim_usb-refused label u v r h same)
        | inr apart ↦ apart
      ])

-- A claimed key stays claimed.
Adds-contains :
    (key : String) (ks : List String) (r : Resources) (m : Result Resources ProfileError)
    → contains key (keys r) ≡ true
    → Adds ks r m
    → OnOk m (λ behind. contains key (keys behind) ≡ true)
Adds-contains key ks r (ok behind) h a =
    subst (λ z. contains key z ≡ true) (sym a.0) (contains-append key (keys r) ks h)
Adds-contains key ks r (err e) h a = tt

-- The key of a selector, if there is one, is claimed.
abbrev HasKey : Option UsbSelector → List String → Type 0
HasKey none ks = Unit
HasKey (some u) ks = contains (usb_key u) ks ≡ true

HasKey-append : (o : Option UsbSelector) (ks ls : List String) → HasKey o ls → HasKey o (ks ++ ls)
HasKey-append none ks ls h = tt
HasKey-append (some u) ks ls h = contains-append_right (usb_key u) ks ls h

own_key :
    (o : Option UsbSelector) (before behind : List String)
    → HasKey o (before ++ (usb_keys o ++ behind))
own_key none before behind = tt
own_key (some u) before behind =
    contains-append_right (usb_key u) before (usb_key u ∷ behind)
      (ground (arith, eq_iff (usb_key u) (usb_key u)))

-- No selector of the profiles overlaps with this one.
abbrev pub ApartFrom : Option UsbSelector → List Profile → Type 0
ApartFrom none profiles = Unit
ApartFrom (some u) profiles = All (λ p. IsApart u p.real_usb) profiles

-- No two profiles have selectors that overlap.
abbrev pub AreApart : List Profile → Type 0
AreApart [] = Unit
AreApart (p ∷ profiles) = ApartFrom p.real_usb profiles × AreApart profiles

module _ (absolute : String → String) where
  claim_profile-IsApart :
      (label : String) (u : UsbSelector) (p : Profile) (r : Resources)
      → contains (usb_key u) (keys r) ≡ true
      → OnOk (claim_profile absolute label p r) (λ behind. IsApart u p.real_usb)
  unfolding claim_profile
  claim_profile-IsApart label u p r h =
      OnOk-then (λ behind. contains (usb_key u) (keys behind) ≡ true)
        (λ behind. IsApart u p.real_usb) _ _
        (Adds-contains (usb_key u) _ r _ h (claim_if-Adds _ _ _ r))
        (λ r1 h1.
          OnOk-then (λ behind. IsApart u p.real_usb) (λ behind. IsApart u p.real_usb) _ _
            (claim_usb-IsApart label u p.real_usb r1 h1)
            (λ r2 apart. OnOk-refused _ (IsApart u p.real_usb) (λ e. apart)))

  claim_profile-kept :
      (label : String) (u : UsbSelector) (p : Profile) (r : Resources)
      → contains (usb_key u) (keys r) ≡ true
      → OnOk
          (claim_profile absolute label p r)
          (λ behind. IsApart u p.real_usb × (contains (usb_key u) (keys behind) ≡ true))
  claim_profile-kept label u p r h =
      OnOk-both (λ behind. IsApart u p.real_usb)
        (λ behind. contains (usb_key u) (keys behind) ≡ true) (claim_profile absolute label p r)
        (claim_profile-IsApart label u p r h)
        (Adds-contains (usb_key u) (profile_keys absolute p) r _ h
          (claim_profile-Adds absolute label p r))

  claim_profiles-ApartFrom :
      (index : ℕ) (u : UsbSelector) (profiles : List Profile) (r : Resources)
      → contains (usb_key u) (keys r) ≡ true
      → OnOk (claim_profiles absolute index profiles r) (λ behind. ApartFrom (some u) profiles)
  unfolding claim_profiles
  claim_profiles-ApartFrom index u [] r h = tt
  claim_profiles-ApartFrom index u (p ∷ profiles) r h =
      OnOk-then (λ behind. IsApart u p.real_usb × (contains (usb_key u) (keys behind) ≡ true))
        (λ behind. ApartFrom (some u) (p ∷ profiles)) _ _ (claim_profile-kept _ u p r h)
        (λ r1 g.
          OnOk-map (λ behind. ApartFrom (some u) profiles)
            (λ behind. ApartFrom (some u) (p ∷ profiles))
            (claim_profiles absolute (index + 1) profiles r1) (λ r2 rest. (g.0, rest))
            (claim_profiles-ApartFrom (index + 1) u profiles r1 g.1))

  profile-HasKey :
      (p : Profile) (r : Resources) (m : Result Resources ProfileError)
      → Adds (profile_keys absolute p) r m
      → OnOk m (λ behind. HasKey p.real_usb (keys behind))
  profile-HasKey p r (err e) a = tt
  profile-HasKey p r (ok behind) a =
      subst (HasKey p.real_usb) (sym a.0)
        (HasKey-append p.real_usb (keys r) (profile_keys absolute p) (own_key p.real_usb _ _))

  from_own :
      (index : ℕ) (o : Option UsbSelector) (profiles : List Profile) (r : Resources)
      → HasKey o (keys r)
      → OnOk (claim_profiles absolute index profiles r) (λ behind. ApartFrom o profiles)
  from_own index none profiles r h =
      OnOk-refused (claim_profiles absolute index profiles r) Unit (λ e. tt)
  from_own index (some u) profiles r h = claim_profiles-ApartFrom index u profiles r h

  pub claim_profiles-AreApart :
      (index : ℕ) (profiles : List Profile) (r : Resources)
      → OnOk (claim_profiles absolute index profiles r) (λ behind. AreApart profiles)
  unfolding claim_profiles
  claim_profiles-AreApart index [] r = tt
  claim_profiles-AreApart index (p ∷ profiles) r =
      OnOk-then (λ behind. HasKey p.real_usb (keys behind)) (λ behind. AreApart (p ∷ profiles)) _ _
        (profile-HasKey p r _ (claim_profile-Adds absolute _ p r))
        (λ r1 h.
          OnOk-both (λ behind. ApartFrom p.real_usb profiles) (λ behind. AreApart profiles)
            (claim_profiles absolute (index + 1) profiles r1)
            (from_own (index + 1) p.real_usb profiles r1 h)
            (claim_profiles-AreApart (index + 1) profiles r1))
