-- ===== src/Supervisor/Adding.antt =====
-- src/supervisor.rs: the keys that the claims add to the claimed resources.
use oh_myserial.Common.{
  ℕ, ◌+◌, ◌≡◌, ◌∙◌, refl, sym, ap, subst, Bool, true, false, not, ◌&&◌, ◌||◌, List, [], ◌∷◌, ◌++◌,
  Option, none, some, String, Result, ok, err, ◌>>=◌, str_eq, arith, OnOk, is_some, Bool-cases,
  Option-cases, inl, inr,
}
use mathlib.Core.List.{append_assoc, append-nil}
use oh_myserial.Common.Distinct.{contains, AreDistinct, AreDistinct-last}
use oh_myserial.Config.{UsbSelector, ClientConfig, pty, tcp, websocket}
use oh_myserial.Common.Text.{◌^^◌}
use oh_myserial.Common.Map.{lookup, insert}
use oh_myserial.Supervisor.{
  Profile, ProfileError, collision, Resources, normalize_key, normalize_path, usb_key, usb_prefix,
  has_prefix, claim, claim_usb, claim_if, claim_directory, claim_client, claim_clients, is_device,
  claim_profile, claim_profiles,
}

abbrev pub keys : Resources → List String
keys [] = []
keys ((key, owner) ∷ resources) = key ∷ keys resources

keys-insert :
    (key owner : String) (r : Resources)
    → lookup key r ≡ none
    → (keys (insert key owner r) ≡ keys r ++ key ∷ []) × (contains key (keys r) ≡ false)
unfolding lookup insert
keys-insert key owner [] h = (refl, refl)
keys-insert key owner ((k, o) ∷ r) h = elim (Bool-cases (str_eq k key)) [
  | inl same ↦ ground (arith, h, same)
  | inr other ↦
      let rest = keys-insert key owner r (ground (arith, h, other)) in
      (rw other (ap (λ z. k ∷ z) rest.0), rw other rest.1)
]

-- A step adds these keys and keeps the keys distinct.
abbrev pub Adds : List String → Resources → Result Resources ProfileError → Type 0
Adds ks r m =
    OnOk m
      (λ behind. (keys behind ≡ keys r ++ ks) × (AreDistinct (keys r) → AreDistinct (keys behind)))

Adds-nothing : (r : Resources) → Adds [] r (ok r)
Adds-nothing r = (sym (append-nil (keys r)), λ d. d)

Adds-after :
    (ks ls : List String) (r behind : Resources) (m : Result Resources ProfileError)
    → (keys behind ≡ keys r ++ ks) × (AreDistinct (keys r) → AreDistinct (keys behind))
    → Adds ls behind m
    → Adds (ks ++ ls) r m
Adds-after ks ls r behind (err e) first next = tt
Adds-after ks ls r behind (ok last) first next =
    (next.0 ∙ (ap (λ z. z ++ ls) first.0 ∙ append_assoc (keys r) ks ls), λ d. next.1 (first.1 d))

Adds-bind :
    (ks ls : List String) (r : Resources) (m : Result Resources ProfileError)
    (f : Resources → Result Resources ProfileError)
    → Adds ks r m
    → ((behind : Resources) → Adds ls behind (f behind))
    → Adds (ks ++ ls) r (m >>= f)
Adds-bind ks ls r (err e) f first next = tt
Adds-bind ks ls r (ok behind) f first next =
    Adds-after ks ls r behind (f behind) first (next behind)

claim-fresh :
    (r : Resources) (key owner : String)
    → lookup key r ≡ none
    → claim r key owner ≡ ok (insert key owner r)
unfolding claim
claim-fresh r key owner fresh =
    ap
      (λ z. elim z [
        | none ↦ ok (insert key owner r)
        | some previous ↦ err (collision owner previous)
      ])
      fresh

claim-taken :
    (r : Resources) (key owner previous : String)
    → lookup key r ≡ some previous
    → claim r key owner ≡ err (collision owner previous)
unfolding claim
claim-taken r key owner previous taken =
    ap (λ z. elim z [ none ↦ ok (insert key owner r) | some before ↦ err (collision owner before) ])
      taken

claim-Adds : (r : Resources) (key owner : String) → Adds (key ∷ []) r (claim r key owner)
claim-Adds r key owner = elim (Option-cases (lookup key r)) [
  | inl fresh ↦
      let added = keys-insert key owner r fresh in
      subst (Adds (key ∷ []) r) (sym (claim-fresh r key owner fresh))
        (added.0, λ d. subst AreDistinct (sym added.0) (AreDistinct-last key (keys r) d added.1))
  | inr taken ↦ subst (Adds (key ∷ []) r) (sym (claim-taken r key owner taken.0 taken.1)) tt
]

-- The keys that a profile claims, if the claims succeed.
abbrev pub key_if : Bool → String → List String
key_if true key = key ∷ []
key_if false key = []

pub claim_if-Adds :
    (wanted : Bool) (key owner : String) (r : Resources)
    → Adds (key_if wanted key) r (claim_if wanted key owner r)
unfolding claim_if
claim_if-Adds true key owner r = claim-Adds r key owner
claim_if-Adds false key owner r = Adds-nothing r

abbrev pub usb_keys : Option UsbSelector → List String
usb_keys none = []
usb_keys (some u) = usb_key u ∷ []

pub claim_usb-Adds :
    (label : String) (u : Option UsbSelector) (r : Resources)
    → Adds (usb_keys u) r (claim_usb label u r)
unfolding claim_usb
claim_usb-Adds label none r = Adds-nothing r
claim_usb-Adds label (some u) r =
    let last = claim-Adds r (usb_key u) (label ^^ " real.usb") in
    elim (Bool-cases (not (is_some u.serial_number) && has_prefix (usb_prefix u) r)) [
      | inl other ↦ rw other tt
      | inr alone ↦
          elim (Bool-cases (is_some u.serial_number && is_some (lookup (usb_prefix u ^^ "*") r))) [
            | inl wildcard ↦ rw (alone, wildcard) tt
            | inr free ↦ rw (alone, free) last
          ]
    ]

module _ (absolute : String → String) where
  abbrev pub directory_keys : Option String → List String
  directory_keys none = []
  directory_keys (some directory) = ("ledger:" ^^ normalize_path absolute directory) ∷ []

  pub claim_directory-Adds :
      (label : String) (directory : Option String) (r : Resources)
      → Adds (directory_keys directory) r (claim_directory absolute label directory r)
  unfolding claim_directory
  claim_directory-Adds label none r = Adds-nothing r
  claim_directory-Adds label (some directory) r = claim-Adds r _ _

  -- A WebSocket client on the listener of the API claims none of its own.
  abbrev pub client_keys : Profile → ClientConfig → List String
  client_keys p (tcp name bind can_write can_read raw) = ("listen:" ^^ normalize_key bind) ∷ []
  client_keys p (websocket name none can_write can_read history_bytes) = []
  client_keys p (websocket name (some bind) can_write can_read history_bytes) =
      key_if (not p.api_enabled || not (str_eq bind p.api_bind)) ("listen:" ^^ normalize_key bind)
  client_keys p (pty name link can_write can_read) = ("pty:" ^^ normalize_path absolute link) ∷ []

  claim_client-Adds :
      (label : String) (p : Profile) (c : ClientConfig) (r : Resources)
      → Adds (client_keys p c) r (claim_client absolute label p c r)
  unfolding claim_client
  claim_client-Adds label p (tcp name bind can_write can_read raw) r = claim-Adds r _ _
  claim_client-Adds label p (websocket name none can_write can_read history_bytes) r =
      Adds-nothing r
  claim_client-Adds label p (websocket name (some bind) can_write can_read history_bytes) r =
      claim_if-Adds _ _ _ r
  claim_client-Adds label p (pty name link can_write can_read) r = claim-Adds r _ _

  abbrev pub clients_keys : Profile → List ClientConfig → List String
  clients_keys p [] = []
  clients_keys p (c ∷ clients) = client_keys p c ++ clients_keys p clients

  pub claim_clients-Adds :
      (label : String) (p : Profile) (clients : List ClientConfig) (r : Resources)
      → Adds (clients_keys p clients) r (claim_clients absolute label p clients r)
  unfolding claim_clients
  claim_clients-Adds label p [] r = Adds-nothing r
  claim_clients-Adds label p (c ∷ clients) r =
      Adds-bind (client_keys p c) (clients_keys p clients) r _ _ (claim_client-Adds label p c r)
        (claim_clients-Adds label p clients)

  abbrev pub profile_keys : Profile → List String
  profile_keys p =
      key_if (is_device p) ("real:" ^^ normalize_key p.real_path)
      ++ (usb_keys p.real_usb
          ++ (key_if p.api_enabled ("listen:" ^^ normalize_key p.api_bind)
              ++ (key_if p.rfc2217_enabled ("listen:" ^^ normalize_key p.rfc2217_bind)
                  ++ (directory_keys p.ledger_directory ++ clients_keys p p.clients))))

  pub claim_profile-Adds :
      (label : String) (p : Profile) (r : Resources)
      → Adds (profile_keys p) r (claim_profile absolute label p r)
  unfolding claim_profile
  claim_profile-Adds label p r =
      Adds-bind _ (usb_keys p.real_usb ++ _) r _ _ (claim_if-Adds _ _ _ r) (λ r1.
        Adds-bind (usb_keys p.real_usb) _ r1 _ _ (claim_usb-Adds label p.real_usb r1) (λ r2.
          Adds-bind _ _ r2 _ _ (claim_if-Adds _ _ _ r2) (λ r3.
            Adds-bind _ _ r3 _ _ (claim_if-Adds _ _ _ r3) (λ r4.
              Adds-bind _ _ r4 _ _ (claim_directory-Adds label p.ledger_directory r4)
                (claim_clients-Adds label p p.clients)))))

  abbrev pub profiles_keys : List Profile → List String
  profiles_keys [] = []
  profiles_keys (p ∷ profiles) = profile_keys p ++ profiles_keys profiles

  pub claim_profiles-Adds :
      (index : ℕ) (profiles : List Profile) (r : Resources)
      → Adds (profiles_keys profiles) r (claim_profiles absolute index profiles r)
  unfolding claim_profiles
  claim_profiles-Adds index [] r = Adds-nothing r
  claim_profiles-Adds index (p ∷ profiles) r =
      Adds-bind (profile_keys p) (profiles_keys profiles) r _ _ (claim_profile-Adds _ p r)
        (claim_profiles-Adds (index + 1) profiles)
