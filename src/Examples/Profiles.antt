-- ===== src/Examples/Profiles.antt =====
-- src/supervisor.rs: two profiles with a TCP client each. A path is taken as absolute.
use oh_myserial.Common.{◌≡◌, refl, true, false, List, [], ◌∷◌, Option, none, some, String, ok, err}
use oh_myserial.Common.Text.{is_blank, show}
use oh_myserial.Common.Map.{lookup, insert}
use oh_myserial.Config.{UsbSelector, tcp}
use oh_myserial.Common.Distinct.{AreDistinct}
use oh_myserial.Supervisor.{
  Profile, collision, Resources, normalize_key, claim, claim_usb, claim_if, claim_directory,
  claim_client, claim_clients, claim_profile, claim_profiles, usb_prefix, or_star, has_prefix,
  selector_conflict,
}
use oh_myserial.Supervisor.Adding.{keys, profiles_keys}
use oh_myserial.Supervisor.Selectors.{AreApart}
use oh_myserial.Supervisor.Collisions.{claim_profiles-AreDistinct}

abbrev as_is : String → String
as_is path = path

abbrev board : Option String → UsbSelector
board serial = record { vid = 0x10c4; pid = 0xea60; serial_number = serial }

abbrev profile : String → Option String → String → String → Profile
profile path serial api bind = record {
  real_path = path;
  real_usb = some (board serial);
  api_enabled = true;
  api_bind = api;
  rfc2217_enabled = false;
  rfc2217_bind = "127.0.0.1:2217";
  ledger_directory = none;
  clients = tcp "tcp" bind true true false ∷ [];
}

abbrev two_profiles : List Profile
two_profiles =
    profile "COM3" (some "board-01") "127.0.0.1:18787" "127.0.0.1:18788"
    ∷ profile " COM4 " (some "board-02") "127.0.0.1:18789" "127.0.0.1:18790"
    ∷ []

abbrev two_claimed : Resources
two_claimed =
    ("real:com3", "profile #1 real.path")
    ∷ ("usb:10c4:ea60:board-01", "profile #1 real.usb")
    ∷ ("listen:127.0.0.1:18787", "profile #1 api.bind")
    ∷ ("listen:127.0.0.1:18788", "profile #1 TCP client 'tcp'.bind")
    ∷ ("real:com4", "profile #2 real.path")
    ∷ ("usb:10c4:ea60:board-02", "profile #2 real.usb")
    ∷ ("listen:127.0.0.1:18789", "profile #2 api.bind")
    ∷ ("listen:127.0.0.1:18790", "profile #2 TCP client 'tcp'.bind")
    ∷ []

two_accepted : claim_profiles as_is 0 two_profiles [] ≡ ok two_claimed
unfolding claim_profiles claim_profile claim_if claim_usb claim_directory claim_clients claim_client
    claim normalize_key lookup insert show is_blank usb_prefix or_star has_prefix
two_accepted = refl

same_bind :
    claim_profiles as_is 0
      (profile "COM3" (some "board-01") "127.0.0.1:18787" "127.0.0.1:18788"
        ∷ profile "COM4" (some "board-02") "127.0.0.1:18789" "127.0.0.1:18788"
        ∷ [])
      []
    ≡ err (collision "profile #2 TCP client 'tcp'.bind" "profile #1 TCP client 'tcp'.bind")
unfolding claim_profiles claim_profile claim_if claim_usb claim_directory claim_clients claim_client
    claim normalize_key lookup insert show is_blank usb_prefix or_star has_prefix
same_bind = refl

-- A selector without a serial number may match the board of the first profile.
wildcard_second :
    claim_profiles as_is 0
      (profile "COM3" (some "board-01") "127.0.0.1:18787" "127.0.0.1:18788"
        ∷ profile "COM4" none "127.0.0.1:18789" "127.0.0.1:18790"
        ∷ [])
      []
    ≡ err (selector_conflict "profile #2")
unfolding claim_profiles claim_profile claim_if claim_usb claim_directory claim_clients claim_client
    claim normalize_key lookup insert show is_blank usb_prefix or_star has_prefix
wildcard_second = refl

claim_profiles-AreDistinct_example :
    (keys two_claimed ≡ profiles_keys as_is two_profiles)
    × AreDistinct (profiles_keys as_is two_profiles)
    × AreApart two_profiles
claim_profiles-AreDistinct_example =
    claim_profiles-AreDistinct as_is two_profiles two_claimed two_accepted
