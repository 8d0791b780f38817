-- ===== src/Supervisor.antt =====
-- src/supervisor.rs: the claims of the profiles on resources of the whole process, and their collisions.
-- What a path is when made absolute, `absolute`, is the operating system's.
use Prim.Native.Nat.{ℕ, suc, ◌+◌, ◌-◌, ◌/◌, ◌%◌}
use Prim.Native.Char.{Char, code}
use Prim.Native.String.{String, char_at}
use oh_myserial.Common.{
  Bool, true, false, not, ◌&&◌, ◌||◌, List, [], ◌∷◌, Option, none, some, Result, ok, err, ◌>>=◌,
  str_eq, leb, if◌then◌else◌, is_some,
}
use oh_myserial.Config.{UsbSelector, ClientConfig, pty, tcp, websocket}
use oh_myserial.Common.Text.{◌^^◌, is_blank, is_whitespace, starts_with, show}
use oh_myserial.Common.Map.{lookup, insert}
pub mod Adding
pub mod Selectors
pub mod Collisions

-- The fields of a `Config` that the claims read.
pub record Profile : Type 0 where
  pub real_path : String
  pub real_usb : Option UsbSelector
  pub api_enabled : Bool
  pub api_bind : String
  pub rfc2217_enabled : Bool
  pub rfc2217_bind : String
  pub ledger_directory : Option String
  pub clients : List ClientConfig

pub data ProfileError : Type 0 where
  collision : (owner : String) → (previous : String) → ProfileError
  selector_conflict wildcard_conflict : (label : String) → ProfileError

abbrev pub Resources : Type 0
Resources = List (String × String)

trim_start : String → String
trim_start String.[] = ""
trim_start (String.◌∷◌ c s) =
    let rest = trim_start s in if is_whitespace (code c) then rest else String.◌∷◌ c s

trim_end : String → String
trim_end String.[] = ""
trim_end (String.◌∷◌ c s) =
    let rest = trim_end s in if is_blank (String.◌∷◌ c s) then "" else String.◌∷◌ c rest

lower : Char → Char
lower c =
    if leb 65 (code c) && leb (code c) 90
    then char_at "abcdefghijklmnopqrstuvwxyz" (code c - 65)
    else c

to_lower : String → String
to_lower String.[] = ""
to_lower (String.◌∷◌ c s) = String.◌∷◌ (lower c) (to_lower s)

unfoldable pub normalize_key : String → String
unfolding trim_start trim_end to_lower lower
normalize_key value = to_lower (trim_end (trim_start value))

hex : ℕ → Char
hex n = char_at "0123456789abcdef" (n % 16)

-- `{:04x}` of a u16.
hex4 : ℕ → String
unfolding hex
hex4 n =
    String.◌∷◌ (hex (n / 4096))
      (String.◌∷◌ (hex (n / 256)) (String.◌∷◌ (hex (n / 16)) (String.◌∷◌ (hex n) "")))

unfoldable pub usb_prefix : UsbSelector → String
unfolding hex4
usb_prefix u = "usb:" ^^ hex4 u.vid ^^ ":" ^^ hex4 u.pid ^^ ":"

unfoldable pub claim : Resources → String → String → Result Resources ProfileError
claim resources key owner = elim (lookup key resources) [
  | none ↦ ok (insert key owner resources)
  | some previous ↦ err (collision owner previous)
]

-- Whether a claimed key is of the same device.
unfoldable pub has_prefix : String → Resources → Bool
has_prefix prefix [] = false
has_prefix prefix ((key, owner) ∷ resources) =
    str_eq key (prefix ^^ "*") || starts_with key prefix || has_prefix prefix resources

unfoldable pub or_star : Option String → String
or_star none = "*"
or_star (some serial) = serial

abbrev pub usb_key : UsbSelector → String
usb_key u = usb_prefix u ^^ normalize_key (or_star u.serial_number)

unfoldable pub claim_usb : String → Option UsbSelector → Resources → Result Resources ProfileError
claim_usb label none resources = ok resources
claim_usb label (some u) resources =
    if not (is_some u.serial_number) && has_prefix (usb_prefix u) resources
    then err (selector_conflict label)
    else if is_some u.serial_number && is_some (lookup (usb_prefix u ^^ "*") resources)
    then err (wildcard_conflict label)
    else claim resources (usb_key u) (label ^^ " real.usb")

unfoldable pub claim_if : Bool → String → String → Resources → Result Resources ProfileError
claim_if wanted key owner resources = if wanted then claim resources key owner else ok resources

-- Whether the real port is a device: neither blank nor a mock.
abbrev pub is_device : Profile → Bool
is_device p = not (is_blank p.real_path) && not (starts_with p.real_path "mock:")

module _ (absolute : String → String) where
  unfoldable pub normalize_path : String → String
  normalize_path path = normalize_key (absolute path)

  unfoldable pub claim_directory :
      String → Option String → Resources → Result Resources ProfileError
  claim_directory label none resources = ok resources
  claim_directory label (some directory) resources =
      claim resources ("ledger:" ^^ normalize_path directory) (label ^^ " ledger.directory")

  unfoldable pub claim_client :
      String → Profile → ClientConfig → Resources → Result Resources ProfileError
  claim_client label p (tcp name bind can_write can_read raw) resources =
      claim resources ("listen:" ^^ normalize_key bind)
        (label ^^ " TCP client '" ^^ name ^^ "'.bind")
  claim_client label p (websocket name none can_write can_read history_bytes) resources =
      ok resources
  claim_client label p (websocket name (some bind) can_write can_read history_bytes) resources =
      claim_if (not p.api_enabled || not (str_eq bind p.api_bind)) ("listen:" ^^ normalize_key bind)
        (label ^^ " WebSocket client '" ^^ name ^^ "'.bind") resources
  claim_client label p (pty name link can_write can_read) resources =
      claim resources ("pty:" ^^ normalize_path link) (label ^^ " PTY client '" ^^ name ^^ "'.link")

  unfoldable pub claim_clients :
      String → Profile → List ClientConfig → Resources → Result Resources ProfileError
  claim_clients label p [] resources = ok resources
  claim_clients label p (c ∷ clients) resources =
      claim_client label p c resources >>= λ behind. claim_clients label p clients behind

  unfoldable pub claim_profile : String → Profile → Resources → Result Resources ProfileError
  claim_profile label p resources =
      claim_if (is_device p) ("real:" ^^ normalize_key p.real_path) (label ^^ " real.path")
        resources
      >>= λ r1. claim_usb label p.real_usb r1 >>= λ r2.
          claim_if p.api_enabled ("listen:" ^^ normalize_key p.api_bind) (label ^^ " api.bind") r2
          >>= λ r3.
              claim_if p.rfc2217_enabled ("listen:" ^^ normalize_key p.rfc2217_bind)
                (label ^^ " rfc2217.bind") r3
              >>= λ r4. claim_directory label p.ledger_directory r4 >>= λ r5.
                  claim_clients label p p.clients r5

  -- The loop of `validate_profiles`.
  unfoldable pub claim_profiles : ℕ → List Profile → Resources → Result Resources ProfileError
  claim_profiles index [] resources = ok resources
  claim_profiles index (p ∷ profiles) resources =
      claim_profile ("profile #" ^^ show (index + 1)) p resources >>= λ behind.
      claim_profiles (index + 1) profiles behind
