-- ===== src/Policy/Admission.antt =====
-- src/policy.rs: what `admit_write` decides, against a description that names no test of the code.
use oh_myserial.Common.{
  ℕ, ◌<◌, ◌≤◌, ◌≡◌, ◌↔◌, ◌⊎◌, true, false, Option, none, some, String, arith, eq_iff,
}
use oh_myserial.Policy.{
  TxMode, queue_by_line, queue_by_frame, exclusive, primary_wins, WriteLock, active, authorizes,
  allow, AdmitContext, admit_mode, admit_lock, admit_write,
}

-- What the configured mode lets through when no lease is active.
abbrev pub ModeAllows : AdmitContext → TxMode → Type 0
ModeAllows ctx queue_by_line = Unit
ModeAllows ctx queue_by_frame = Unit
ModeAllows ctx exclusive = ⊥
ModeAllows ctx primary_wins =
    (ctx.primary ≡ none) ⊎ (ctx.client_is_primary ≡ true) ⊎ (ctx.primary_connected ≡ false)

abbrev pub Permitted : AdmitContext → Option WriteLock → Type 0
Permitted ctx none = ModeAllows ctx ctx.mode
Permitted ctx (some l) =
    ((ctx.now < l.expires_at) × (ctx.lease_token ≡ some l.token))
    ⊎ ((l.expires_at ≤ ctx.now) × ModeAllows ctx ctx.mode)

authorizes_iff :
    (l : WriteLock) (token : Option String) (now : ℕ)
    → (authorizes l token now ≡ true) ↔ ((now < l.expires_at) × (token ≡ some l.token))
unfolding authorizes
authorizes_iff l none now = ground arith
authorizes_iff l (some t) now = ground (arith, eq_iff t l.token)

-- `ModeAllows` describes the decision by mode.
admit_mode_iff : (ctx : AdmitContext) (m : TxMode) → (admit_mode ctx m ≡ allow) ↔ ModeAllows ctx m
unfolding admit_mode
admit_mode_iff ctx queue_by_line = ground arith
admit_mode_iff ctx queue_by_frame = ground arith
admit_mode_iff ctx exclusive = ground arith
admit_mode_iff ctx primary_wins = ground arith

admit_lock_iff :
    (ctx : AdmitContext) (lock : Option WriteLock)
    → (admit_lock ctx lock ≡ allow) ↔ Permitted ctx lock
unfolding admit_lock active
admit_lock_iff ctx none = admit_mode_iff ctx ctx.mode
admit_lock_iff ctx (some l) =
    ground (arith, admit_mode_iff ctx ctx.mode, authorizes_iff l ctx.lease_token ctx.now)

-- A write is admitted exactly when it is permitted: under an unexpired lease only with that
-- lease's token, else by the configured mode.
pub admit_write-allow_iff :
    (ctx : AdmitContext) → (admit_write ctx ≡ allow) ↔ Permitted ctx ctx.lock
unfolding admit_write
admit_write-allow_iff ctx = admit_lock_iff ctx ctx.lock
