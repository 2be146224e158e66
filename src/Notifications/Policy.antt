-- ===== src/Notifications/Policy.antt =====
-- crates/bridge-notifications/src/policy.rs. `str::to_lowercase`, a table of Unicode, is a parameter.
pub mod Privacy
use bridgeos.Prelude.{
  ltb, ◌==◌, if◌then◌else◌, Str, lit, ℕ, ◌*◌, Bool, true, false, ◌&&◌, ◌||◌, List, [], ◌∷◌,
}
use bridgeos.Notifications.Types.{NotificationUrgency, low, normal, rank, NotificationEntry}

abbrev pub sensitive_title_keywords : List Str
sensitive_title_keywords =
    lit "verification code"
    ∷ lit "one-time password"
    ∷ lit "otp:"
    ∷ lit "2fa"
    ∷ lit "two-factor"
    ∷ lit "authentication code"
    ∷ lit "login code"
    ∷ lit "security code"
    ∷ lit "transaction alert"
    ∷ lit "payment received"
    ∷ lit "payment sent"
    ∷ lit "low balance"
    ∷ lit "account balance"
    ∷ lit "bank alert"
    ∷ lit "credit card"
    ∷ lit "debit card"
    ∷ lit "wire transfer"
    ∷ lit "1password"
    ∷ lit "lastpass"
    ∷ lit "bitwarden"
    ∷ lit "dashlane"
    ∷ lit "keepass"
    ∷ lit "keychain"
    ∷ lit "medical record"
    ∷ lit "prescription"
    ∷ lit "lab result"
    ∷ lit "health record"
    ∷ []

abbrev pub sensitive_app_ids : List Str
sensitive_app_ids =
    lit "com.chase.sig.android"
    ∷ lit "com.bankofamerica.mobile"
    ∷ lit "com.wellsfargo.mobile"
    ∷ lit "com.barclays.android"
    ∷ lit "uk.co.hsbc"
    ∷ lit "com.ing.mobile"
    ∷ lit "com.google.android.apps.authenticator2"
    ∷ lit "com.authy.authy"
    ∷ lit "com.microsoft.authenticator"
    ∷ lit "com.lastpass.lastpassauthenticator"
    ∷ lit "com.agilebits.onepassword"
    ∷ lit "com.lastpass.lpandroid"
    ∷ lit "com.bitwarden.mobile"
    ∷ lit "com.dashlane"
    ∷ lit "org.keepass2android"
    ∷ lit "com.apple.health"
    ∷ lit "com.google.android.apps.fitness"
    ∷ []

pub record NotificationPolicy : Type 0 where
  pub block_sensitive : Bool
  pub min_urgency : NotificationUrgency
  pub max_payload_bytes : ℕ
  pub block_ongoing : Bool

-- `Default`
abbrev pub default_policy : NotificationPolicy
default_policy = record {
  block_sensitive = true;
  min_urgency = low;
  max_payload_bytes = 128 * 1024;
  block_ongoing = false;
}

abbrev pub strict : NotificationPolicy
strict = record {
  block_sensitive = true;
  min_urgency = normal;
  max_payload_bytes = 64 * 1024;
  block_ongoing = true;
}

abbrev pub permissive : NotificationPolicy
permissive = record {
  block_sensitive = true;
  min_urgency = low;
  max_payload_bytes = 256 * 1024;
  block_ongoing = false;
}

-- `str::starts_with` and `str::contains`
unfoldable pub starts_with : Str → Str → Bool
starts_with s [] = true
starts_with [] (k ∷ pattern) = false
starts_with (c ∷ s) (k ∷ pattern) = c == k && starts_with s pattern

unfoldable pub contains : Str → Str → Bool
contains [] pattern = starts_with [] pattern
contains (c ∷ s) pattern = starts_with (c ∷ s) pattern || contains s pattern

-- `Iterator::any`
unfoldable pub any : (Str → Bool) → List Str → Bool
any f [] = false
any f (x ∷ xs) = f x || any f xs

module _ (to_lowercase : Str → Str) where
  unfoldable pub is_sensitive_app : Str → Bool
  is_sensitive_app app_id = any (contains (to_lowercase app_id)) sensitive_app_ids

  unfoldable pub has_sensitive_keywords : NotificationEntry → Bool
  has_sensitive_keywords entry =
      any (λ kw. contains (to_lowercase entry.title) kw || contains (to_lowercase entry.text) kw)
        sensitive_title_keywords

  unfoldable pub should_block : NotificationPolicy → NotificationEntry → Bool
  should_block q entry =
      if ltb (rank entry.urgency) (rank q.min_urgency)
      then true
      else if q.block_ongoing && entry.is_ongoing
      then true
      else if q.block_sensitive && is_sensitive_app entry.app_id
      then true
      else if q.block_sensitive && has_sensitive_keywords entry
      then true
      else false
