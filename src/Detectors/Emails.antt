-- ===== src/Detectors/Emails.antt =====
-- `notServiceEmail` of internal/pii/detectors/validators.go. `strings.ToLower` is the parameter
-- `to_lower`.
use alfa_hakaton.Common.{
  suc, Bool, true, not, Bytes, bytes_eq, codes, List, [], ◌∷◌, any, take, drop, if◌then◌else◌, none,
  some,
}
use alfa_hakaton.Common.Find.{index}

abbrev pub service_email_local_parts : List Bytes
service_email_local_parts =
    codes "support"
    ∷ codes "info"
    ∷ codes "noreply"
    ∷ codes "no-reply"
    ∷ codes "help"
    ∷ codes "sales"
    ∷ codes "office"
    ∷ codes "hello"
    ∷ codes "press"
    ∷ codes "pr"
    ∷ codes "hr"
    ∷ codes "feedback"
    ∷ codes "mail"
    ∷ codes "clients"
    ∷ codes "client"
    ∷ []

abbrev pub org_email_domains : List Bytes
org_email_domains = codes "alfabank.ru" ∷ []

unfoldable pub not_service_email : (Bytes → Bytes) → Bytes → Bool
unfolding index
not_service_email to_lower match = elim (index match (codes "@")) [
  | none ↦ true
  | some at ↦
      if not (any (bytes_eq (to_lower (drop (suc at) match))) org_email_domains)
      then true
      else not (any (bytes_eq (to_lower (take at match))) service_email_local_parts)
]
