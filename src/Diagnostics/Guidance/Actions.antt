-- ===== src/Diagnostics/Guidance/Actions.antt =====
-- crates/cng-core/src/diagnostics.rs: the action that goes with a piece of advice.
use codex_no.Base.{◌≡◌, refl, ◌≢◌, ◌↔◌, ◌⊎◌, inl, inr, Option, none, some, arith}
use codex_no.Base.Text.{Text, codes}
use codex_no.Model.{
  GuardStatusKind, protected, degraded, vpn_unavailable, non_network_failure, paused, UserGuidance,
  DiagnosticEvent, FailureClass, proxy_unavailable, dns, tls, proxy_protocol, web_socket,
  authentication, rate_limit, server, app_server_crash, tool_state, timeout, other,
}
use codex_no.Diagnostics.Guidance.{guidance_for_class, guidance_for_failure, guidance_for}

-- The four actions that the status interface documents.
abbrev pub IsDocumented : UserGuidance → Type 0
IsDocumented g =
    (g.action ≡ some (codes "refresh"))
    ⊎ ((g.action ≡ some (codes "resume_protection"))
        ⊎ ((g.action ≡ some (codes "open_codex")) ⊎ (g.action ≡ some (codes "wait"))))

abbrev pub HasLabel : UserGuidance → Type 0
HasLabel g = (label : Text) × (g.action_label ≡ some label)

class-IsDocumented :
    (c : FailureClass) → IsDocumented (guidance_for_class c) × HasLabel (guidance_for_class c)
unfolding guidance_for_class
class-IsDocumented proxy_unavailable = (inl refl, (_, refl))
class-IsDocumented dns = (inl refl, (_, refl))
class-IsDocumented tls = (inl refl, (_, refl))
class-IsDocumented proxy_protocol = (inl refl, (_, refl))
class-IsDocumented web_socket = (inl refl, (_, refl))
class-IsDocumented authentication = (inr (inr (inl refl)), (_, refl))
class-IsDocumented rate_limit = (inr (inr (inr refl)), (_, refl))
class-IsDocumented server = (inr (inr (inr refl)), (_, refl))
class-IsDocumented app_server_crash = (inr (inr (inl refl)), (_, refl))
class-IsDocumented tool_state = (inr (inr (inl refl)), (_, refl))
class-IsDocumented timeout = (inl refl, (_, refl))
class-IsDocumented other = (inr (inr (inr refl)), (_, refl))

failure-IsDocumented :
    (failure : Option DiagnosticEvent)
    → IsDocumented (guidance_for_failure failure) × HasLabel (guidance_for_failure failure)
unfolding guidance_for_failure
failure-IsDocumented none = class-IsDocumented other
failure-IsDocumented (some event) = class-IsDocumented event.failure_class

abbrev pub resume : Option Text
resume = some (codes "resume_protection")

class-ne-resume : (c : FailureClass) → (guidance_for_class c).action ≢ resume
unfolding guidance_for_class
class-ne-resume proxy_unavailable = ground arith
class-ne-resume dns = ground arith
class-ne-resume tls = ground arith
class-ne-resume proxy_protocol = ground arith
class-ne-resume web_socket = ground arith
class-ne-resume authentication = ground arith
class-ne-resume rate_limit = ground arith
class-ne-resume server = ground arith
class-ne-resume app_server_crash = ground arith
class-ne-resume tool_state = ground arith
class-ne-resume timeout = ground arith
class-ne-resume other = ground arith

failure-ne-resume :
    (failure : Option DiagnosticEvent) → (guidance_for_failure failure).action ≢ resume
unfolding guidance_for_failure
failure-ne-resume none = class-ne-resume other
failure-ne-resume (some event) = class-ne-resume event.failure_class

-- For every status and every event the advice has a label and one of the four documented actions,
-- and it offers to resume the protection exactly when the protection is paused.
pub guidance_for-IsDocumented :
    (status : GuardStatusKind) (failure : Option DiagnosticEvent)
    → IsDocumented (guidance_for status failure)
      × HasLabel (guidance_for status failure)
      × (((guidance_for status failure).action ≡ resume) ↔ (status ≡ paused))
unfolding guidance_for
guidance_for-IsDocumented protected failure = (inl refl, (_, refl), (ground arith, ground arith))
guidance_for-IsDocumented degraded failure = (inl refl, (_, refl), (ground arith, ground arith))
guidance_for-IsDocumented vpn_unavailable failure =
    (inl refl, (_, refl), (ground arith, ground arith))
guidance_for-IsDocumented paused failure = (inr (inl refl), (_, refl), (λ e. refl, λ e. refl))
guidance_for-IsDocumented non_network_failure failure =
    let (documented, label) = failure-IsDocumented failure in
    (documented, label, (λ e. absurd (failure-ne-resume failure e), ground arith))
