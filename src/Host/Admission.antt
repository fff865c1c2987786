-- ===== src/Host/Admission.antt =====
-- What admission guarantees: a call that is not admitted leaves neither claim nor lease nor register
-- behind, and a call that is dispatched holds what it needs.
use openagent_host_tools.Base.{
  true, not, ◌&&◌, ◌≡◌, Option, none, some, if◌then◌else◌, ◌==◌, Outcome, HostError, if-cases,
  crash, String,
}
use openagent_host_tools.Types.{ToolManifest, ToolClassification, classification_for}
use openagent_host_tools.Host.{Host, Config, Call, Kind}
use openagent_host_tools.Host.Dispatch.{consent_required, Env, Admission, claim_key}
use openagent_host_tools.Host.Admit.{
  is_recording_call, is_recording_crash, is_other, recording_mismatch, has_network_context,
  no_network_context, is_unavailable, plugin_unavailable, not_found, denied, check_recording,
  check_browser, resolve, resolved, ensure_started, admit_call,
}

module _ (g : Config) (env : Env) (c : Call) (P : Host × Outcome Admission → Type 0) where
  -- Every call is denied or crashes before it claims anything, or goes on to the claim.
  module _ (h : Host) (deny : (e : HostError) → P (denied g env c e h))
      (fall : (t : String) → P (h, crash t))
      (go : (kind : Kind) (k : ToolClassification) → P (claim_key g env c kind k h)) where
    check_recording-cases :
        (kind : Kind) (k : ToolClassification) → P (check_recording g env c kind k h)
    unfolding check_recording
    check_recording-cases kind k =
        if-cases P (is_recording_crash g env c) _ _ (λ _. fall "TypeError")
          (λ _.
            if-cases P (is_recording_call g env c && is_other g env c h.recording_owner)
              (denied g env c (recording_mismatch g env c) h) (claim_key g env c kind k h)
              (λ _. deny (recording_mismatch g env c)) (λ _. go kind k))

    check_browser-cases :
        (kind : Kind) (k : ToolClassification) → P (check_browser g env c kind k h)
    unfolding check_browser
    check_browser-cases kind k =
        if-cases P (not (c.server == "agent-in-chrome")) (check_recording g env c kind k h)
          (if not (has_network_context env.parsed_principal)
            then denied g env c (no_network_context g env c) h
            else after_network)
          (λ _. check_recording-cases kind k)
          λ _.
            if-cases P (not (has_network_context env.parsed_principal))
              (denied g env c (no_network_context g env c) h) after_network
              (λ _. deny (no_network_context g env c))
              λ _.
                if-cases P (is_unavailable g env c env.principal_health)
                  (denied g env c (plugin_unavailable g env c) h) (check_recording g env c kind k h)
                  (λ _. deny (plugin_unavailable g env c)) (λ _. check_recording-cases kind k)
      where
        after_network : Host × Outcome Admission
        after_network =
            if is_unavailable g env c env.principal_health
            then denied g env c (plugin_unavailable g env c) h
            else check_recording g env c kind k h

    resolved-cases : (o : Option (Kind × ToolManifest)) → P (resolved g env c h o)
    unfolding resolved
    resolved-cases none = deny (not_found g env c)
    resolved-cases (some (kind, t)) = check_browser-cases kind (classification_for t c.args)

  pub admit_call-cases :
      (h : Host)
      → ((e : HostError) → P (denied g env c e h))
      → ((e : HostError) → P (denied g env c e (ensure_started g env c h)))
      → ((t : String) → P (ensure_started g env c h, crash t))
      → ((kind : Kind) (k : ToolClassification)
          → env.consent_first ≡ true
          → P (claim_key g env c kind k (ensure_started g env c h)))
      → P (admit_call g env c h)
  unfolding admit_call
  admit_call-cases h deny deny' fall go =
      if-cases P env.consent_first
        (resolved g env c (ensure_started g env c h) (resolve g env c (ensure_started g env c h)))
        (denied g env c (consent_required g "local tools are disabled on this device") h)
        (λ consented.
          resolved-cases (ensure_started g env c h) deny' fall (λ kind k. go kind k consented)
            (resolve g env c (ensure_started g env c h)))
        (λ _. deny (consent_required g "local tools are disabled on this device"))
