-- ===== src/Settings/Merge/Refused.antt =====
-- What a caller must give itself.
use logs_interceptor_python.Base.{
  ◌≡◌, ◌≢◌, String, Bool, true, false, [], arith, append_empty, ◌⊎◌, inl, inr,
}
use logs_interceptor_python.Base.Text.{is_blank}
use logs_interceptor_python.Settings.Merge.{merge_configs}
use logs_interceptor_python.Settings.Records.{LogsInterceptorConfig}
use logs_interceptor_python.Settings.Validate.{
  error_if, validate, validate_required, validate_numbers,
}

no_error : (b : Bool) (message : String) → error_if b message ≡ [] → b ≡ false
no_error b message e = ground arith

-- A configuration of a caller that leaves the URL or the tenant blank is refused once it is
-- merged, whatever the environment gives for them.
pub merge_configs_loses_url :
    (is_url : String → Bool) (user env : LogsInterceptorConfig)
    → (is_blank user.transport.url ≡ true) ⊎ (is_blank user.transport.tenant_id ≡ true)
    → validate is_url (merge_configs user env) ≢ []
unfolding validate validate_required merge_configs
merge_configs_loses_url is_url user env h e =
    let required = (append_empty _ (validate_numbers (merge_configs user env)) e).0 in
    let texts = (append_empty _ _ required).0 in
    let (url, tenant) = append_empty _ _ (append_empty _ _ texts).0 in
    elim h [
      | inl blank ↦ cc (no_error (is_blank user.transport.url) "Transport URL is required" url)
      | inr blank ↦ cc (no_error (is_blank user.transport.tenant_id) "Tenant ID is required" tenant)
    ]
