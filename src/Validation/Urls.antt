-- ===== src/Validation/Urls.antt =====
-- Which URLs are accepted.
use ocp_spire_operator.Prelude.{
  Bool, true, false, String, Option, none, ◌==◌, arith, ◌≡◌, ◌≢◌, ◌↔◌, eq_iff, refl, ap, ◌∙◌,
}
use ocp_spire_operator.Kube.{Error}
use ocp_spire_operator.Objects.{Attempt, done, failed}
use ocp_spire_operator.Validation.{
  Url, is_http, refusing, validate_url_components, parsed_url, is_valid_url,
}

abbrev pub IsHttpUrl : Url → Type 0
IsHttpUrl u = (is_http u.scheme ≡ true) × (u.host ≢ "") × (u.fragment ≡ "") × (u.raw_query ≡ "")

components_iff : (u : Url) → (validate_url_components u ≡ none) ↔ ((u.scheme ≢ "") × IsHttpUrl u)
unfolding validate_url_components
components_iff u =
    ground
      (arith, eq_iff u.scheme "", eq_iff u.host "", eq_iff u.fragment "", eq_iff u.raw_query "")

scheme-nonempty : (s : String) → is_http s ≡ true → s ≢ ""
scheme-nonempty s h k = absurd (ground (arith, h, empty s k))
  where
    empty : (s : String) → s ≡ "" → is_http s ≡ false
    empty s k = rw k refl

parsed_iff : (a : Attempt Url) → (parsed_url a ≡ none) ↔ ((u : Url) × (a ≡ done u) × IsHttpUrl u)
parsed_iff (failed e) = ground arith
parsed_iff (done u) = (
  λ h. (u, refl, ((components_iff u).0 h).1),
  λ (v, e, p). ap parsed_url e ∙ (components_iff v).1 (scheme-nonempty v.scheme p.0, p),
)

refusing_iff :
    (b : Bool) (message : String) (rest : Option Error)
    → (refusing b message rest ≡ none) ↔ ((b ≡ false) × (rest ≡ none))
refusing_iff b message rest = ground arith

-- A URL is accepted exactly when it is not empty, `url.Parse` reads it, its scheme is http or https in
-- any case, it has a host, and it has neither a fragment nor a query.
pub is_valid_url_iff :
    (parse : String → Attempt Url) (issuer_url : String)
    → (is_valid_url parse issuer_url ≡ none)
      ↔ ((issuer_url ≢ "") × ((u : Url) × (parse issuer_url ≡ done u) × IsHttpUrl u))
unfolding is_valid_url
is_valid_url_iff parse issuer_url =
    let p = parsed_iff (parse issuer_url) in
    let e = eq_iff issuer_url "" in
    let r =
      refusing_iff (issuer_url == "") "issuer URL cannot be empty"
        (parsed_url (parse issuer_url)) in
    (
      λ h. let (n, q) = r.0 h in (λ k. ground (arith, e, k, n), p.0 q),
      λ (n, q). r.1 (ground (arith, e, n), p.1 q),
    )
