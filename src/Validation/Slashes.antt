-- ===== src/Validation/Slashes.antt =====
-- What the removal of trailing slashes leaves of a URL.
use ocp_spire_operator.Prelude.{
  none, ◌≡◌, ◌≢◌, nat_eq, ◌⊎◌, inl, inr, refl, ap, sym, ◌∙◌, Bool, true, false, ◌&&◌, String, ◌==◌,
  if◌then◌else◌, arith, eq_iff, Bool-cases, Option-cases,
}
use ocp_spire_operator.Objects.{Attempt, done, failed}
use ocp_spire_operator.Validation.{Url, is_valid_url}
use ocp_spire_operator.Validation.Urls.{IsHttpUrl, is_valid_url_iff}
use ocp_spire_operator.Validation.Issuer.{
  is_slash, trim_slashes, remove_trailing_slash, strip_protocol, parsed, build_normalized_url,
  normalize_url, unless_refused, strip_protocol_from_jwt_issuer,
}
use Prim.Native.String.{◌++◌}
use Prim.Native.Char.{Char, code}
use text.Mathlib.TextLemmas.{cons≢nil, cons-append, append-nil, nil-append}
use text.Mathlib.TextEquality.{Char-path}

-- The character is the solidus, U+002F.
abbrev is_solidus : Char → Bool
is_solidus c = nat_eq (code c) 0x2f

-- The last character of the text is a slash.
unfoldable pub ends_in_slash : String → Bool
ends_in_slash String.[] = false
ends_in_slash (String.◌∷◌ c s) =
    let later = ends_in_slash s in if s == "" then is_solidus c else later

-- The text consists of slashes.
unfoldable pub all_slashes : String → Bool
all_slashes String.[] = true
all_slashes (String.◌∷◌ c s) = is_solidus c && all_slashes s

-- The second text is the first without the slashes at its end; of a text of slashes one is left.
abbrev pub IsTrimOf : String → String → Type 0
IsTrimOf s t =
    ((ends_in_slash t ≡ false)
      × (t ≡ "" → s ≡ "")
      × ((slashes : String) × (all_slashes slashes ≡ true) × (t ++ slashes ≡ s)))
    ⊎ ((t ≡ "/") × (all_slashes s ≡ true) × (s ≢ ""))

nonempty : (c : Char) (s : String) → (String.◌∷◌ c s == "") ≡ false
nonempty c s = elim (Bool-cases (String.◌∷◌ c s == "")) [
  | inl e ↦ absurd (cons≢nil ((eq_iff (String.◌∷◌ c s) "").0 e))
  | inr e ↦ e
]

trim_slashes-ends : (s : String) → ends_in_slash (trim_slashes s) ≡ false
unfolding trim_slashes ends_in_slash
trim_slashes-ends String.[] = refl
trim_slashes-ends (String.◌∷◌ c s) = elim (Bool-cases (is_slash c && trim_slashes s == "")) [
  | inl e ↦ rw e refl
  | inr e ↦ rw e (ground (arith, e, trim_slashes-ends s))
]

trim_slashes-kept : (s : String) → ends_in_slash s ≡ false → trim_slashes s ≡ s
unfolding trim_slashes ends_in_slash
trim_slashes-kept String.[] h = refl
trim_slashes-kept (String.◌∷◌ c String.[]) h = rw h refl
trim_slashes-kept (String.◌∷◌ c (String.◌∷◌ d s)) h =
    let h' : ends_in_slash (String.◌∷◌ d s) ≡ false = ground (arith, h, nonempty d s) in
    rw (trim_slashes-kept (String.◌∷◌ d s) h', nonempty d s) (ground arith)

remove_trailing_slash-kept : (s : String) → ends_in_slash s ≡ false → remove_trailing_slash s ≡ s
unfolding remove_trailing_slash
remove_trailing_slash-kept String.[] h = refl
remove_trailing_slash-kept (String.◌∷◌ c String.[]) h = refl
remove_trailing_slash-kept (String.◌∷◌ c (String.◌∷◌ d s)) h =
    rw (trim_slashes-kept (String.◌∷◌ c (String.◌∷◌ d s)) h, nonempty c (String.◌∷◌ d s)) refl

abbrev slash : Char
slash = "/"

-- Without a slash at its end, unless it is the root, and so the same if its slashes are removed.
abbrev pub IsTrimmed : String → Type 0
IsTrimmed s = (remove_trailing_slash s ≡ s) × (ends_in_slash s ≡ true → s ≡ "/")

remove_trailing_slash-IsTrimmed : (s : String) → IsTrimmed (remove_trailing_slash s)
unfolding remove_trailing_slash ends_in_slash
remove_trailing_slash-IsTrimmed String.[] = (refl, λ h. ground (arith, h))
remove_trailing_slash-IsTrimmed (String.◌∷◌ c String.[]) =
    (refl, λ h. ap (λ d. String.◌∷◌ d "") (Char-path c slash (ground (arith, h))))
remove_trailing_slash-IsTrimmed (String.◌∷◌ c (String.◌∷◌ d s)) =
    let t = trim_slashes (String.◌∷◌ c (String.◌∷◌ d s)) in
    let e : ends_in_slash t ≡ false = trim_slashes-ends (String.◌∷◌ c (String.◌∷◌ d s)) in
    elim (Bool-cases (t == "")) [
      | inl r ↦ rw r (refl, λ h. refl)
      | inr r ↦ rw r (remove_trailing_slash-kept t e, λ h. ground (arith, h, e))
    ]

absorbed : (t slashes s : String) → t ≡ "" → t ++ slashes ≡ s → slashes ≡ s
absorbed t slashes s e h = sym (nil-append slashes) ∙ (ap (λ u. u ++ slashes) (sym e) ∙ h)

trim_slashes-append :
    (s : String)
    → (slashes : String) × (all_slashes slashes ≡ true) × (trim_slashes s ++ slashes ≡ s)
unfolding trim_slashes all_slashes
trim_slashes-append String.[] = ("", refl, refl)
trim_slashes-append (String.◌∷◌ c s) =
    let (slashes, all, back) = trim_slashes-append s in
    elim (Bool-cases (is_slash c && trim_slashes s == "")) [
      | inl e ↦
          let t : trim_slashes s ≡ "" = (eq_iff (trim_slashes s) "").0 (ground (arith, e)) in
          rw e (
            String.◌∷◌ c slashes,
            ground (arith, e, all),
            nil-append (String.◌∷◌ c slashes)
                ∙ ap (λ u. String.◌∷◌ c u) (absorbed (trim_slashes s) slashes s t back),
          )
      | inr e ↦
          rw e
            (slashes, all, cons-append c (trim_slashes s) slashes ∙ ap (λ u. String.◌∷◌ c u) back)
    ]

trim_slashes-empty : (s : String) → trim_slashes s ≡ "" → all_slashes s ≡ true
trim_slashes-empty s e =
    let (slashes, all, back) = trim_slashes-append s in
    ap (λ u. all_slashes u) (sym (absorbed (trim_slashes s) slashes s e back)) ∙ all

remove_trailing_slash-IsTrimOf : (s : String) → IsTrimOf s (remove_trailing_slash s)
unfolding remove_trailing_slash ends_in_slash all_slashes
remove_trailing_slash-IsTrimOf String.[] = inl (refl, λ e. refl, ("", refl, refl))
remove_trailing_slash-IsTrimOf (String.◌∷◌ c String.[]) = elim (Bool-cases (is_solidus c)) [
  | inl e ↦
      inr (ap (λ d. String.◌∷◌ d "") (Char-path c slash (ground (arith, e))), rw e refl, cons≢nil)
  | inr e ↦ inl (e, λ k. absurd (cons≢nil k), ("", refl, append-nil (String.◌∷◌ c "")))
]
remove_trailing_slash-IsTrimOf (String.◌∷◌ c (String.◌∷◌ d s)) =
    let t = trim_slashes (String.◌∷◌ c (String.◌∷◌ d s)) in
    elim (Bool-cases (t == "")) [
      | inl r ↦ rw r (
          inr (
            refl,
            trim_slashes-empty (String.◌∷◌ c (String.◌∷◌ d s)) ((eq_iff t "").0 r),
            cons≢nil,
          ))
      | inr r ↦ rw r (
          inl (
            trim_slashes-ends (String.◌∷◌ c (String.◌∷◌ d s)),
            λ k. absurd (ground (arith, r, eq_iff t "", k)),
            trim_slashes-append (String.◌∷◌ c (String.◌∷◌ d s)),
          ))
    ]

empty-IsTrimmed : IsTrimmed ""
unfolding remove_trailing_slash ends_in_slash
empty-IsTrimmed = (refl, λ h. ground (arith, h))

abbrev result : String → Attempt String → String
result t (done s) = s
result t (failed e) = t

module _ (parse : String → Attempt Url) (lower : String → String) where
  -- The issuer is read as an accepted URL; its scheme and host in lower case and its path, without slashes
  -- at the end, are read again; the host and the path of that, without slashes at the end, are left.
  abbrev pub IsStripped : String → String → Type 0
  IsStripped issuer_url t =
      (u v : Url) × (parse issuer_url ≡ done u)
      × IsHttpUrl u
      × ((normalized : String) × IsTrimOf (lower u.scheme ++ ("://" ++ (lower u.host ++ u.path)))
            normalized
          × (parse normalized ≡ done v))
      × IsTrimOf (v.host ++ v.path) t

  normalize_url-accepted :
      (issuer_url : String) (u : Url)
      → is_valid_url parse issuer_url ≡ none
      → parse issuer_url ≡ done u
      → normalize_url parse lower issuer_url ≡ done (build_normalized_url parse lower u)
  unfolding normalize_url
  normalize_url-accepted issuer_url u f read =
      ap (λ o. unless_refused o (parsed (build_normalized_url parse lower) (parse issuer_url))) f
      ∙ ap (parsed (build_normalized_url parse lower)) read

  -- An issuer whose protocol is stripped is empty and stays so, or is an accepted URL. Of that, the scheme
  -- and the host in lower case and the path, without the slashes at the end, are parsed again, and the
  -- result is the host and the path of what that gives, without the slashes at the end; of a text of slashes
  -- one is left. A result ends in no slash, unless it is the root.
  pub strip_protocol_from_jwt_issuer-IsTrimmed :
      (issuer_url t : String)
      → strip_protocol_from_jwt_issuer parse lower issuer_url ≡ done t
      → IsTrimmed t × (((issuer_url ≡ "") × (t ≡ "")) ⊎ IsStripped issuer_url t)
  unfolding strip_protocol_from_jwt_issuer strip_protocol
  strip_protocol_from_jwt_issuer-IsTrimmed issuer_url t h = elim (Bool-cases (issuer_url == "")) [
    | inl e ↦
        let p : done "" ≡ done t = sym (rw e refl) ∙ h in
        let q : "" ≡ t = ap (result t) p in
        (rw⁻¹ q empty-IsTrimmed, inl ((eq_iff issuer_url "").0 e, sym q))
    | inr e ↦ elim (Option-cases (is_valid_url parse issuer_url)) [
      | inr (x, f) ↦ absurd (ground (arith, h, e, f))
      | inl f ↦
          let (n, (u, read, http)) = (is_valid_url_iff parse issuer_url).0 f in
          read_back u read http (parse (build_normalized_url parse lower u)) refl
            (sym (rw (e, f, normalize_url-accepted issuer_url u f read) refl) ∙ h)
    ]
  ]
    where
      read_back :
          (u : Url)
          → parse issuer_url ≡ done u
          → IsHttpUrl u
          → (a : Attempt Url) → parse (build_normalized_url parse lower u) ≡ a
          → parsed strip_protocol a ≡ done t
          → IsTrimmed t × (((issuer_url ≡ "") × (t ≡ "")) ⊎ IsStripped issuer_url t)
      read_back u read http (failed x) back k = absurd (ground (arith, k))
      read_back u read http (done v) back k =
          let q : strip_protocol v ≡ t = ap (result t) k in
          (
            rw⁻¹ q (remove_trailing_slash-IsTrimmed (v.host ++ v.path)),
            inr (
              u,
              v,
              read,
              http,
              (
                build_normalized_url parse lower u,
                unfold build_normalized_url in
                    remove_trailing_slash-IsTrimOf
                      (lower u.scheme ++ ("://" ++ (lower u.host ++ u.path))),
                back,
              ),
              rw⁻¹ q (remove_trailing_slash-IsTrimOf (v.host ++ v.path)),
            ),
          )
