-- ===== src/Config/Normal.antt =====
-- config.py: what every accepted configuration is like.
use activegraph_surrealdb.Prelude.{
  String, ◌≡◌, ◌≢◌, refl, ap, true, false, ◌==◌, nat_eq, [], ◌∷◌, codes, arith, Bool-cases, inl,
  inr, sym, ◌∙◌, subst,
}
use activegraph_surrealdb.Errors.{ok, bind-eq-ok}
use activegraph_surrealdb.Strings.{Text, strip, rstrip, ends_with, but_last_4}
use activegraph_surrealdb.Strings.Trimming.{
  IsTrimmed, last_passes, last_passes-trim_right, trim_right_kept, strip-IsTrimmed, strip_kept,
}
use activegraph_surrealdb.Config.{
  SurrealConfig, base_endpoint, has_scheme, endpoint_of, non_empty, required, post_init,
}

-- a value that is not blank, with no whitespace at its ends
pub record IsFilled (value : Text) : Type 0 where
  pub trimmed : IsTrimmed value
  pub filled : value ≢ []

-- The endpoint has a WebSocket scheme and does not end in a slash, and the other fields are filled.
pub record IsNormal (config : SurrealConfig) : Type 0 where
  pub scheme : has_scheme config.endpoint ≡ true
  pub no_slash : last_passes (λ c. c == b'/') config.endpoint ≡ false
  pub namespace : IsFilled config.namespace
  pub database : IsFilled config.database
  pub username : IsFilled config.username
  pub password : IsFilled config.password

base_endpoint_no_slash : (given : Text) → last_passes (λ c. c == b'/') (base_endpoint given) ≡ false
unfolding base_endpoint rstrip
base_endpoint_no_slash given =
    let endpoint = rstrip b'/' (strip given) in
    elim (Bool-cases (ends_with (codes "/rpc") endpoint)) [
      | inl rpc ↦ rw rpc (last_passes-trim_right (λ c. c == b'/') (but_last_4 endpoint))
      | inr plain ↦ rw plain (last_passes-trim_right (λ c. c == b'/') (strip given))
    ]

endpoint_of-ok :
    (given endpoint : Text)
    → endpoint_of given ≡ ok endpoint
    → (endpoint ≡ base_endpoint given) × (has_scheme endpoint ≡ true)
unfolding endpoint_of
endpoint_of-ok given endpoint h = elim (Bool-cases (has_scheme (base_endpoint given))) [
  | inl yes_scheme ↦
      let e : endpoint ≡ base_endpoint given = ground (arith, h, yes_scheme) in
      (e, subst (λ t. has_scheme t ≡ true) (sym e) yes_scheme)
  | inr no_scheme ↦ absurd (ground (arith, h, no_scheme))
]

non_empty-ok :
    (message : String) (value filled : Text)
    → non_empty message value ≡ ok filled
    → (filled ≡ value) × (filled ≢ [])
non_empty-ok message [] filled h = absurd (cc)
non_empty-ok message (c ∷ cs) filled h = (cc, λ e. absurd (cc))

required-IsFilled :
    (message : String) (value filled : Text) → required message value ≡ ok filled → IsFilled filled
unfolding required
required-IsFilled message value filled h =
    let (e, nonempty) = non_empty-ok message (strip value) filled h in
    record { trimmed = subst IsTrimmed (sym e) (strip-IsTrimmed value); filled = nonempty }

-- Every configuration that is accepted has a WebSocket endpoint with no slash at its end, and its
-- other fields are not blank and have no whitespace at their ends.
pub post_init-IsNormal :
    (given config : SurrealConfig) → post_init given ≡ ok config → IsNormal config
unfolding post_init
post_init-IsNormal given config h =
    let (endpoint, e, h1) = bind-eq-ok (endpoint_of given.endpoint) _ h in
    let (namespace, n, h2) =
      bind-eq-ok (required "namespace must be non-empty" given.namespace) _ h1 in
    let (database, d, h3) =
      bind-eq-ok (required "database must be non-empty" given.database) _ h2 in
    let (username, u, h4) =
      bind-eq-ok (required "username must be non-empty" given.username) _ h3 in
    let (password, p, h5) =
      bind-eq-ok (required "password must be non-empty" given.password) _ h4 in
    let (same, scheme) = endpoint_of-ok given.endpoint endpoint e in
    subst_ok IsNormal h5 (record {
      scheme = scheme;
      no_slash = rw same (base_endpoint_no_slash given.endpoint);
      namespace = required-IsFilled _ _ namespace n;
      database = required-IsFilled _ _ database d;
      username = required-IsFilled _ _ username u;
      password = required-IsFilled _ _ password p;
    })
  where
    subst_ok : {a b : SurrealConfig} → (P : SurrealConfig → Type 0) → ok a ≡ ok b → P a → P b
    subst_ok P e x = subst P (cc) x

required_kept :
    (message : String) (value : Text) → IsFilled value → required message value ≡ ok value
unfolding required
required_kept message [] f = absurd (f.filled refl)
required_kept message (c ∷ cs) f = rw (strip_kept (c ∷ cs) f.trimmed) refl

rstrip_kept :
    (endpoint : Text)
    → last_passes (λ c. c == b'/') endpoint ≡ false
    → rstrip b'/' endpoint ≡ endpoint
unfolding rstrip
rstrip_kept endpoint s = trim_right_kept (λ c. c == b'/') endpoint s

base_endpoint_kept :
    (endpoint : Text)
    → IsTrimmed endpoint
    → last_passes (λ c. c == b'/') endpoint ≡ false
    → ends_with (codes "/rpc") endpoint ≡ false
    → base_endpoint endpoint ≡ endpoint
unfolding base_endpoint
base_endpoint_kept endpoint t s r =
    let same = ap (rstrip b'/') (strip_kept endpoint t) ∙ rstrip_kept endpoint s in
    rw same (rw r refl)

endpoint_of_kept :
    (endpoint : Text)
    → base_endpoint endpoint ≡ endpoint
    → has_scheme endpoint ≡ true
    → endpoint_of endpoint ≡ ok endpoint
unfolding endpoint_of
endpoint_of_kept endpoint same k = rw same (rw k refl)

-- A configuration with a WebSocket endpoint that does not end in a slash and whose other fields are
-- filled and trimmed is accepted as it stands, if its endpoint has no whitespace at its ends and does
-- not end in "/rpc".
pub post_init_kept :
    (config : SurrealConfig)
    → IsNormal config
    → IsTrimmed config.endpoint
    → ends_with (codes "/rpc") config.endpoint ≡ false
    → post_init config ≡ ok config
unfolding post_init
post_init_kept config n t r = ground (
  arith,
  endpoint_of_kept config.endpoint (base_endpoint_kept config.endpoint t n.no_slash r) n.scheme,
  required_kept "namespace must be non-empty" config.namespace n.namespace,
  required_kept "database must be non-empty" config.database n.database,
  required_kept "username must be non-empty" config.username n.username,
  required_kept "password must be non-empty" config.password n.password,
)
