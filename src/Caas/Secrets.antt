-- ===== src/Caas/Secrets.antt =====
-- References to secrets, and the names that the identity policy derives from a tenant's id
-- (caas/secrets.mjs, and tenantIdentity of caas/config.mjs).
use Prim.Native.String.{◌++◌ as str_append}
use implement_data_space_pro.Caas.Data.{
  caas_unauthorized, space, all_codes, caas_secret_unavailable, upper, caas_secret_ref_invalid,
  digit, is_env_reference, Result, after_prefix,
}
use Prim.Native.Char.{code, Char}
use implement_data_space_pro.Prelude.{
  utf16_length, ◌==◌, all, if◌then◌else◌, ◌||◌, none, err, ◌&&◌, [], ◌∷◌, str_eq, leb, not, some,
  false, List, Option, Bool, ok, ℕ, String,
}

-- The name that `env://NAME` refers to, if it has the form of one.
env_name_of : Option String → Option String
env_name_of none = none
env_name_of (some String.[]) = none
env_name_of (some (String.◌∷◌ c s)) =
    if upper (code c) && all_codes (λ n. upper n || digit n) s then some (String.◌∷◌ c s) else none

found_secret : Option String → Result String
found_secret none = err caas_secret_unavailable
found_secret (some value) =
    if leb 16 (utf16_length value) then ok value else err caas_secret_unavailable

named_secret : (String → Option String) → Option String → Result String
named_secret env none = err caas_secret_ref_invalid
named_secret env (some name) = found_secret (env name)

unfoldable pub resolve_environment_secret : String → (String → Option String) → Result String
unfolding env_name_of found_secret named_secret
resolve_environment_secret reference env =
    named_secret env (env_name_of (after_prefix "env://" reference))

-- The first segment of a path that is split at "/" gets a character in front.
onto_first : Char → List String → List String
onto_first c [] = String.◌∷◌ c "" ∷ []
onto_first c (s ∷ rest) = String.◌∷◌ c s ∷ rest

unfoldable pub split_path : String → List String
unfolding onto_first
split_path String.[] = "" ∷ []
split_path (String.◌∷◌ c s) =
    let rest = split_path s in if code c == 47 then "" ∷ rest else onto_first c rest

abbrev alphanumeric : ℕ → Bool
alphanumeric n = (leb 65 n && leb n 90) || (leb 97 n && leb n 122) || digit n

-- /^[A-Za-z0-9][A-Za-z0-9._/-]{0,239}$/u
vault_path : String → Bool
vault_path String.[] = false
vault_path (String.◌∷◌ c s) =
    alphanumeric (code c)
    && all_codes (λ n. alphanumeric n || n == 46 || n == 95 || n == 47 || n == 45) s
    && leb (utf16_length s) 239

canonical_segment : String → Bool
canonical_segment s = not (str_eq s "") && not (str_eq s ".") && not (str_eq s "..")

canonical_path : Option String → Bool
canonical_path none = false
canonical_path (some path) = vault_path path && all canonical_segment (split_path path)

unfoldable pub validate_deployment_secret_reference : String → Bool
unfolding vault_path canonical_segment canonical_path
validate_deployment_secret_reference reference =
    is_env_reference reference || canonical_path (after_prefix "vault://" reference)

-- secretEqual compares SHA-256 digests: the secrets are equal, but for a collision.
abbrev pub secret_equal : String → String → Bool
secret_equal a b = str_eq a b

replaced : String → Option String → String → String
replaced replacement none kept = kept
replaced replacement (some rest) kept = str_append replacement rest

-- `template.replace(pattern, replacement)` for a replacement without "$", and a pattern that is not
-- empty.
unfoldable pub replace_first : String → String → String → String
unfolding replaced
replace_first pattern replacement String.[] = ""
replace_first pattern replacement (String.◌∷◌ c s) =
    let rest = replace_first pattern replacement s in
    replaced replacement (after_prefix pattern (String.◌∷◌ c s)) (String.◌∷◌ c rest)

pub record IdentityPolicy : Type 0 where
  pub participant_id_template : String
  pub namespace_template : String
  pub endpoint_template : String

pub record Derived : Type 0 where
  pub participant_id : String
  pub namespace : String
  pub endpoint : String

unfoldable pub tenant_identity : IdentityPolicy → String → Derived
unfolding replace_first
tenant_identity policy tenant_id = record {
  participant_id = replace_first "{tenantId}" tenant_id policy.participant_id_template;
  namespace = replace_first "{tenantId}" tenant_id policy.namespace_template;
  endpoint = replace_first "{tenantId}" tenant_id policy.endpoint_template;
}

-- `[^\s]+` up to the end.
unspaced : String → Bool
unspaced s = all_codes (λ c. not (space c)) s && leb 1 (utf16_length s)

token_of : Option String → Result String
unfolding unspaced
token_of none = err caas_unauthorized
token_of (some token) = if unspaced token then ok token else err caas_unauthorized

-- bearerToken
unfoldable pub bearer_token : Option String → Result String
unfolding token_of
bearer_token none = err caas_unauthorized
bearer_token (some header) = token_of (after_prefix "Bearer " header)
