-- ===== src/Http/Access.antt =====
-- Who may call which route (internal/adapters/http/handler.go: Routes; internal/adapters/http/middleware:
-- middleware.go, scopes.go). A request goes through the guards of its route, the outermost first.
-- The authenticator is a parameter: its answer for the request is an argument.
pub mod Guards
use backend_challenge_go_jun.Prelude.{
  ◌≡◌, refl, Bool, true, false, not, ◌||◌, Option, none, some, List, [], ◌∷◌, any, length, ltb,
  if◌then◌else◌, Result, ok, err, ◌>>=◌, ◌>>◌, map_err, reject_if, reject_if-eq-ok, >>=-eq-ok,
}
use backend_challenge_go_jun.Prelude.Bytes.{Bytes, codes, is_empty, bytes_eq}
use backend_challenge_go_jun.Http.{Refusal, unauthorized, refusal, forbidden_refusal}

pub record Principal : Type 0 where
  pub subject : Bytes
  pub provider_id : Bytes
  pub scopes : List Bytes

unfoldable pub has_scope : Principal → Bytes → Bool
has_scope p scope = any (λ granted. bytes_eq granted scope) p.scopes

-- The identity that `Correlation` reads, or the fresh UUID that it makes.
unfoldable pub request_correlation : (header fresh : Bytes) → Bytes
request_correlation header fresh =
    if is_empty header || ltb 128 (length header) then fresh else header

-- The errors of an authenticator: one that is ErrForbidden, and every other one.
pub data AuthError : Type 0 where
  err_forbidden err_unauthenticated : AuthError

-- The patterns of the mux; `any_other` is the catch-all of requests that no pattern fits.
pub data Route : Type 0 where
  health_live health_ready metrics open_wallet wallet_by_id ledger_page submit_wager
        transaction_by_id provider_transaction reconcile any_other :
      Route

abbrev pub scope_wallets_write : Bytes
scope_wallets_write = codes "wallets:write"

abbrev pub scope_wallets_read : Bytes
scope_wallets_read = codes "wallets:read"

abbrev pub scope_reconciliation_execute : Bytes
scope_reconciliation_execute = codes "reconciliation:execute"

abbrev pub scope_metrics_read : Bytes
scope_metrics_read = codes "metrics:read"

abbrev pub scope_wagering_write : Bytes
scope_wagering_write = codes "wagering:write"

abbrev pub scope_wagering_read : Bytes
scope_wagering_read = codes "wagering:read"

-- RouteScopes
abbrev pub route_scopes : Route → Option Bytes
route_scopes open_wallet = some scope_wallets_write
route_scopes wallet_by_id = some scope_wallets_read
route_scopes ledger_page = some scope_wallets_read
route_scopes reconcile = some scope_reconciliation_execute
route_scopes metrics = some scope_metrics_read
route_scopes submit_wager = some scope_wagering_write
route_scopes transaction_by_id = some scope_wagering_read
route_scopes provider_transaction = some scope_wagering_read
route_scopes _ = none

unfoldable pub auth_refusal : AuthError → Refusal
auth_refusal err_forbidden = forbidden_refusal
auth_refusal err_unauthenticated = refusal 401 unauthorized

-- `Authenticate`; behind it the context holds the principal.
unfoldable pub authenticate : Result AuthError Principal → Result Refusal Principal
unfolding auth_refusal
authenticate answer = map_err (λ e. auth_refusal e) answer

unfoldable pub require_internal : Principal → Result Refusal (Unit {0})
require_internal p = reject_if (not (is_empty p.provider_id)) forbidden_refusal

unfoldable pub require_provider : Principal → Result Refusal (Unit {0})
require_provider p = reject_if (is_empty p.provider_id) forbidden_refusal

unfoldable pub require_scope : Bytes → Principal → Result Refusal (Unit {0})
unfolding has_scope
require_scope scope p = reject_if (not (has_scope p scope)) forbidden_refusal

-- The chains of Routes.
unfoldable pub protected : Bytes → Result AuthError Principal → Result Refusal Principal
unfolding authenticate require_scope
protected scope answer = do p ← authenticate answer; require_scope scope p; ok p

unfoldable pub internal : Bytes → Result AuthError Principal → Result Refusal Principal
unfolding authenticate require_internal require_scope
internal scope answer = do p ← authenticate answer; require_internal p; require_scope scope p; ok p

unfoldable pub provider : Bytes → Result AuthError Principal → Result Refusal Principal
unfolding authenticate require_provider require_scope
provider scope answer = do p ← authenticate answer; require_provider p; require_scope scope p; ok p

-- The guards of Routes: the principal that reaches the handler, which has none on an open route.
unfoldable pub admit : Route → Result AuthError Principal → Result Refusal (Option Principal)
unfolding protected internal provider
admit health_live answer = ok none
admit health_ready answer = ok none
admit metrics answer = do p ← internal scope_metrics_read answer; ok (some p)
admit open_wallet answer = do p ← internal scope_wallets_write answer; ok (some p)
admit wallet_by_id answer = do p ← internal scope_wallets_read answer; ok (some p)
admit ledger_page answer = do p ← internal scope_wallets_read answer; ok (some p)
admit submit_wager answer = do p ← provider scope_wagering_write answer; ok (some p)
admit transaction_by_id answer = do p ← protected scope_wagering_read answer; ok (some p)
admit provider_transaction answer = do p ← provider scope_wagering_read answer; ok (some p)
admit reconcile answer = do p ← internal scope_reconciliation_execute answer; ok (some p)
admit any_other answer = ok none

-- A route for the clients that are no provider.
abbrev pub is_internal_route : Route → Bool
is_internal_route metrics = true
is_internal_route open_wallet = true
is_internal_route wallet_by_id = true
is_internal_route ledger_page = true
is_internal_route reconcile = true
is_internal_route _ = false

-- A route for providers.
abbrev pub is_provider_route : Route → Bool
is_provider_route submit_wager = true
is_provider_route provider_transaction = true
is_provider_route _ = false

-- The authenticated identity holds the scope of the table RouteScopes and is of the right side.
pub record Entitled (route : Route) (answer : Result AuthError Principal) (p : Principal)
    : Type 0 where
  pub authenticated : answer ≡ ok p
  pub scope : Bytes
  pub listed : route_scopes route ≡ some scope
  pub granted : has_scope p scope ≡ true
  pub no_provider : is_internal_route route ≡ true → is_empty p.provider_id ≡ true
  pub a_provider : is_provider_route route ≡ true → is_empty p.provider_id ≡ false

-- Who has been admitted: everyone to an open route, and the entitled to every other one.
abbrev pub Admitted : Route → Result AuthError Principal → Option Principal → Type 0
Admitted route answer none = route_scopes route ≡ none
Admitted route answer (some p) = Entitled route answer p
