-- ===== src/Http/Access/Guards.antt =====
-- The guards of the routes enforce the table of scopes (internal/adapters/http/handler.go: Routes;
-- internal/adapters/http/middleware/scopes.go: RouteScopes).
use backend_challenge_go_jun.Prelude.{
  ◌≡◌, refl, true, false, not, Option, some, Result, ok, ◌>>=◌, arith, map_err-eq-ok,
  reject_if-eq-ok, >>=-eq-ok, ok-injective,
}
use backend_challenge_go_jun.Prelude.Bytes.{Bytes, is_empty}
use backend_challenge_go_jun.Http.{forbidden_refusal}
use backend_challenge_go_jun.Http.Access.{
  Principal, has_scope, AuthError, Route, health_live, health_ready, metrics, open_wallet,
  wallet_by_id, ledger_page, submit_wager, transaction_by_id, provider_transaction, reconcile,
  any_other, is_internal_route, is_provider_route, route_scopes, auth_refusal, authenticate,
  require_internal, require_provider, require_scope, protected, internal, provider, admit, Admitted,
  scope_wallets_write, scope_wallets_read, scope_reconciliation_execute, scope_metrics_read,
  scope_wagering_write, scope_wagering_read,
}

module _ (scope : Bytes) (answer : Result AuthError Principal) where
  protected-granted :
      {p : Principal} → protected scope answer ≡ ok p → (answer ≡ ok p) × (has_scope p scope ≡ true)
  unfolding protected authenticate require_scope
  protected-granted h =
      let (q, a, h) = >>=-eq-ok (authenticate answer) _ h in
      let (g, h) = reject_if-eq-ok (not (has_scope q scope)) forbidden_refusal _ h in
      rw (← ok-injective h) (map_err-eq-ok (λ e. auth_refusal e) answer a, ground (arith, g))

  internal-granted :
      {p : Principal}
      → internal scope answer ≡ ok p
      → (answer ≡ ok p) × (has_scope p scope ≡ true) × (is_empty p.provider_id ≡ true)
  unfolding internal authenticate require_internal require_scope
  internal-granted h =
      let (q, a, h) = >>=-eq-ok (authenticate answer) _ h in
      let (i, h) = reject_if-eq-ok (not (is_empty q.provider_id)) forbidden_refusal _ h in
      let (g, h) = reject_if-eq-ok (not (has_scope q scope)) forbidden_refusal _ h in
      rw (← ok-injective h)
        (map_err-eq-ok (λ e. auth_refusal e) answer a, ground (arith, g), ground (arith, i))

  provider-granted :
      {p : Principal}
      → provider scope answer ≡ ok p
      → (answer ≡ ok p) × (has_scope p scope ≡ true) × (is_empty p.provider_id ≡ false)
  unfolding provider authenticate require_provider require_scope
  provider-granted h =
      let (q, a, h) = >>=-eq-ok (authenticate answer) _ h in
      let (i, h) = reject_if-eq-ok (is_empty q.provider_id) forbidden_refusal _ h in
      let (g, h) = reject_if-eq-ok (not (has_scope q scope)) forbidden_refusal _ h in
      rw (← ok-injective h) (map_err-eq-ok (λ e. auth_refusal e) answer a, ground (arith, g), i)

  internal_route :
      (route : Route) {o : Option Principal}
      → route_scopes route ≡ some scope
      → is_provider_route route ≡ false
      → (internal scope answer >>= λ q. ok (some q)) ≡ ok o
      → Admitted route answer o
  internal_route route listed side h =
      let (q, a, h) = >>=-eq-ok (internal scope answer) _ h in
      let (known, granted, lone) = internal-granted a in
      rw (← ok-injective h) (record {
        authenticated = known;
        scope = scope;
        listed = listed;
        granted = granted;
        no_provider = λ _. lone;
        a_provider = λ g. cc;
      })

  provider_route :
      (route : Route) {o : Option Principal}
      → route_scopes route ≡ some scope
      → is_internal_route route ≡ false
      → (provider scope answer >>= λ q. ok (some q)) ≡ ok o
      → Admitted route answer o
  provider_route route listed side h =
      let (q, a, h) = >>=-eq-ok (provider scope answer) _ h in
      let (known, granted, owned) = provider-granted a in
      rw (← ok-injective h) (record {
        authenticated = known;
        scope = scope;
        listed = listed;
        granted = granted;
        no_provider = λ g. cc;
        a_provider = λ _. owned;
      })

  common_route :
      (route : Route) {o : Option Principal}
      → route_scopes route ≡ some scope
      → is_internal_route route ≡ false
      → is_provider_route route ≡ false
      → (protected scope answer >>= λ q. ok (some q)) ≡ ok o
      → Admitted route answer o
  common_route route listed inner outer h =
      let (q, a, h) = >>=-eq-ok (protected scope answer) _ h in
      let (known, granted) = protected-granted a in
      rw (← ok-injective h) (record {
        authenticated = known;
        scope = scope;
        listed = listed;
        granted = granted;
        no_provider = λ g. cc;
        a_provider = λ g. cc;
      })

-- A request that the guards of a route let through comes from an authenticated identity that holds
-- exactly the scope that RouteScopes names for the route; on the wallet, ledger, reconciliation and
-- metrics routes it has no provider, and on the provider routes it has one. Only the health routes
-- and the catch-all, for which the table names no scope, let a request through without an identity.
pub admit-Admitted :
    (route : Route) (answer : Result AuthError Principal) {o : Option Principal}
    → admit route answer ≡ ok o
    → Admitted route answer o
unfolding admit
admit-Admitted health_live answer h = rw (← ok-injective h) refl
admit-Admitted health_ready answer h = rw (← ok-injective h) refl
admit-Admitted metrics answer h = internal_route scope_metrics_read answer metrics refl refl h
admit-Admitted open_wallet answer h =
    internal_route scope_wallets_write answer open_wallet refl refl h
admit-Admitted wallet_by_id answer h =
    internal_route scope_wallets_read answer wallet_by_id refl refl h
admit-Admitted ledger_page answer h =
    internal_route scope_wallets_read answer ledger_page refl refl h
admit-Admitted submit_wager answer h =
    provider_route scope_wagering_write answer submit_wager refl refl h
admit-Admitted transaction_by_id answer h =
    common_route scope_wagering_read answer transaction_by_id refl refl refl h
admit-Admitted provider_transaction answer h =
    provider_route scope_wagering_read answer provider_transaction refl refl h
admit-Admitted reconcile answer h =
    internal_route scope_reconciliation_execute answer reconcile refl refl h
admit-Admitted any_other answer h = rw (← ok-injective h) refl
