-- ===== src/Upstream/Policy.antt =====
-- What reaches the upstream server after `apply_request_headers` of src/upstream.rs.
use pingora_reverse_proxy.Prelude.{
  ◌≡◌, false, Option, none, some, [], All, ◌∷◌, Result, ok, err, Text,
}
use pingora_reverse_proxy.Config.{ProxyOptions}
use pingora_reverse_proxy.Upstream.Headers.{
  HttpHeaders, ProxyRequestError, connection, upgrade, hop_names, remove_all, named,
  websocket_upgrade,
}
use pingora_reverse_proxy.Upstream.Nominated.{Nominates, IsNotWritten}

module _ {H V : Type 0} (http : HttpHeaders H V) where
  abbrev Gone : Text → H → Type 0
  Gone name headers = http.get_all name headers ≡ []

  abbrev kept : H → H
  kept h = remove_all http hop_names (remove_all http (named http false h) h)

  -- `Connection` and `Upgrade` come back for a websocket, and are absent otherwise.
  abbrev pub Upgrades : Option V → H → Type 0
  Upgrades none after = (http.get_all connection after ≡ []) × (http.get_all upgrade after ≡ [])
  Upgrades (some value) after =
      (http.get_all connection after ≡ http.from_static upgrade ∷ [])
      × (http.get_all upgrade after ≡ value ∷ [])

  abbrev pub IsStripped : Option V → H → Type 0
  IsStripped websocket after =
      All (λ j. http.get_all j after ≡ []) hop_names × Upgrades websocket after

  -- No header that the request's `Connection` names is left, unless the policy writes it again.
  abbrev pub LosesNominated : ProxyOptions → H → H → Type 0
  LosesNominated options before after =
      (j : Text) → Nominates http before j → IsNotWritten http j options → http.get_all j after ≡ []

  -- A refusal leaves the headers alone.
  abbrev pub Applied : ProxyOptions → H → Result ProxyRequestError (Unit {0}) → H → Type 0
  Applied options before (err e) after = after ≡ before
  Applied options before (ok _) after =
      IsStripped (websocket_upgrade http before) after × LosesNominated options before after
