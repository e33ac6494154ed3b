-- ===== src/Upstream/Forwarded.antt =====
-- `apply_forwarded_headers` of src/upstream.rs: the `x-forwarded-*` headers.
use pingora_reverse_proxy.Prelude.{
  ◌≡◌, refl, sym, ap, ◌∙◌, Bool, true, false, Option, none, some, List, [], ◌∷◌, ◌++◌, map,
  if◌then◌else◌, Result, ok, err, Text, text, text_eq, is_empty,
}
use pingora_reverse_proxy.Config.{ProxyOptions}
use pingora_reverse_proxy.Upstream.Paths.{join, to_string}
use pingora_reverse_proxy.Upstream.Headers.{
  HttpHeaders, ProxyRequestError, invalid_custom_header_value, ForwardedContext, forwarded_host,
  host_header, head,
}

abbrev pub forwarded_for : Text
forwarded_for = text "x-forwarded-for"

abbrev pub forwarded_port : Text
forwarded_port = text "x-forwarded-port"

abbrev pub forwarded_proto : Text
forwarded_proto = text "x-forwarded-proto"

-- Texts, each followed by a comma, and then the last one.
abbrev pub separated : List Text → Text → Text
separated [] last = last
separated (t ∷ ts) last = t ++ 44 ∷ separated ts last

join-separated :
    (parts : List Text) (value : Text)
    → join (text ",") (parts ++ value ∷ []) ≡ separated parts value
join-separated [] value = refl
join-separated (t ∷ []) value = refl
join-separated (t ∷ u ∷ ts) value = ap (λ rest. t ++ 44 ∷ rest) (join-separated (u ∷ ts) value)

module _ {H V : Type 0} (http : HttpHeaders H V) where
  abbrev pub cons_text : Option Text → Option (List Text) → Option (List Text)
  cons_text none rest = none
  cons_text (some t) none = none
  cons_text (some t) (some ts) = some (t ∷ ts)

  -- `collect::<Result<Vec<_>, _>>` over the texts of the values.
  unfoldable pub texts : List V → Option (List Text)
  texts [] = some []
  texts (v ∷ vs) = cons_text (http.to_str v) (texts vs)

  -- A round of the loop: the values there are and the new one, joined by commas.
  unfoldable pub combined : Text → Text → H → Option V
  unfolding texts
  combined name value headers = elim (texts (http.get_all name headers)) [
    | none ↦ none
    | some parts ↦ http.from_str (join (text ",") (parts ++ value ∷ []))
  ]

  abbrev pub host_of : Option V → V
  host_of none = http.from_static []
  host_of (some value) = value

  abbrev pub with_host : H → H → H
  with_host original headers =
      if is_empty (http.get_all forwarded_host original)
      then http.insert forwarded_host (host_of (head (http.get_all host_header original))) headers
      else headers

  abbrev pub write_forwarded :
      H → Option V → Option V → Option V → Result ProxyRequestError (Unit {0}) × H
  write_forwarded headers none b c = (err (invalid_custom_header_value forwarded_for), headers)
  write_forwarded headers (some a) none c =
      (err (invalid_custom_header_value forwarded_port), headers)
  write_forwarded headers (some a) (some b) none =
      (err (invalid_custom_header_value forwarded_proto), headers)
  write_forwarded headers (some a) (some b) (some c) = (
    ok tt,
    with_host headers (
        http.insert forwarded_proto c
          (http.insert forwarded_port b (http.insert forwarded_for a headers))),
  )

  unfoldable pub apply_forwarded_headers :
      H → ForwardedContext → ProxyOptions → Result ProxyRequestError (Unit {0}) × H
  unfolding combined to_string
  apply_forwarded_headers headers context options =
      if options.x_forward
      then write_forwarded headers (combined forwarded_for context.client_address headers)
          (combined forwarded_port (to_string context.port) headers)
          (combined forwarded_proto context.protocol headers)
      else (ok tt, headers)

  -- The header holds one value: the values it had, in order, then the new one.
  abbrev pub Appends : Text → Text → H → H → Type 0
  Appends name value before after =
      (parts : List Text) × (map http.to_str (http.get_all name before) ≡ map some parts)
      × ((v : V) × (http.from_str (separated parts value) ≡ some v)
          × (http.get_all name after ≡ v ∷ []))

  -- The values of `x-forwarded-host`, from those that it and `Host` had.
  abbrev pub ForwardsHost : List V → List V → List V → Type 0
  ForwardsHost [] [] after = after ≡ http.from_static [] ∷ []
  ForwardsHost [] (host ∷ hosts) after = after ≡ host ∷ []
  ForwardsHost (v ∷ vs) hosts after = after ≡ v ∷ vs

  abbrev pub IsForwarded : ForwardedContext → H → H → Type 0
  IsForwarded context before after =
      Appends forwarded_for context.client_address before after
      × Appends forwarded_port (to_string context.port) before after
      × Appends forwarded_proto context.protocol before after
      × ForwardsHost (http.get_all forwarded_host before) (http.get_all host_header before)
          (http.get_all forwarded_host after)

  cons_text-some :
      (o : Option Text) (r : Option (List Text)) (parts : List Text)
      → cons_text o r ≡ some parts
      → (t : Text) × (ts : List Text) × (o ≡ some t) × (r ≡ some ts) × (t ∷ ts ≡ parts)
  cons_text-some none r parts h = cc (h)
  cons_text-some (some t) none parts h = cc (h)
  cons_text-some (some t) (some ts) parts h = (t, ts, refl, refl, cc (h))

  texts-eq-some :
      (vs : List V) (parts : List Text)
      → texts vs ≡ some parts
      → map http.to_str vs ≡ map some parts
  unfolding texts
  texts-eq-some [] [] h = refl
  texts-eq-some [] (t ∷ ts) h = cc (h)
  texts-eq-some (v ∷ vs) parts h =
      let (t, ts, a, b, c) = cons_text-some (http.to_str v) (texts vs) parts h in
      rw (sym c, a, texts-eq-some vs ts b)

  combined-some :
      (name value : Text) (headers : H) (v : V) (r : Option (List Text))
      → texts (http.get_all name headers) ≡ r
      → (elim r [
        | none ↦ none
        | some parts ↦ http.from_str (join (text ",") (parts ++ value ∷ []))
      ])
        ≡ some v
      → (parts : List Text) × (map http.to_str (http.get_all name headers) ≡ map some parts)
        × (http.from_str (separated parts value) ≡ some v)
  combined-some name value headers v none k h = cc (h)
  combined-some name value headers v (some parts) k h = (
    parts,
    texts-eq-some (http.get_all name headers) parts k,
    rw (sym (join-separated parts value)) h,
  )

  combined-Appends :
      (name value : Text) (before after : H)
      → (v : V) × (combined name value before ≡ some v) × (http.get_all name after ≡ v ∷ [])
      → Appends name value before after
  unfolding combined
  combined-Appends name value before after (v, e, g) =
      let (parts, t, w) =
        combined-some name value before v (texts (http.get_all name before)) refl e in
      (parts, t, (v, w, g))

  -- The headers after the three values are written.
  abbrev three : H → V → V → V → H
  three headers a b c =
      http.insert forwarded_proto c
        (http.insert forwarded_port b (http.insert forwarded_for a headers))

  get_all-three :
      (j : Text) (headers : H) (a b c : V)
      → http.get_all j (three headers a b c) ≡ (
          if text_eq j forwarded_proto
          then c ∷ []
          else (if text_eq j forwarded_port
              then b ∷ []
              else (if text_eq j forwarded_for then a ∷ [] else http.get_all j headers)))
  get_all-three j headers a b c = rw (
    http.get_all-insert j forwarded_proto c
        (http.insert forwarded_port b (http.insert forwarded_for a headers)),
    http.get_all-insert j forwarded_port b (http.insert forwarded_for a headers),
    http.get_all-insert j forwarded_for a headers,
  )

  get-kept :
      (j : Text) (headers : H) (b : Bool) (v : V)
      → text_eq j forwarded_host ≡ false
      → http.get_all j (if b then http.insert forwarded_host v headers else headers)
        ≡ http.get_all j headers
  get-kept j headers true v e = rw (http.get_all-insert j forwarded_host v headers, e)
  get-kept j headers false v e = refl

  with_host-if :
      (original headers : H) (b : Bool)
      → is_empty (http.get_all forwarded_host original) ≡ b
      → with_host original headers ≡ (
          if b
          then http.insert forwarded_host
              (host_of (head (http.get_all host_header original)))
              headers
          else headers)
  with_host-if original headers b e =
      ap
        (λ c.
          if c
          then http.insert forwarded_host (host_of (head (http.get_all host_header original)))
              headers
          else headers)
        e

  get_all-host :
      (v : V) (headers : H)
      → http.get_all forwarded_host (http.insert forwarded_host v headers) ≡ v ∷ []
  unfolding text_eq
  get_all-host v headers = http.get_all-insert forwarded_host forwarded_host v headers

  with_host-ForwardsHost :
      (original headers : H) (xs hosts : List V)
      → http.get_all forwarded_host original ≡ xs
      → http.get_all host_header original ≡ hosts
      → http.get_all forwarded_host headers ≡ http.get_all forwarded_host original
      → ForwardsHost xs hosts (http.get_all forwarded_host (with_host original headers))
  with_host-ForwardsHost original headers [] [] e k s =
      ap (http.get_all forwarded_host) (with_host-if original headers true (ap is_empty e))
      ∙ get_all-host _ headers
      ∙ ap (λ hs. host_of (head hs) ∷ []) k
  with_host-ForwardsHost original headers [] (host ∷ hosts) e k s =
      ap (http.get_all forwarded_host) (with_host-if original headers true (ap is_empty e))
      ∙ get_all-host _ headers
      ∙ ap (λ hs. host_of (head hs) ∷ []) k
  with_host-ForwardsHost original headers (v ∷ vs) hosts e k s =
      ap (http.get_all forwarded_host) (with_host-if original headers false (ap is_empty e)) ∙ s ∙ e

  -- The host comes last and is none of the three.
  get_all-with_host :
      (j : Text) (original headers : H)
      → text_eq j forwarded_host ≡ false
      → http.get_all j (with_host original headers) ≡ http.get_all j headers
  get_all-with_host j original headers e =
      get-kept j headers (is_empty (http.get_all forwarded_host original))
        (host_of (head (http.get_all host_header original))) e

  written :
      (headers : H) (a b c : V)
      → ((v : V) × (some a ≡ some v)
          × (http.get_all forwarded_for (with_host headers (three headers a b c)) ≡ v ∷ []))
        × ((v : V) × (some b ≡ some v)
            × (http.get_all forwarded_port (with_host headers (three headers a b c)) ≡ v ∷ []))
        × ((v : V) × (some c ≡ some v)
            × (http.get_all forwarded_proto (with_host headers (three headers a b c)) ≡ v ∷ []))
        × ForwardsHost
            (http.get_all forwarded_host headers)
            (http.get_all host_header headers)
            (http.get_all forwarded_host (with_host headers (three headers a b c)))
  unfolding text_eq
  written headers a b c = (
    (
      a,
      refl,
      get_all-with_host forwarded_for headers (three headers a b c) refl
          ∙ get_all-three forwarded_for headers a b c,
    ),
    (
      b,
      refl,
      get_all-with_host forwarded_port headers (three headers a b c) refl
          ∙ get_all-three forwarded_port headers a b c,
    ),
    (
      c,
      refl,
      get_all-with_host forwarded_proto headers (three headers a b c) refl
          ∙ get_all-three forwarded_proto headers a b c,
    ),
    with_host-ForwardsHost headers (three headers a b c) _ _ refl refl
        (get_all-three forwarded_host headers a b c),
  )

  write_forwarded-Appends :
      (headers : H) (a b c : Option V) (after : H)
      → write_forwarded headers a b c ≡ (ok tt, after)
      → ((v : V) × (a ≡ some v) × (http.get_all forwarded_for after ≡ v ∷ []))
        × ((v : V) × (b ≡ some v) × (http.get_all forwarded_port after ≡ v ∷ []))
        × ((v : V) × (c ≡ some v) × (http.get_all forwarded_proto after ≡ v ∷ []))
        × ForwardsHost
            (http.get_all forwarded_host headers)
            (http.get_all host_header headers)
            (http.get_all forwarded_host after)
  write_forwarded-Appends headers none b c after h = cc (h)
  write_forwarded-Appends headers (some a) none c after h = cc (h)
  write_forwarded-Appends headers (some a) (some b) none after h = cc (h)
  write_forwarded-Appends headers (some a) (some b) (some c) after h =
      rw (sym (ap (λ r. r.1) h)) (written headers a b c)

  -- Where the option is on and no value is refused: each of the three headers holds one value, the
  -- texts that it had in the request, in order and each followed by a comma, and then the client's
  -- address, the port or the protocol. `x-forwarded-host` stays if the request has it, and is
  -- otherwise the first `Host` value, or empty if there is none.
  pub apply_forwarded_headers-IsForwarded :
      (headers : H) (context : ForwardedContext) (options : ProxyOptions) (after : H)
      → options.x_forward ≡ true
      → apply_forwarded_headers headers context options ≡ (ok tt, after)
      → IsForwarded context headers after
  unfolding apply_forwarded_headers
  apply_forwarded_headers-IsForwarded headers context options after on h =
      let (a, b, c, host) =
        write_forwarded-Appends headers (combined forwarded_for context.client_address headers)
          (combined forwarded_port (to_string context.port) headers)
          (combined forwarded_proto context.protocol headers) after (rw (on) at h) in
      (
        combined-Appends forwarded_for context.client_address headers after a,
        combined-Appends forwarded_port (to_string context.port) headers after b,
        combined-Appends forwarded_proto context.protocol headers after c,
        host,
      )
