-- ===== src/Store/Redis/Replaced.antt =====
-- `add`, `put` and `put_preserving_activity` of src/store/redis.rs.
use pingora_reverse_proxy.Prelude.{
  ℕ, zero, suc, ◌≡◌, refl, sym, ◌∙◌, Option, none, some, List, ◌∷◌, Result, ok, err, Text, text,
}
use pingora_reverse_proxy.Map.{insert}
use pingora_reverse_proxy.Map.Order.{text_ord}
use pingora_reverse_proxy.Route.{RouteKey, RouteData, Instant}
use pingora_reverse_proxy.Store.{StoreError, ActivityFloor, current, later, backend}
use pingora_reverse_proxy.Store.Memory.{raised_to}
use pingora_reverse_proxy.Store.Redis.{
  Server, Json, RedisStore, Run, encoding, encode, put, put_sent, put_pinged, put_encoded,
}
use pingora_reverse_proxy.Store.Redis.Script.{Hash}
use pingora_reverse_proxy.Store.Redis.Log.{Idle, same, Commits, IsServer, Ends, IsFree}
use pingora_reverse_proxy.Store.Redis.Rounds.{dropped-Ends, encode-eq-ok, with_connection-Ends}

-- The latest of an instant and of the floor's first readings.
abbrev pub newest : ℕ → ActivityFloor → Instant → Instant
newest zero floor at = at
newest (suc n) floor at = newest n (later floor) (raised_to (current floor) at)

module _ {W X V : Type 0} (server : Server W) (json : Json X V) where
  -- The route is written under its key.
  pub record Stores (key : RouteKey) (route : RouteData X) (before after : Hash) : Type 0 where
    pub encoded : Text
    pub printed : encoding json route ≡ some encoded
    pub stored : after ≡ insert key encoded before

  -- One write, of the given record with its instant raised in each round. What is returned is read
  -- from the text that is written.
  pub record Replaces (key : RouteKey) (floor : ActivityFloor) (route : RouteData X)
      (l : List (Hash × Hash)) (returned : RouteData X) (l' : List (Hash × Hash)) : Type 0 where
    pub rounds : ℕ
    pub encoded : Text
    pub printed :
        encoding json
          (record route { last_activity = newest (suc rounds) floor route.last_activity })
        ≡ some encoded
    pub decoded : json.from_str encoded ≡ some returned
    pub commits : Commits server (λ before after. after ≡ insert key encoded before) l l'

  module _ (law : IsServer server) (operation : Text) (key : RouteKey)
      (l : List (Hash × Hash)) where
    abbrev Next : (RouteData X → W → Run W (RouteData X)) → ActivityFloor → Type 0
    Next body floor =
        (route : RouteData X) (w : W)
        → Idle l (server.mine w)
        → Ends server (Replaces key floor route l) l (body route w)

    abbrev NextIf : Option (RouteData X → W → Run W (RouteData X)) → ActivityFloor → Type 0
    NextIf none floor = Unit
    NextIf (some body) floor = Next body floor

  -- The plain `put`.
  module _ (law : IsServer server) (key : RouteKey) (route : RouteData X) where
    put_sent-Ends :
        (encoded : Text) (w : W) (r : Option (Unit {0}) × W) (l : List (Hash × Hash))
        → encoding json route ≡ some encoded
        → l ≡ server.mine w
        → server.watched r.1 ≡ none
        → ((w' : W)
            → r ≡ (some tt, w')
            → (h : Hash) × (server.mine w' ≡ (h, insert key encoded h) ∷ server.mine w))
        → Ends server (λ _. Commits server (Stores key route) l) l (put_sent server json r)
    put_sent-Ends encoded w (none, w') l p e f c = (λ h. cc, λ kept. cc)
    put_sent-Ends encoded w (some _, w') l p e f c =
        let (h, log) = c w' refl in
        (
          record {
            before = h;
            after = insert key encoded h;
            idle = server.mine w;
            quiet = rw (e) same;
            written = log;
            effect = record { encoded = encoded; printed = p; stored = refl };
          },
          λ kept. f,
        )

    put_pinged-Ends :
        (encoded : Text) (r : Option (Unit {0}) × W) (l : List (Hash × Hash))
        → encoding json route ≡ some encoded
        → l ≡ server.mine r.1
        → server.watched r.1 ≡ none
        → Ends server
            (λ _. Commits server (Stores key route) l)
            l
            (put_pinged server json key encoded r)
    put_pinged-Ends encoded (none, w) l p e f =
        dropped-Ends server json {A = Unit {0}} (λ _. Commits server (Stores key route) l) l
          (backend (text "put")) w (λ _. rw (e) same)
    put_pinged-Ends encoded (some _, w) l p e f =
        put_sent-Ends encoded w (server.hset key encoded w) l p e
          (law.hset_watched key encoded w ∙ f) (law.hset_mine key encoded w)

    put_encoded-Ends :
        (store : RedisStore W) (o : Result StoreError Text)
        → IsFree server store
        → encode server json (text "put") route ≡ o
        → Ends server
            (λ _. Commits server (Stores key route) (server.mine store.world))
            (server.mine store.world)
            (put_encoded server json key o store)
    put_encoded-Ends store (err x) free p = (λ _. same, free)
    put_encoded-Ends store (ok encoded) free p =
        with_connection-Ends server json {A = Unit {0}}
          (λ _. Commits server (Stores key route) (server.mine store.world)) law (text "put") store
          (λ w. put_pinged server json key encoded (server.ping w)) free
          (λ w e f.
            put_pinged-Ends encoded (server.ping w) (server.mine store.world)
              (encode-eq-ok server json (text "put") route encoded p) (e ∙ sym (law.ping_mine w))
              (law.ping_watched w ∙ f))

    -- The same for `put`, which writes the given record as it is.
    pub put-Ends :
        (store : RedisStore W)
        → IsFree server store
        → Ends server
            (λ _. Commits server (Stores key route) (server.mine store.world))
            (server.mine store.world)
            (put server json key route store)
    unfolding put
    put-Ends store free = put_encoded-Ends store _ free refl
