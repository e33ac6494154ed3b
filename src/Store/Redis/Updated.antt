-- ===== src/Store/Redis/Updated.antt =====
-- `update_activity` of src/store/redis.rs loses no write of another client.
use pingora_reverse_proxy.Prelude.{
  ℕ, zero, suc, ◌≡◌, refl, sym, ◌∙◌, ◌⊎◌, inl, inr, Option, none, some, List, ◌∷◌, Result, ok, err,
  Text, text,
}
use pingora_reverse_proxy.Map.{get, insert}
use pingora_reverse_proxy.Map.Order.{text_ord}
use pingora_reverse_proxy.Route.{RouteKey, RouteData, Instant}
use pingora_reverse_proxy.Store.{StoreError, backend}
use pingora_reverse_proxy.Store.Redis.{
  Server, Json, RedisStore, Run, dropped, after_exec, encoding, encode, decode,
}
use pingora_reverse_proxy.Store.Redis.Update.{
  update_activity, update_loop, update_watched, update_read, update_decoded, update_encoded,
  unwatched,
}
use pingora_reverse_proxy.Store.Redis.Script.{Hash}
use pingora_reverse_proxy.Store.Redis.Log.{Idle, same, Commits, IsServer, Ends, IsFree}
use pingora_reverse_proxy.Store.Redis.Rounds.{
  dropped-Ends, encode-eq-ok, decode-eq-ok, after_exec-Ends, with_connection-Ends,
}

module _ {W X V : Type 0} (server : Server W) (json : Json X V) where
  -- The record that the hash holds, with the new instant.
  pub record Touches (key : RouteKey) (at : Instant) (before after : Hash) : Type 0 where
    pub current : Text
    pub route : RouteData X
    pub encoded : Text
    pub resident : get key before ≡ some current
    pub decoded : json.from_str current ≡ some route
    pub printed : encoding json (record route { last_activity = at }) ≡ some encoded
    pub stored : after ≡ insert key encoded before

  -- The key was missing when it was read, or the record that was read is replaced.
  abbrev pub Updates :
      RouteKey → Instant → List (Hash × Hash) → Unit {0} → List (Hash × Hash) → Type 0
  Updates key at l _ l' =
      (Idle l l' × ((w : W) × (get key (server.hash w) ≡ none) × (server.mine w ≡ l')))
      ⊎ Commits server (Touches key at) l l'

  module _ (law : IsServer server) (key : RouteKey) (at : Instant) (l : List (Hash × Hash)) where
    abbrev Next : (W → Run W (Unit {0})) → Type 0
    Next body = (w : W) → Idle l (server.mine w) → Ends server (Updates key at l) l (body w)

    abbrev NextIf : Option (W → Run W (Unit {0})) → Type 0
    NextIf none = Unit
    NextIf (some body) = Next body

    abbrev NextAt : Option (Option (W → Run W (Unit {0}))) → Type 0
    NextAt none = Unit
    NextAt (some next) = NextIf next

    fails :
        (e : StoreError) (w : W)
        → Idle l (server.mine w)
        → Ends server (Updates key at l) l (dropped {A = Unit {0}} (err e) w)
    fails e w i = dropped-Ends server json (Updates key at l) l e w (λ _. i)

    transaction :
        (body : W → Run W (Unit {0})) (h : Hash) (current encoded : Text) (route : RouteData X)
        (w : W)
        → Next body
        → Idle l (server.mine w)
        → server.watched w ≡ some h
        → get key (server.hash w) ≡ some current
        → json.from_str current ≡ some route
        → encoding json (record route { last_activity = at }) ≡ some encoded
        → Ends server
            (Updates key at l)
            l
            (after_exec server json (text "update_activity") tt body (server.exec key encoded w))
    transaction body h current encoded route w n i e r d p =
        after_exec-Ends server json (Updates key at l) l (text "update_activity") tt body
          (server.exec key encoded w) (λ b w' s. law.exec_watched key encoded w w' b s)
          (λ w' s. n w' (rw (law.exec_aborted key encoded w w' s) i))
          (λ w' s. inr (committed w' (law.exec_mine key encoded w w' h e s)))
      where
        committed :
            (w' : W)
            → (server.hash w ≡ h) × (server.mine w' ≡ (h, insert key encoded h) ∷ server.mine w)
            → Commits server (Touches key at) l (server.mine w')
        committed w' (kept, log) = record {
          before = h;
          after = insert key encoded h;
          idle = server.mine w;
          quiet = i;
          written = log;
          effect = record {
            current = current;
            route = route;
            encoded = encoded;
            resident = rw (kept) at r;
            decoded = d;
            printed = p;
            stored = refl;
          };
        }

    update_encoded-Ends :
        (next : Option (W → Run W (Unit {0}))) (h : Hash) (current : Text) (route : RouteData X)
        (w : W) (o : Result StoreError Text)
        → NextIf next
        → Idle l (server.mine w)
        → server.watched w ≡ some h
        → get key (server.hash w) ≡ some current
        → json.from_str current ≡ some route
        → encode server json (text "update_activity") (record route { last_activity = at }) ≡ o
        → Ends server (Updates key at l) l (update_encoded server json key next o w)
    update_encoded-Ends next h current route w (err x) n i e r d p = fails x w i
    update_encoded-Ends none h current route w (ok encoded) n i e r d p =
        fails (backend (text "update_activity")) w i
    update_encoded-Ends (some body) h current route w (ok encoded) n i e r d p =
        transaction body h current encoded route w n i e r d (
          encode-eq-ok server json (text "update_activity") (record route { last_activity = at })
            encoded p)

    update_decoded-Ends :
        (next : Option (W → Run W (Unit {0}))) (h : Hash) (current : Text) (w : W)
        (o : Result StoreError (RouteData X))
        → NextIf next
        → Idle l (server.mine w)
        → server.watched w ≡ some h
        → get key (server.hash w) ≡ some current
        → decode server json (text "update_activity") key current ≡ o
        → Ends server (Updates key at l) l (update_decoded server json key at next o w)
    update_decoded-Ends next h current w (err x) n i e r d = fails x w i
    update_decoded-Ends next h current w (ok route) n i e r d =
        update_encoded-Ends next h current route w _ n i e r
          (decode-eq-ok server json (text "update_activity") key current route d) refl

    unwatched-Ends :
        (r : Option (Unit {0}) × W) (w : W)
        → Idle l (server.mine r.1)
        → ((w' : W) → r ≡ (some tt, w') → server.watched w' ≡ none)
        → get key (server.hash w) ≡ none
        → server.mine w ≡ server.mine r.1
        → Ends server (Updates key at l) l (unwatched server json r)
    unwatched-Ends (none, w') w i free g m = fails (backend (text "update_activity")) w' i
    unwatched-Ends (some _, w') w i free g m = (inl (i, (w, g, m)), λ kept. free w' refl)

    update_read-Ends :
        (next : Option (W → Run W (Unit {0}))) (h : Hash) (r : Option (Option Text) × W)
        → NextIf next
        → Idle l (server.mine r.1)
        → server.watched r.1 ≡ some h
        → ((v : Option Text) (w : W) → r ≡ (some v, w) → v ≡ get key (server.hash w))
        → Ends server (Updates key at l) l (update_read server json key at next r)
    update_read-Ends next h (none, w) n i e v = fails (backend (text "update_activity")) w i
    update_read-Ends none h (some none, w) n i e v = fails (backend (text "update_activity")) w i
    update_read-Ends (some body) h (some none, w) n i e v =
        unwatched-Ends (server.unwatch w) w (rw (law.unwatch_mine w) i) (law.unwatch_watched w)
          (sym (v none w refl)) (sym (law.unwatch_mine w))
    update_read-Ends next h (some (some current), w) n i e v =
        update_decoded-Ends next h current w _ n i e (sym (v (some current) w refl)) refl

    update_watched-Ends :
        (next : Option (Option (W → Run W (Unit {0})))) (r : Option (Unit {0}) × W)
        → NextAt next
        → Idle l (server.mine r.1)
        → ((w : W) → r ≡ (some tt, w) → server.watched w ≡ some (server.hash w))
        → Ends server (Updates key at l) l (update_watched server json key at next r)
    update_watched-Ends next (none, w) n i e = fails (backend (text "update_activity")) w i
    update_watched-Ends none (some _, w) n i e = fails (backend (text "update_activity")) w i
    update_watched-Ends (some next) (some _, w) n i e =
        update_read-Ends next (server.hash w) (server.hget key w) n (rw (law.hget_mine key w) i)
          (law.hget_watched key w ∙ e w refl) (λ v w' s. law.hget_value key w w' v s)

    update_loop-Ends : (checks : ℕ) → Next (update_loop server json checks key at)
    unfolding update_loop
    update_loop-Ends zero w i = fails (backend (text "update_activity")) w i
    update_loop-Ends (suc zero) w i =
        update_watched-Ends none (server.watch w) tt (rw (law.watch_mine w) i) (law.watch_watched w)
    update_loop-Ends (suc (suc zero)) w i =
        update_watched-Ends (some none) (server.watch w) tt (rw (law.watch_mine w) i)
          (law.watch_watched w)
    update_loop-Ends (suc (suc (suc checks))) w i =
        update_watched-Ends (some (some (update_loop server json checks key at))) (server.watch w)
          (update_loop-Ends checks) (rw (law.watch_mine w) i) (law.watch_watched w)

  -- With a server that keeps its documented laws, whatever its other clients write and whenever the
  -- deadline passes: a success of `update_activity` has found no record of the key and written
  -- nothing, or has made one write, of the record that the hash held at that moment with the new
  -- instant. An ordinary error has changed nothing. The connection that is kept has no `WATCH` left.
  pub update_activity-Ends :
      IsServer server
      → (checks : ℕ) (key : RouteKey) (at : Instant) (store : RedisStore W) → IsFree server store
      → Ends server
          (Updates key at (server.mine store.world))
          (server.mine store.world)
          (update_activity server json checks key at store)
  unfolding update_activity
  update_activity-Ends law checks key at store free =
      with_connection-Ends server json (Updates key at (server.mine store.world)) law
        (text "update_activity") store (update_loop server json checks key at) free
        (λ w e _. update_loop-Ends law key at (server.mine store.world) checks w (rw (← e) same))
