-- ===== src/Store/Redis/Load.antt =====
-- `snapshot` of src/store/redis.rs.
use pingora_reverse_proxy.Prelude.{
  ◌≡◌, refl, sym, ap, ◌∙◌, true, false, Option, none, some, List, [], ◌∷◌, Result, ok, err, Text,
  text, arith, Bool-cases, inl, inr, if◌then◌else◌,
}
use pingora_reverse_proxy.Map.{Map, get, insert}
use pingora_reverse_proxy.Map.Order.{text_ord}
use pingora_reverse_proxy.Map.Laws.{IsSorted, Above, get-insert, get-eq-none, eq_of_same}
use pingora_reverse_proxy.Map.Laws
use pingora_reverse_proxy.Route.{RouteKey, RouteData}
use pingora_reverse_proxy.Store.{StoreError, backend}
use pingora_reverse_proxy.Store.Redis.{
  Server, Json, RedisStore, Run, dropped, returned, decode, with_connection,
}
use pingora_reverse_proxy.Store.Redis.Script.{Hash}
use pingora_reverse_proxy.Store.Redis.Keys.{decode_key, decode_key-eq_self}
use pingora_reverse_proxy.Store.Redis.Log.{same, IsServer, Ends, IsFree}
use pingora_reverse_proxy.Store.Redis.Rounds.{dropped-Ends, decode-eq-ok, with_connection-Ends}

module _ {W X V : Type 0} (server : Server W) (json : Json X V) where
  -- A round of the loop over the records; `next` is the rest of the loop.
  abbrev pub load_data :
      RouteKey
      → (Map RouteKey (RouteData X) → Result StoreError (Map RouteKey (RouteData X)))
      → Map RouteKey (RouteData X)
      → Result StoreError (RouteData X)
      → Result StoreError (Map RouteKey (RouteData X))
  load_data key next snapshot (err e) = err e
  load_data key next snapshot (ok route) = next (insert key route snapshot)

  abbrev pub load_record :
      Text
      → (Map RouteKey (RouteData X) → Result StoreError (Map RouteKey (RouteData X)))
      → Map RouteKey (RouteData X)
      → Result StoreError RouteKey
      → Result StoreError (Map RouteKey (RouteData X))
  load_record encoded next snapshot (err e) = err e
  load_record encoded next snapshot (ok key) =
      load_data key next snapshot (decode server json (text "snapshot") key encoded)

  unfoldable pub load_records :
      Hash → Map RouteKey (RouteData X) → Result StoreError (Map RouteKey (RouteData X))
  unfolding decode decode_key
  load_records [] snapshot = ok snapshot
  load_records ((field, encoded) ∷ records) snapshot =
      load_record encoded (load_records records) snapshot (decode_key field)

  abbrev pub loaded :
      Result StoreError (Map RouteKey (RouteData X)) → W → Run W (Map RouteKey (RouteData X))
  loaded (err e) w = dropped (err e) w
  loaded (ok snapshot) w = returned (ok snapshot) w

  abbrev pub read_records : Option Hash × W → Run W (Map RouteKey (RouteData X))
  read_records (none, w) = dropped (err (backend (text "snapshot"))) w
  read_records (some records, w) = loaded (load_records records []) w

  unfoldable pub snapshot : RedisStore W → Run W (Map RouteKey (RouteData X))
  unfolding with_connection load_records
  snapshot store =
      with_connection server json (text "snapshot") store (λ w. read_records (server.hgetall w))

  -- A record and its encoding, or neither.
  abbrev pub Decodes : Option Text → Option (RouteData X) → Type 0
  Decodes none none = Unit
  Decodes none (some route) = ⊥
  Decodes (some encoded) none = ⊥
  Decodes (some encoded) (some route) = json.from_str encoded ≡ some route

module _ {W X V : Type 0} (server : Server W) (json : Json X V) where
  data_inversion :
      (field key encoded : Text)
      (next : Map RouteKey (RouteData X) → Result StoreError (Map RouteKey (RouteData X)))
      (acc m : Map RouteKey (RouteData X)) (o : Result StoreError (RouteData X))
      → key ≡ field
      → decode server json (text "snapshot") key encoded ≡ o
      → load_data server json key next acc o ≡ ok m
      → (route : RouteData X) × (json.from_str encoded ≡ some route)
        × (next (insert field route acc) ≡ ok m)
  data_inversion field key encoded next acc m (err e) k d h = cc (h)
  data_inversion field key encoded next acc m (ok route) k d h =
      (route, decode-eq-ok server json (text "snapshot") key encoded route d, rw (k) at h)

  record_inversion :
      (field encoded : Text)
      (next : Map RouteKey (RouteData X) → Result StoreError (Map RouteKey (RouteData X)))
      (acc m : Map RouteKey (RouteData X)) (o : Result StoreError RouteKey)
      → decode_key field ≡ o
      → load_record server json encoded next acc o ≡ ok m
      → (route : RouteData X) × (json.from_str encoded ≡ some route)
        × (next (insert field route acc) ≡ ok m)
  record_inversion field encoded next acc m (err e) k h = cc (h)
  record_inversion field encoded next acc m (ok key) k h =
      data_inversion field key encoded next acc m _ (decode_key-eq_self field key k) refl h

  -- What loading makes of a key: its record, decoded, or what was there.
  abbrev Entry :
      RouteKey → Option Text → Map RouteKey (RouteData X) → Map RouteKey (RouteData X) → Type 0
  Entry k none acc m = get k m ≡ get k acc
  Entry k (some encoded) acc m =
      (route : RouteData X) × (json.from_str encoded ≡ some route) × (get k m ≡ some route)

  first_Entry :
      (k field : RouteKey) (o : Option Text) (route : RouteData X)
      (acc m : Map RouteKey (RouteData X))
      → Laws.same k field ≡ true
      → o ≡ none
      → Entry k o (insert field route acc) m
      → get k m ≡ some route
  first_Entry k field none route acc m s e h = h ∙ rw (get-insert k field route acc, s)
  first_Entry k field (some encoded) route acc m s e h = cc (e)

  later_Entry :
      (k field : RouteKey) (o : Option Text) (route : RouteData X)
      (acc m : Map RouteKey (RouteData X))
      → Laws.same k field ≡ false
      → Entry k o (insert field route acc) m
      → Entry k o acc m
  later_Entry k field none route acc m e h = h ∙ rw (get-insert k field route acc, e)
  later_Entry k field (some encoded) route acc m e h = h

  get-cons :
      (k field : Text) (encoded : Text) (records : Hash)
      → get k ((field, encoded) ∷ records)
        ≡ (if Laws.same k field then some encoded else get k records)
  unfolding get
  get-cons k field encoded records = ground arith

  load_records-Entry :
      (records : Hash) (acc m : Map RouteKey (RouteData X)) (k : RouteKey)
      → IsSorted records
      → load_records server json records acc ≡ ok m
      → Entry k (get k records) acc m
  unfolding load_records get
  load_records-Entry [] acc m k sorted h = cc (h)
  load_records-Entry ((field, encoded) ∷ records) acc m k (above, sorted) h =
      let (route, decoded, rest) =
        record_inversion field encoded (load_records server json records) acc m _ refl h in
      let tail = load_records-Entry records (insert field route acc) m k sorted rest in
      elim (Bool-cases (Laws.same k field)) [
        | inl e ↦
            let same_key = eq_of_same k field e in
            rw (get-cons k field encoded records, e)
              (
                route,
                decoded,
                first_Entry k field (get k records) route acc m e
                    (rw (same_key) (get-eq-none field records above)) tail,
              )
        | inr e ↦
            rw (get-cons k field encoded records, e) (later_Entry k field _ route acc m e tail)
      ]

  Entry-Decodes :
      (k : RouteKey) (o : Option Text) (m : Map RouteKey (RouteData X))
      → Entry k o [] m
      → Decodes server json o (get k m)
  unfolding get
  Entry-Decodes k none m h = rw (h) tt
  Entry-Decodes k (some encoded) m (route, decoded, h) = rw (h) decoded

  -- What a snapshot is: every field of the hash decoded under its own name, and nothing else.
  abbrev pub Loads : List (Hash × Hash) → Map RouteKey (RouteData X) → List (Hash × Hash) → Type 0
  Loads l m l' =
      (l' ≡ l)
      × ((w : W) × (server.mine w ≡ l)
          × ((k : RouteKey) → Decodes server json (get k (server.hash w)) (get k m)))

  module _ (law : IsServer server) (sorted : (w : W) → IsSorted (server.hash w)) where
    loaded-Ends :
        (w : W) (l : List (Hash × Hash)) (o : Result StoreError (Map RouteKey (RouteData X)))
        → l ≡ server.mine w
        → server.watched w ≡ none
        → load_records server json (server.hash w) [] ≡ o
        → Ends server (Loads l) l (loaded server json o w)
    loaded-Ends w l (err e) m f h = dropped-Ends server json (Loads l) l e w (λ _. rw (m) same)
    loaded-Ends w l (ok snapshot) m f h = (
      (
        sym m,
        (
          w,
          sym m,
          λ k.
              Entry-Decodes k (get k (server.hash w)) snapshot
                (load_records-Entry (server.hash w) [] snapshot k (sorted w) h),
        ),
      ),
      λ kept. f,
    )

    read_records-Ends :
        (r : Option Hash × W) (l : List (Hash × Hash))
        → l ≡ server.mine r.1
        → server.watched r.1 ≡ none
        → ((w : W) (h : Hash) → r ≡ (some h, w) → h ≡ server.hash w)
        → Ends server (Loads l) l (read_records server json r)
    read_records-Ends (none, w) l m f v =
        dropped-Ends server json (Loads l) l (backend (text "snapshot")) w (λ _. rw (m) same)
    read_records-Ends (some records, w) l m f v =
        loaded-Ends w l (load_records server json records []) m f
          (ap (λ h. load_records server json h []) (sym (v w records refl)))

    -- With a server that keeps its laws and lists each field once: a snapshot that succeeds has the
    -- record of every field of the hash at that moment, decoded under its own name, and no other,
    -- and writes nothing. A failure changes nothing. The connection that is kept has no `WATCH`.
    pub snapshot-Ends :
        (store : RedisStore W)
        → IsFree server store
        → Ends server
            (Loads (server.mine store.world))
            (server.mine store.world)
            (snapshot server json store)
    unfolding snapshot
    snapshot-Ends store free =
        with_connection-Ends server json (Loads (server.mine store.world)) law (text "snapshot")
          store (λ w. read_records server json (server.hgetall w)) free
          (λ w e f.
            read_records-Ends (server.hgetall w) (server.mine store.world)
              (e ∙ sym (law.hgetall_mine w)) (law.hgetall_watched w ∙ f)
              (λ w' h s. law.hgetall_value w w' h s))
