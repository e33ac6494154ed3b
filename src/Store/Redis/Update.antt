-- ===== src/Store/Redis/Update.antt =====
-- `update_activity` and `delete` of src/store/redis.rs.
use pingora_reverse_proxy.Prelude.{
  ℕ, zero, suc, Bool, true, false, Option, none, some, Result, ok, err, Text, text, [],
}
use pingora_reverse_proxy.Route.{RouteKey, RouteData, Instant}
use pingora_reverse_proxy.Store.{StoreError, backend, indeterminate}
use pingora_reverse_proxy.Store.Redis.{
  Server, Json, RedisStore, Run, dropped, returned, encode, decode, with_connection, after_exec,
}
use pingora_reverse_proxy.Store.Redis.Script.{ScriptReply, delete_script}

abbrev pub text_of : Option Text → Text
text_of none = []
text_of (some encoded) = encoded

abbrev pub exists : Option Text → Bool
exists none = false
exists (some encoded) = true

module _ {W X V : Type 0} (server : Server W) (json : Json X V) where
  abbrev pub unwatched : Option (Unit {0}) × W → Run W (Unit {0})
  unwatched (none, w) = dropped (err (backend (text "update_activity"))) w
  unwatched (some _, w) = returned (ok tt) w

  -- The rest of a round once the new record is encoded; `next` is `none` at the deadline.
  abbrev pub update_encoded :
      RouteKey → Option (W → Run W (Unit {0})) → Result StoreError Text → W → Run W (Unit {0})
  update_encoded key next (err e) w = dropped (err e) w
  update_encoded key none (ok encoded) w = dropped (err (backend (text "update_activity"))) w
  update_encoded key (some again) (ok encoded) w =
      after_exec server json (text "update_activity") tt again (server.exec key encoded w)

  abbrev pub update_decoded :
      RouteKey
      → Instant
      → Option (W → Run W (Unit {0}))
      → Result StoreError (RouteData X)
      → W
      → Run W (Unit {0})
  update_decoded key at next (err e) w = dropped (err e) w
  update_decoded key at next (ok route) w =
      update_encoded key next
        (encode server json (text "update_activity") (record route { last_activity = at })) w

  abbrev pub update_read :
      RouteKey
      → Instant
      → Option (W → Run W (Unit {0}))
      → Option (Option Text) × W
      → Run W (Unit {0})
  update_read key at next (none, w) = dropped (err (backend (text "update_activity"))) w
  update_read key at none (some none, w) = dropped (err (backend (text "update_activity"))) w
  update_read key at (some again) (some none, w) = unwatched (server.unwatch w)
  update_read key at next (some (some current), w) =
      update_decoded key at next (decode server json (text "update_activity") key current) w

  -- `next` is what the second and the third check of the deadline leave.
  abbrev pub update_watched :
      RouteKey
      → Instant
      → Option (Option (W → Run W (Unit {0})))
      → Option (Unit {0}) × W
      → Run W (Unit {0})
  update_watched key at next (none, w) = dropped (err (backend (text "update_activity"))) w
  update_watched key at none (some _, w) = dropped (err (backend (text "update_activity"))) w
  update_watched key at (some next) (some _, w) = update_read key at next (server.hget key w)

  -- The loop, with the number of checks of the deadline that it still meets.
  unfoldable pub update_loop : ℕ → RouteKey → Instant → W → Run W (Unit {0})
  unfolding encode decode
  update_loop zero key at w = dropped (err (backend (text "update_activity"))) w
  update_loop (suc zero) key at w = update_watched key at none (server.watch w)
  update_loop (suc (suc zero)) key at w = update_watched key at (some none) (server.watch w)
  update_loop (suc (suc (suc checks))) key at w =
      update_watched key at (some (some (update_loop checks key at))) (server.watch w)

  unfoldable pub update_activity : ℕ → RouteKey → Instant → RedisStore W → Run W (Unit {0})
  unfolding with_connection update_loop
  update_activity checks key at store =
      with_connection server json (text "update_activity") store (update_loop checks key at)

  -- What the code does with the code of the script's reply.
  abbrev pub delete_code :
      Option (RouteData X)
      → (W → Run W (Option (RouteData X)))
      → ℕ
      → W
      → Run W (Option (RouteData X))
  delete_code prior again zero w = again w
  delete_code prior again (suc zero) w = returned (ok prior) w
  delete_code prior again (suc (suc code)) w = dropped (err (indeterminate (text "delete"))) w

  abbrev pub delete_replied :
      Option (RouteData X)
      → (W → Run W (Option (RouteData X)))
      → Option ScriptReply × W
      → Run W (Option (RouteData X))
  delete_replied prior again (none, w) = dropped (err (indeterminate (text "delete"))) w
  delete_replied prior again (some reply, w) = delete_code prior again reply.code w

  abbrev pub delete_decoded :
      RouteKey
      → Option (W → Run W (Option (RouteData X)))
      → Option Text
      → Result StoreError (Option (RouteData X))
      → W
      → Run W (Option (RouteData X))
  delete_decoded key next current (err e) w = dropped (err e) w
  delete_decoded key none current (ok prior) w = dropped (err (backend (text "delete"))) w
  delete_decoded key (some again) current (ok prior) w =
      delete_replied prior again
        (server.eval (delete_script key (exists current) (text_of current)) w)

  -- `transpose` of the decoded record.
  abbrev pub lifted : Result StoreError (RouteData X) → Result StoreError (Option (RouteData X))
  lifted (err e) = err e
  lifted (ok route) = ok (some route)

  abbrev pub decode_prior : RouteKey → Option Text → Result StoreError (Option (RouteData X))
  decode_prior key none = ok none
  decode_prior key (some encoded) = lifted (decode server json (text "delete") key encoded)

  abbrev pub delete_read :
      RouteKey
      → Option (W → Run W (Option (RouteData X)))
      → Option (Option Text) × W
      → Run W (Option (RouteData X))
  delete_read key next (none, w) = dropped (err (backend (text "delete"))) w
  delete_read key next (some current, w) =
      delete_decoded key next current (decode_prior key current) w

  unfoldable pub delete_loop : ℕ → RouteKey → W → Run W (Option (RouteData X))
  unfolding decode delete_script
  delete_loop zero key w = dropped (err (backend (text "delete"))) w
  delete_loop (suc zero) key w = delete_read key none (server.hget key w)
  delete_loop (suc (suc checks)) key w =
      delete_read key (some (delete_loop checks key)) (server.hget key w)

  unfoldable pub delete : ℕ → RouteKey → RedisStore W → Run W (Option (RouteData X))
  unfolding with_connection delete_loop
  delete checks key store =
      with_connection server json (text "delete") store (delete_loop checks key)
