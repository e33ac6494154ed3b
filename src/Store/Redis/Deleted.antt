-- ===== src/Store/Redis/Deleted.antt =====
-- `delete` of src/store/redis.rs deletes the record that it returns.
use pingora_reverse_proxy.Prelude.{
  ℕ, zero, suc, ◌≡◌, refl, ◌∙◌, ap, Bool, true, false, Option, none, some, List, ◌∷◌, Result, ok,
  err, Text, text, text_eq, eq_of_text_eq, arith, not, if◌then◌else◌,
}
use pingora_reverse_proxy.Map.{get, remove}
use pingora_reverse_proxy.Map.Order.{text_ord}
use pingora_reverse_proxy.Route.{RouteKey, RouteData}
use pingora_reverse_proxy.Store.{StoreError, backend}
use pingora_reverse_proxy.Store.Redis.{Server, Json, RedisStore, Run, dropped}
use pingora_reverse_proxy.Store.Redis.Update.{
  delete, delete_loop, delete_read, delete_decoded, delete_replied, delete_code, decode_prior,
  exists, text_of,
}
use pingora_reverse_proxy.Store.Redis.Script.{Hash, ScriptReply, delete_script, is_changed}
use pingora_reverse_proxy.Store.Redis.Log.{Idle, same, again, Commits, IsServer, Ends, IsFree}
use pingora_reverse_proxy.Store.Redis.Rounds.{dropped-Ends, with_connection-Ends}

-- What the script did, by the code it replied.
abbrev ScriptSays : Text → Option Text → Hash → Hash → ℕ → Type 0
ScriptSays field current before after zero = after ≡ before
ScriptSays field current before after (suc zero) =
    (after ≡ remove field before) × (get field before ≡ current)
ScriptSays field current before after (suc (suc n)) = ⊥

abbrev runs : Text → Option Text → Bool → Text → Hash → ScriptReply × Hash
runs field prior exists expected before =
    if is_changed prior exists expected
    then (record { code = 0; prior = prior }, before)
    else (record { code = 1; prior = prior }, remove field before)

same_text : (p c : Text) → not (text_eq p c) ≡ false → p ≡ c
same_text p c h = ground (arith, eq_of_text_eq p c)

runs-says :
    (field : Text) (current prior : Option Text) (before : Hash) (b : Bool)
    → get field before ≡ prior
    → is_changed prior (exists current) (text_of current) ≡ b
    → ScriptSays field current before
        (runs field prior (exists current) (text_of current) before).1
        (runs field prior (exists current) (text_of current) before).0.code
runs-says field current prior before true g e = rw (e) refl
runs-says field none none before false g e = (refl, g)
runs-says field (some c) none before false g e = cc
runs-says field none (some p) before false g e = cc
runs-says field (some c) (some p) before false g e = rw (e) (refl, g ∙ ap some (same_text p c e))

module _ {W X V : Type 0} (server : Server W) (json : Json X V) where
  -- What the hash holds for the key is the decoded record, or nothing, and it goes.
  pub record Deletes (key : RouteKey) (prior : Option (RouteData X)) (before after : Hash)
      : Type 0 where
    pub read : decode_prior server json key (get key before) ≡ ok prior
    pub removed : after ≡ remove key before

  module _ (law : IsServer server) (key : RouteKey) (l : List (Hash × Hash)) where
    abbrev Removes : Option (RouteData X) → List (Hash × Hash) → Type 0
    Removes prior l' = Commits server (Deletes key prior) l l'

    abbrev Next : (W → Run W (Option (RouteData X))) → Type 0
    Next body =
        (w : W) → Idle l (server.mine w) → server.watched w ≡ none → Ends server Removes l (body w)

    abbrev NextIf : Option (W → Run W (Option (RouteData X))) → Type 0
    NextIf none = Unit
    NextIf (some body) = Next body

    fails :
        (e : StoreError) (w : W)
        → Idle l (server.mine w)
        → Ends server Removes l (dropped {A = Option (RouteData X)} (err e) w)
    fails e w i = dropped-Ends server json Removes l e w (λ _. i)

    delete_code-Ends :
        (prior : Option (RouteData X)) (current : Option Text)
        (body : W → Run W (Option (RouteData X))) (code : ℕ) (w : W) (log : List (Hash × Hash))
        (before after : Hash)
        → Next body
        → Idle l log
        → server.mine w ≡ (before, after) ∷ log
        → server.watched w ≡ none
        → decode_prior server json key current ≡ ok prior
        → ScriptSays key current before after code
        → Ends server Removes l (delete_code server json prior body code w)
    delete_code-Ends prior current body zero w log before after n i m f d says =
        n w (rw (m, says) (again before i)) f
    delete_code-Ends prior current body (suc zero) w log before after n i m f d (gone, held) = (
      record {
        before = before;
        after = after;
        idle = log;
        quiet = i;
        written = m;
        effect = record { read = rw (held) d; removed = gone };
      },
      λ kept. f,
    )
    delete_code-Ends prior current body (suc (suc code)) w log before after n i m f d says =
        absurd says

    delete_replied-Ends :
        (prior : Option (RouteData X)) (current : Option Text)
        (body : W → Run W (Option (RouteData X))) (w : W) (r : Option ScriptReply × W)
        → Next body
        → Idle l (server.mine w)
        → server.watched r.1 ≡ none
        → decode_prior server json key current ≡ ok prior
        → ((w' : W) (reply : ScriptReply)
            → r ≡ (some reply, w')
            → (h : Hash) × (reply ≡ (delete_script key (exists current) (text_of current) h).0)
              × (server.mine w'
                  ≡ (h, (delete_script key (exists current) (text_of current) h).1)
                    ∷ server.mine w))
        → Ends server Removes l (delete_replied server json prior body r)
    unfolding delete_script
    delete_replied-Ends prior current body w (none, w') n i f d e = (λ h. cc, λ kept. cc)
    delete_replied-Ends prior current body w (some reply, w') n i f d e =
        let (h, said, m) = e w' reply refl in
        let says = runs-says key current (get key h) h _ refl refl in
        delete_code-Ends prior current body reply.code w' (server.mine w) h _ n i m f d
          (rw (ap (λ (r : ScriptReply). r.code) said) says)

    delete_decoded-Ends :
        (next : Option (W → Run W (Option (RouteData X)))) (current : Option Text) (w : W)
        (o : Result StoreError (Option (RouteData X)))
        → NextIf next
        → Idle l (server.mine w)
        → server.watched w ≡ none
        → decode_prior server json key current ≡ o
        → Ends server Removes l (delete_decoded server json key next current o w)
    delete_decoded-Ends next current w (err x) n i f d = fails x w i
    delete_decoded-Ends none current w (ok prior) n i f d = fails (backend (text "delete")) w i
    delete_decoded-Ends (some body) current w (ok prior) n i f d =
        delete_replied-Ends prior current body w
          (server.eval (delete_script key (exists current) (text_of current)) w) n i
          (law.eval_watched (delete_script key (exists current) (text_of current)) w ∙ f) d
          (law.eval_mine (delete_script key (exists current) (text_of current)) w)

    delete_read-Ends :
        (next : Option (W → Run W (Option (RouteData X)))) (r : Option (Option Text) × W)
        → NextIf next
        → Idle l (server.mine r.1)
        → server.watched r.1 ≡ none
        → Ends server Removes l (delete_read server json key next r)
    delete_read-Ends next (none, w) n i f = fails (backend (text "delete")) w i
    delete_read-Ends next (some current, w) n i f = delete_decoded-Ends next current w _ n i f refl

    delete_loop-Ends : (checks : ℕ) → Next (delete_loop server json checks key)
    unfolding delete_loop
    delete_loop-Ends zero w i f = fails (backend (text "delete")) w i
    delete_loop-Ends (suc zero) w i f =
        delete_read-Ends none (server.hget key w) tt (rw (law.hget_mine key w) i)
          (law.hget_watched key w ∙ f)
    delete_loop-Ends (suc (suc checks)) w i f =
        delete_read-Ends (some (delete_loop server json checks key)) (server.hget key w)
          (delete_loop-Ends checks) (rw (law.hget_mine key w) i) (law.hget_watched key w ∙ f)

  -- With a server that keeps its laws, whatever other clients write between the read and the script:
  -- a success of `delete` has made one write that changes something, at most, and what it returns is the
  -- decoded record of the key at the moment of that write, which the write removes. An ordinary error
  -- has changed nothing. The connection that is kept has no `WATCH`.
  pub delete-Ends :
      IsServer server
      → (checks : ℕ) (key : RouteKey) (store : RedisStore W) → IsFree server store
      → Ends server
          (λ prior l'. Commits server (Deletes key prior) (server.mine store.world) l')
          (server.mine store.world)
          (delete server json checks key store)
  unfolding delete
  delete-Ends law checks key store free =
      with_connection-Ends server json _ law (text "delete") store
        (delete_loop server json checks key) free
        (λ w e f. delete_loop-Ends law key (server.mine store.world) checks w (rw (← e) same) f)
