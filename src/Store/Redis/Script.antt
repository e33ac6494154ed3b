-- ===== src/Store/Redis/Script.antt =====
-- The Lua script by which src/store/redis.rs deletes a route that has not changed since it was read.
use pingora_reverse_proxy.Prelude.{
  ℕ, Bool, true, false, Option, none, some, Text, text_eq, if◌then◌else◌, not,
}
use pingora_reverse_proxy.Map.{Map, get, remove}
use pingora_reverse_proxy.Map.Order.{text_ord}

-- A Redis hash, from fields to encoded routes.
abbrev pub Hash : Type 0
Hash = Map Text Text

pub record ScriptReply : Type 0 where
  pub code : ℕ
  pub prior : Option Text

-- The test of the script: the field exists when it should not, or does not when it should, or it
-- holds another text.
abbrev pub is_changed : Option Text → Bool → Text → Bool
is_changed none true expected = true
is_changed none false expected = false
is_changed (some prior) false expected = true
is_changed (some prior) true expected = not (text_eq prior expected)

-- `DELETE_SCRIPT`, with the field, whether it is expected to exist, and its expected text.
unfoldable pub delete_script : Text → Bool → Text → Hash → ScriptReply × Hash
delete_script field exists expected hash =
    if is_changed (get field hash) exists expected
    then (record { code = 0; prior = get field hash }, hash)
    else (record { code = 1; prior = get field hash }, remove field hash)
