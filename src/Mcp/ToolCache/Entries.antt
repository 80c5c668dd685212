-- ===== src/Mcp/ToolCache/Entries.antt =====
-- services/mssql-mcp/mssql_mcp_app/tool_cache.py, MetadataToolResultCache: what the cache promises to
-- its callers, over every sequence of calls.
use mssql_ai_project.Base.{
  ℕ, ◌-◌, ◌*◌, ◌≤◌, ◌≡◌, refl, true, false, String, Option, none, some, [], ◌∷◌, ◌++◌, arith,
  length, string_eq, Bool-cases, inl, inr,
}
use mssql_ai_project.Base.Dict
use mssql_ai_project.Base.Text.{Text}
use mssql_ai_project.Base.Json.{Fields}
use mssql_ai_project.Mcp.Redaction.{payload_is_cacheable}
use mssql_ai_project.Mcp.ToolCache.{
  hit, CacheEntry, Entries, MetadataToolCacheSettings, move_to_end, evict, event, lookup, is_off,
  is_expired, get, put,
}
use text.Mathlib.TextEquality.{eq_iff}

pub length-evict : (n : ℕ) (d : Entries) → length (evict n d) ≤ n
unfolding evict
length-evict n [] = omega arith
length-evict n (e ∷ d) = ground (arith, length-evict n d)

get-append :
    (d : Entries) (key : String) (e : CacheEntry)
    → Dict.get d key ≡ none
    → Dict.get (d ++ (key, e) ∷ []) key ≡ some e
unfolding Dict.get
get-append [] key e h = ground (arith, eq_iff key key)
get-append ((j, u) ∷ d) key e h = ground (arith, get-append d key e)

at_least_one :
    (settings : MetadataToolCacheSettings) → is_off settings ≡ false → 1 ≤ settings.max_entries
unfolding is_off
at_least_one settings h = ground (arith, Bool-cases settings.enabled)

-- The entry at the end is the last to be evicted.
get-evict :
    (n : ℕ) (d : Entries) (key : String) (e : CacheEntry)
    → 1 ≤ n
    → Dict.get d key ≡ none
    → Dict.get (evict n (d ++ (key, e) ∷ [])) key ≡ some e
unfolding Dict.get evict
get-evict n [] key e pos h = ground (arith, eq_iff key key)
get-evict n ((j, u) ∷ d) key e pos h = ground (arith, get-evict n d key e pos, get-append d key e)

move_to_end-put :
    (d : Entries) (key : String) (e : CacheEntry)
    → move_to_end (Dict.put d key e) key ≡ Dict.remove (Dict.put d key e) key ++ (key, e) ∷ []
unfolding move_to_end
move_to_end-put d key e = rw (Dict.get-put_self d key e, move_to_end) refl

get-removed : (d : Entries) (key : String) → Dict.get (Dict.remove d key) key ≡ none
get-removed d key = ground (arith, Dict.get-remove d key key, eq_iff key key)

module _ (stable_json_hash : String → Text) (settings : MetadataToolCacheSettings) where
  put-stores :
      (now : ℕ) (key : String) (payload : Fields) (d : Entries)
      → is_off settings ≡ false
      → payload_is_cacheable payload ≡ true
      → (put stable_json_hash settings now key payload d).1
        ≡ evict settings.max_entries (
            Dict.remove (Dict.put d key (record { stored_at = now; payload = payload })) key
            ++ (key, record { stored_at = now; payload = payload }) ∷ [])
  unfolding put
  put-stores now key payload d on safe =
      rw (put, on, safe, move_to_end-put d key (record { stored_at = now; payload = payload })) refl

  -- Where the cache is on and the time to live is at least one second, a cacheable payload that was
  -- put is what `get` returns for its key, as a hit with its age, while it is not older than the time
  -- to live, whatever the cache held before and however many entries the put had to evict.
  pub get-put_hit :
      (stored_at now : ℕ) (key : String) (payload : Fields) (d : Entries)
      → is_off settings ≡ false
      → payload_is_cacheable payload ≡ true
      → 1 ≤ settings.ttl_seconds
      → now - stored_at ≤ settings.ttl_seconds * 1000
      → (get stable_json_hash settings now key
          (put stable_json_hash settings stored_at key payload d).1).0
        ≡ (some payload, event stable_json_hash settings hit key (some (now - stored_at)))
  unfolding get is_expired
  get-put_hit stored_at now key payload d on safe ttl fresh =
      let e : CacheEntry = record { stored_at = stored_at; payload = payload } in
      rw
        (
          put-stores stored_at key payload d on safe,
          get,
          on,
          get-evict settings.max_entries (Dict.remove (Dict.put d key e) key) key e
              (at_least_one settings on) (get-removed (Dict.put d key e) key),
        )
        (ground arith)

  fresh_enough :
      (now : ℕ) (e : CacheEntry)
      → is_expired settings now e ≡ false
      → now - e.stored_at ≤ settings.ttl_seconds * 1000
  unfolding is_expired
  fresh_enough now e h = ground arith

  served_by_lookup :
      (now : ℕ) (key : String) (payload : Fields) (found : Option CacheEntry) (d : Entries)
      → (lookup stable_json_hash settings now key found d).0.0 ≡ some payload
      → (e : CacheEntry) × (found ≡ some e)
        × (e.payload ≡ payload)
        × (now - e.stored_at ≤ settings.ttl_seconds * 1000)
  served_by_lookup now key payload none d h = ground arith
  served_by_lookup now key payload (some e) d h = elim (Bool-cases (is_expired settings now e)) [
    | inl old ↦ ground arith
    | inr fresh ↦ (e, refl, ground arith, fresh_enough now e fresh)
  ]

  -- What `get` returns is the payload of the entry under the key, and that entry is not older than
  -- the time to live.
  pub get-served :
      (now : ℕ) (key : String) (payload : Fields) (d : Entries)
      → (get stable_json_hash settings now key d).0.0 ≡ some payload
      → (e : CacheEntry) × (Dict.get d key ≡ some e)
        × (e.payload ≡ payload)
        × (now - e.stored_at ≤ settings.ttl_seconds * 1000)
  unfolding get
  get-served now key payload d h = elim (Bool-cases (is_off settings)) [
    | inl off ↦ ground arith
    | inr on ↦ served_by_lookup now key payload (Dict.get d key) d (ground arith)
  ]
