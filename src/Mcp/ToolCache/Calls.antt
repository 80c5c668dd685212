-- ===== src/Mcp/ToolCache/Calls.antt =====
-- services/mssql-mcp/mssql_mcp_app/tool_cache.py, MetadataToolResultCache: what holds of the entries
-- after any sequence of calls, whatever settings each of them reads.
use mssql_ai_project.Base.{
  ℕ, suc, ◌≤◌, ◌≡◌, refl, true, String, Option, none, some, List, [], ◌∷◌, arith, length, string_eq,
  All, All-append, length-append, Bool-cases, inl, inr, subst,
}
use mssql_ai_project.Base.Dict
use mssql_ai_project.Base.Text.{Text}
use mssql_ai_project.Base.Json.{Fields}
use mssql_ai_project.Mcp.Redaction.{payload_is_cacheable}
use mssql_ai_project.Mcp.ToolCache.{
  CacheEntry, Entries, MetadataToolCacheSettings, move_to_end, evict, lookup, is_off, is_expired,
  get, put, clear,
}
use mssql_ai_project.Mcp.ToolCache.Entries.{length-evict, get-served}

-- One call of a method of the cache, with the settings and the time that it reads.
pub data Call : Type 0 where
  get_call : MetadataToolCacheSettings → ℕ → String → Call
  put_call : MetadataToolCacheSettings → ℕ → String → Fields → Call
  clear_call : Call

module _ (stable_json_hash : String → Text) where
  unfoldable pub perform : Call → Entries → Entries
  perform (get_call settings now key) d = (get stable_json_hash settings now key d).1
  perform (put_call settings now key payload) d =
      (put stable_json_hash settings now key payload d).1
  perform clear_call d = clear d

  unfoldable pub perform_all : List Call → Entries → Entries
  perform_all [] d = d
  perform_all (c ∷ cs) d = perform_all cs (perform c d)

-- every payload held is one that may be held
abbrev pub IsClean : Entries → Type 0
IsClean = Dict.Each (λ key e. payload_is_cacheable e.payload ≡ true)

-- the entries that the settings of a call allow
abbrev pub Allows : ℕ → Call → Type 0
Allows n (get_call settings now key) = Unit
Allows n (put_call settings now key payload) = settings.max_entries ≤ n
Allows n clear_call = Unit

module _ (P : String → CacheEntry → Type 0) where
  Each-remove : (d : Entries) (key : String) → Dict.Each P d → Dict.Each P (Dict.remove d key)
  unfolding Dict.remove
  Each-remove [] key h = tt
  Each-remove ((j, u) ∷ d) key h = ground (arith, Each-remove d key h.1)

  Each-evict : (n : ℕ) (d : Entries) → Dict.Each P d → Dict.Each P (evict n d)
  unfolding evict
  Each-evict n [] h = tt
  Each-evict n (e ∷ d) h = ground (arith, Each-evict n d h.1)

  moved :
      (d : Entries) (key : String) (found : Option CacheEntry)
      → Dict.get d key ≡ found
      → Dict.Each P d
      → Dict.Each P (move_to_end d key)
  unfolding move_to_end
  moved d key none e h = rw (e, move_to_end) h
  moved d key (some u) e h =
      rw (e, move_to_end)
        (All-append _ (Dict.remove d key) ((key, u) ∷ []) (Each-remove d key h)
          (Dict.Each-get P d key u h e, tt))

  Each-move_to_end : (d : Entries) (key : String) → Dict.Each P d → Dict.Each P (move_to_end d key)
  Each-move_to_end d key h = moved d key (Dict.get d key) refl h

length-remove : (d : Entries) (key : String) → length (Dict.remove d key) ≤ length d
unfolding Dict.remove
length-remove [] key = omega arith
length-remove ((j, u) ∷ d) key = ground (arith, length-remove d key)

length-remove_present :
    (d : Entries) (key : String) (e : CacheEntry)
    → Dict.get d key ≡ some e
    → suc (length (Dict.remove d key)) ≤ length d
unfolding Dict.get Dict.remove
length-remove_present [] key e h = ground arith
length-remove_present ((j, u) ∷ d) key e h =
    ground (arith, length-remove d key, length-remove_present d key e)

moved_length :
    (d : Entries) (key : String) (found : Option CacheEntry)
    → Dict.get d key ≡ found
    → length (move_to_end d key) ≤ length d
unfolding move_to_end
moved_length d key none e = rw (e, move_to_end, length) (omega arith)
moved_length d key (some u) e =
    rw (e, move_to_end, length)
      (omega
        (arith, length-append (Dict.remove d key) ((key, u) ∷ []), length-remove_present d key u e))

module _ (stable_json_hash : String → Text) where
  looked_up :
      (settings : MetadataToolCacheSettings) (now : ℕ) (key : String) (found : Option CacheEntry)
      (d : Entries)
      → IsClean d
      → IsClean (lookup stable_json_hash settings now key found d).1
  looked_up settings now key none d h = h
  looked_up settings now key (some e) d h = elim (Bool-cases (is_expired settings now e)) [
    | inl old ↦ rw old (Each-remove _ d key h)
    | inr fresh ↦ rw fresh (Each-move_to_end _ d key h)
  ]

  perform-IsClean : (c : Call) (d : Entries) → IsClean d → IsClean (perform stable_json_hash c d)
  unfolding perform get put clear
  perform-IsClean (get_call settings now key) d h = elim (Bool-cases (is_off settings)) [
    | inl off ↦ rw (off, perform, get, put) h
    | inr on ↦ rw (on, perform, get, put) (looked_up settings now key (Dict.get d key) d h)
  ]
  perform-IsClean (put_call settings now key payload) d h = elim (Bool-cases (is_off settings)) [
    | inl off ↦ rw (off, perform, get, put) h
    | inr on ↦ elim (Bool-cases (payload_is_cacheable payload)) [
      | inl safe ↦
          rw (on, safe, perform, get, put)
            (Each-evict _ _ _ (Each-move_to_end _ _ key (Dict.Each-put _ d key _ h safe)))
      | inr unsafe ↦ rw (on, unsafe, perform, get, put) h
    ]
  ]
  perform-IsClean clear_call d h = tt

  perform_all-IsClean :
      (cs : List Call) (d : Entries) → IsClean d → IsClean (perform_all stable_json_hash cs d)
  unfolding perform_all
  perform_all-IsClean [] d h = h
  perform_all-IsClean (c ∷ cs) d h =
      perform_all-IsClean cs (perform stable_json_hash c d) (perform-IsClean c d h)

  -- After any calls on a new cache, a payload that `get` returns is one that
  -- `payload_is_cacheable` accepts, whatever was put.
  pub get-cacheable :
      (cs : List Call) (settings : MetadataToolCacheSettings) (now : ℕ) (key : String)
      (payload : Fields)
      → (get stable_json_hash settings now key (perform_all stable_json_hash cs [])).0.0
        ≡ some payload
      → payload_is_cacheable payload ≡ true
  get-cacheable cs settings now key payload h =
      let (e, found, same, fresh) = get-served stable_json_hash settings now key payload _ h in
      subst (λ p. payload_is_cacheable p ≡ true) same
        (Dict.Each-get _ _ key e (perform_all-IsClean cs [] tt) found)

  looked_up_length :
      (settings : MetadataToolCacheSettings) (now : ℕ) (key : String) (found : Option CacheEntry)
      (d : Entries)
      → length (lookup stable_json_hash settings now key found d).1 ≤ length d
  looked_up_length settings now key none d = omega arith
  looked_up_length settings now key (some e) d = elim (Bool-cases (is_expired settings now e)) [
    | inl old ↦ rw old (length-remove d key)
    | inr fresh ↦ rw fresh (moved_length d key (Dict.get d key) refl)
  ]

  perform-length :
      (n : ℕ) (c : Call) (d : Entries)
      → Allows n c
      → length d ≤ n
      → length (perform stable_json_hash c d) ≤ n
  unfolding perform get put clear
  perform-length n (get_call settings now key) d a h = elim (Bool-cases (is_off settings)) [
    | inl off ↦ rw (off, length, perform, get, put) h
    | inr on ↦
        rw (on, length, perform, get, put)
          (omega (arith, looked_up_length settings now key (Dict.get d key) d))
  ]
  perform-length n (put_call settings now key payload) d a h = elim (Bool-cases (is_off settings)) [
    | inl off ↦ rw (off, length, perform, get, put) h
    | inr on ↦ elim (Bool-cases (payload_is_cacheable payload)) [
      | inl safe ↦
          rw (on, safe, length, perform, get, put)
            (omega (arith, length-evict settings.max_entries _, a))
      | inr unsafe ↦ rw (on, unsafe, length, perform, get, put) h
    ]
  ]
  perform-length n clear_call d a h = omega arith

  bounded_from :
      (n : ℕ) (cs : List Call) (d : Entries)
      → All (Allows n) cs
      → length d ≤ n
      → length (perform_all stable_json_hash cs d) ≤ n
  unfolding perform_all
  bounded_from n [] d a h = h
  bounded_from n (c ∷ cs) d a h =
      bounded_from n cs (perform stable_json_hash c d) a.1 (perform-length n c d a.0 h)

  -- After any calls on a new cache, none of which read a larger `max_entries` than `n` when it put,
  -- the cache holds at most `n` entries.
  pub perform_all-bounded :
      (n : ℕ) (cs : List Call) → All (Allows n) cs → length (perform_all stable_json_hash cs []) ≤ n
  perform_all-bounded n cs a = bounded_from n cs [] a (omega arith)
