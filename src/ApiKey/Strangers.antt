-- ===== src/ApiKey/Strangers.antt =====
-- What the calls of a user who is no administrator do to the keys of the others
-- (internal/services/apikey_service.go).
use video_meeting_recorder.Common.{
  ℕ, ◌≡◌, ◌≢◌, refl, ap, sym, ◌∙◌, subst, Bool, true, false, not, ◌||◌, Option, some, List, [], ◌∷◌,
  Text, ◌==◌, ==_iff, Bool-cases, inl, inr, arith,
}
use video_meeting_recorder.Common.Maps.{
  Map, lookup, insert, has_key, lookup-insert, lookup-delete, has_key-lookup,
}
use video_meeting_recorder.Errors.{Result, ok, err, ◌>>=◌}
use video_meeting_recorder.ApiKey.{
  ApiKey, JsonLists, is_own, own_only, find_api_key_for_user, CreateApiKeyRequest, build_key,
  insert_key, insert_built, create_api_key, UpdateApiKeyRequest, updated, store, reload,
  update_api_key, toggled, toggle_api_key_status, delete_found, delete_api_key,
}

-- A call, with what its surroundings answer.
pub data Call : Type 0 where
  creates :
      (stored : Bool → Bool) (parse : Text → Option ℕ) (now : ℕ) (key : Option Text)
      (written : Bool) (id : ℕ) (request : CreateApiKeyRequest)
      → Call
  updates : (loaded written reloaded : Bool) (id : ℕ) (request : UpdateApiKeyRequest) → Call
  toggles : (loaded written : Bool) (id : ℕ) → Call
  deletes : (loaded written : Bool) (id : ℕ) → Call

module _ (json : JsonLists) (user_id : ℕ) where
  abbrev pub step : Call → Map ApiKey → Map ApiKey
  step (creates stored parse now key written id q) keys =
      (create_api_key json stored parse now key written id user_id q keys).1
  step (updates loaded written reloaded id q) keys =
      (update_api_key json loaded written reloaded id user_id false q keys).1
  step (toggles loaded written id) keys =
      (toggle_api_key_status loaded written id user_id false keys).1
  step (deletes loaded written id) keys = (delete_api_key loaded written id user_id false keys).1

  abbrev pub run : List Call → Map ApiKey → Map ApiKey
  run [] keys = keys
  run (c ∷ cs) keys = run cs (step c keys)

-- The key of someone else is stored.
module _ (user_id j : ℕ) (r : ApiKey) (other : r.user_id ≢ user_id) where
  abbrev Kept : Map ApiKey → Type 0
  Kept keys = lookup j keys ≡ some r

  -- The user finds no key under its identifier.
  not_found :
      (loaded : Bool) (keys : Map ApiKey) (k : ApiKey)
      → Kept keys
      → find_api_key_for_user loaded j user_id false keys ≡ ok k
      → ⊥
  unfolding find_api_key_for_user own_only is_own
  not_found loaded keys k h = elim (Bool-cases loaded) [
    | inl e ↦ rw (e, h, find_api_key_for_user, own_only) (λ q. other (ground arith))
    | inr e ↦ rw (e, find_api_key_for_user) (λ q. absurd (ground arith))
  ]

  insert_other :
      (id : ℕ) (k : ApiKey) (keys : Map ApiKey)
      → (j == id) ≡ false
      → Kept keys
      → Kept (insert id k keys)
  insert_other id k keys e h = lookup-insert j id k keys ∙ rw e h

  store-Kept :
      (written : Bool) (id : ℕ) (o : Result ApiKey) (keys : Map ApiKey)
      → ((k : ApiKey) → o ≡ ok k → (j == id) ≡ false)
      → Kept keys
      → Kept (store written id o keys).1
  unfolding store
  store-Kept written id (err e) keys q h = h
  store-Kept written id (ok k) keys q h = elim (Bool-cases written) [
    | inl w ↦ rw (w, store) (insert_other id k keys (q k refl) h)
    | inr w ↦ rw (w, store) h
  ]

  delete_found-Kept :
      (written : Bool) (id : ℕ) (o : Result ApiKey) (keys : Map ApiKey)
      → ((k : ApiKey) → o ≡ ok k → (j == id) ≡ false)
      → Kept keys
      → Kept (delete_found written id o keys).1
  unfolding delete_found
  delete_found-Kept written id (err e) keys q h = h
  delete_found-Kept written id (ok k) keys q h = elim (Bool-cases written) [
    | inl w ↦ rw (w, delete_found) (lookup-delete j id keys ∙ rw (q k refl) h)
    | inr w ↦ rw (w, delete_found) h
  ]

  reload-keys : (b : Bool) (p : Result ApiKey × Map ApiKey) → (reload b p).1 ≡ p.1
  unfolding reload
  reload-keys b (err e, keys) = refl
  reload-keys b (ok k, keys) = ground arith

  -- What is found is no stranger's.
  found_own :
      (loaded : Bool) (id : ℕ) (keys : Map ApiKey) (k : ApiKey)
      → Kept keys
      → find_api_key_for_user loaded id user_id false keys ≡ ok k
      → (j == id) ≡ false
  found_own loaded id keys k h q = elim (Bool-cases (j == id)) [
    | inl e ↦
        let same : id ≡ j = sym ((==_iff j id).0 e) in
        absurd (
          not_found loaded keys k h
            (subst (λ i. find_api_key_for_user loaded i user_id false keys ≡ ok k) same q))
    | inr e ↦ e
  ]

  found_then :
      (loaded : Bool) (id : ℕ) (keys : Map ApiKey) (f : ApiKey → Result ApiKey) (k : ApiKey)
      → Kept keys
      → (find_api_key_for_user loaded id user_id false keys >>= f) ≡ ok k
      → (j == id) ≡ false
  found_then loaded id keys f k h =
      go (find_api_key_for_user loaded id user_id false keys)
        (λ k' q. found_own loaded id keys k' h q)
    where
      go :
          (o : Result ApiKey)
          → ((k' : ApiKey) → o ≡ ok k' → (j == id) ≡ false)
          → (o >>= f) ≡ ok k
          → (j == id) ≡ false
      go (err e) q p = absurd (ground arith)
      go (ok k') q p = q k' refl

  insert_built-Kept :
      (written : Bool) (o : Result ApiKey) (keys : Map ApiKey)
      → Kept keys
      → Kept (insert_built written o keys).1
  unfolding insert_built insert_key
  insert_built-Kept written (err e) keys h = h
  insert_built-Kept written (ok k) keys h = elim (Bool-cases (not written || has_key k.id keys)) [
    | inl e ↦ rw (e, insert_built, insert_key) h
    | inr e ↦
        let new : (j == k.id) ≡ false = fresh k.id e in
        rw (e, insert_built, insert_key) (insert_other k.id k keys new h)
  ]
    where
      fresh : (id : ℕ) → (not written || has_key id keys) ≡ false → (j == id) ≡ false
      fresh id e = elim (Bool-cases (j == id)) [
        | inl d ↦
            let same : j ≡ id = (==_iff j id).0 d in
            let found : has_key id keys ≡ true =
              subst (λ i. has_key i keys ≡ true) same (has_key-lookup j r keys h) in
            absurd (ground arith)
        | inr d ↦ d
      ]

  step-Kept :
      (json : JsonLists) (c : Call) (keys : Map ApiKey)
      → Kept keys
      → Kept (step json user_id c keys)
  unfolding create_api_key update_api_key toggle_api_key_status delete_api_key
  step-Kept json (creates stored parse now key written id q) keys h =
      insert_built-Kept written (build_key json stored parse now key id user_id q) keys h
  step-Kept json (updates loaded written reloaded id q) keys h =
      let o = find_api_key_for_user loaded id user_id false keys >>= updated json q in
      ap (lookup j) (reload-keys reloaded (store written id o keys))
      ∙ store-Kept written id o keys (λ k p. found_then loaded id keys (updated json q) k h p) h
  step-Kept json (toggles loaded written id) keys h =
      store-Kept written id (find_api_key_for_user loaded id user_id false keys >>= toggled) keys
        (λ k p. found_then loaded id keys toggled k h p) h
  step-Kept json (deletes loaded written id) keys h =
      delete_found-Kept written id (find_api_key_for_user loaded id user_id false keys) keys
        (λ k p. found_own loaded id keys k h p) h

  -- Whatever keys a user who is no administrator creates, updates, toggles and deletes, by whatever
  -- identifiers, the key of another user stays as it is.
  pub run_keeps :
      (json : JsonLists) (cs : List Call) (keys : Map ApiKey)
      → lookup j keys ≡ some r
      → lookup j (run json user_id cs keys) ≡ some r
  run_keeps json [] keys h = h
  run_keeps json (c ∷ cs) keys h =
      run_keeps json cs (step json user_id c keys) (step-Kept json c keys h)
