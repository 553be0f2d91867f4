-- ===== src/Access/Keys.antt =====
-- What a key is that lets a request through (handleAPIKeyAuth of internal/middleware/apikey.go).
use video_meeting_recorder.Common.{
  ℕ, ◌≤◌, ◌≡◌, refl, sym, subst, false, [], ◌∷◌, ◌⊎◌, contains, text_eq, text_eq_iff, Option-cases,
  if◌then◌else◌, Bool, true, not, ◌&&◌, Option, none, some, List, Text, is_empty, Bool-cases, inl,
  inr, arith,
}
use video_meeting_recorder.Common.Maps.{Map}
use video_meeting_recorder.IpValidator.{Net, slash}
use video_meeting_recorder.Sm4Token.{User}
use video_meeting_recorder.Sm4Token.Refresh.{find_user}
use video_meeting_recorder.ApiKey.{
  ApiKey, JsonLists, is_expired, list_of, normalize_ip, in_network, admits, any_admits, allows,
  is_ip_allowed,
}
use video_meeting_recorder.Access.{
  passes, Context, Request, find_key, key_context, check_key, check_found, handle_api_key_auth,
}

passes_injective : (c d : Context) → passes c ≡ passes d → c ≡ d
passes_injective c d h = cc

unfoldable pub Listed : Text → List Text → Type 0
Listed e [] = ⊥
Listed e (x ∷ xs) = (e ≡ x) ⊎ Listed e xs

empty_nil : (s : Text) → is_empty s ≡ true → s ≡ []
empty_nil [] h = refl
empty_nil (c ∷ s) h = absurd (ground arith)

module _ (json : JsonLists) (n : Net) (now : ℕ) where
  -- The key is in force for a client, and its user may log in.
  unfoldable pub in_force : Text → ApiKey → User → Bool
  in_force client k u =
      k.is_active && not (is_expired now k) && u.is_active && is_ip_allowed json n client k

  check_key_passes :
      (client : Text) (k : ApiKey) (o : Option User) (c : Context)
      → check_key json n now client k o ≡ passes c
      → (u : User) × (o ≡ some u) × (in_force client k u ≡ true) × (c ≡ key_context json k u)
  unfolding check_key in_force
  check_key_passes client k none c h = absurd (ground (arith, h))
  check_key_passes client k (some u) c h =
      let same : passes (key_context json k u) ≡ passes c = ground (arith, h) in
      (u, refl, ground (arith, h), sym (passes_injective (key_context json k u) c same))

  check_found_passes :
      (client : Text) (users : List User) (o : Option ApiKey) (c : Context)
      → check_found json n now client users o ≡ passes c
      → (k : ApiKey) × (u : User) × (o ≡ some k)
        × (find_user k.user_id users ≡ some u)
        × (in_force client k u ≡ true)
        × (c ≡ key_context json k u)
  unfolding check_found
  check_found_passes client users none c h = absurd (ground (arith, h))
  check_found_passes client users (some k) c h =
      let (u, f, i, e) = check_key_passes client k (find_user k.user_id users) c h in
      (k, u, refl, f, i, e)

  handle_api_key_auth-in_force :
      (loaded : Bool) (keys : Map ApiKey) (users : List User) (q : Request) (c : Context)
      → handle_api_key_auth json n now loaded keys users q ≡ passes c
      → (k : ApiKey) × (u : User) × (find_key q.api_key keys ≡ some k)
        × (find_user k.user_id users ≡ some u)
        × (in_force q.client_ip k u ≡ true)
        × (c ≡ key_context json k u)
  unfolding handle_api_key_auth
  handle_api_key_auth-in_force loaded keys users q c = elim (Bool-cases (is_empty q.api_key)) [
    | inl e ↦ simp (e, handle_api_key_auth) (λ h. absurd (ground (arith, h)))
    | inr e ↦ elim (Bool-cases loaded) [
      | inl l ↦
          rw (e, l, handle_api_key_auth)
            (check_found_passes q.client_ip users (find_key q.api_key keys) c)
      | inr l ↦
          rw (e, l, handle_api_key_auth)
            (λ h.
              let (k, u, f, w, i, s) = check_found_passes q.client_ip users none c h in
              absurd (ground (arith, f)))
    ]
  ]

  -- An entry of a list of addresses that lets a client through: its address, or a network, an entry with a
  -- slash, that has its address.
  abbrev pub Names : Text → Text → Type 0
  Names client e =
      (e ≡ client)
      ⊎ ((contains slash e ≡ true)
          × ((has : Text → Bool) × (ip : Text) × (n.parse_cidr e ≡ some has)
              × (normalize_ip n (n.parse_ip client) ≡ some ip)
              × (has ip ≡ true)))

  -- A key has no list of addresses, or a list that can be read and is empty or names the client.
  abbrev pub AllowsAddress : Text → ApiKey → Type 0
  AllowsAddress client k =
      (k.ip_whitelist ≡ [])
      ⊎ ((list : List Text) × (json.unmarshal k.ip_whitelist ≡ some list)
          × ((list ≡ []) ⊎ ((e : Text) × Listed e list × Names client e)))

  in_network_has :
      (client e : Text) (o : Option Text)
      → in_network n o e ≡ true
      → (has : Text → Bool) × (ip : Text) × (n.parse_cidr e ≡ some has)
        × (o ≡ some ip)
        × (has ip ≡ true)
  unfolding in_network
  in_network_has client e o h = elim (Option-cases (n.parse_cidr e)) [
    | inl p ↦ absurd (ground (arith, h, p))
    | inr (has, p) ↦ go o has p (
        subst
          (λ y.
            elim y as (λ z. Bool) [ none ↦ false | some f ↦ elim o [ none ↦ false | some a ↦ f a ] ]
            ≡ true)
          p h)
  ]
    where
      go :
          (o : Option Text) (has : Text → Bool)
          → n.parse_cidr e ≡ some has
          → elim o as (λ z. Bool) [ none ↦ false | some a ↦ has a ] ≡ true
          → (has : Text → Bool) × (ip : Text) × (n.parse_cidr e ≡ some has)
            × (o ≡ some ip)
            × (has ip ≡ true)
      go none has p h = absurd (ground arith)
      go (some ip) has p h = (has, ip, p, refl, h)

  admits-Names : (client e : Text) → admits n client e ≡ true → Names client e
  unfolding admits
  admits-Names client e h = elim (Bool-cases (text_eq e client)) [
    | inl p ↦ inl ((text_eq_iff e client).0 p)
    | inr p ↦ inr (
      ground (arith, h, p),
      in_network_has client e (normalize_ip n (n.parse_ip client)) (ground (arith, h, p)),
    )
  ]

  any_admits_named :
      (client : Text) (list : List Text)
      → any_admits n client list ≡ true
      → (e : Text) × Listed e list × Names client e
  unfolding any_admits Listed
  any_admits_named client [] h = absurd (ground arith)
  any_admits_named client (e ∷ es) h = elim (Bool-cases (admits n client e)) [
    | inl p ↦ (e, inl refl, admits-Names client e p)
    | inr p ↦ let (d, l, m) = any_admits_named client es (ground (arith, h, p)) in (d, inr l, m)
  ]

  allows_list :
      (client : Text) (o : Option (List Text))
      → allows n client o ≡ true
      → (list : List Text) × (o ≡ some list)
        × ((list ≡ []) ⊎ ((e : Text) × Listed e list × Names client e))
  unfolding allows
  allows_list client none h = absurd (ground arith)
  allows_list client (some []) h = ([], refl, inl refl)
  allows_list client (some (e ∷ es)) h = (e ∷ es, refl, inr (any_admits_named client (e ∷ es) h))

  allowed_address :
      (client : Text) (k : ApiKey) → is_ip_allowed json n client k ≡ true → AllowsAddress client k
  unfolding is_ip_allowed list_of
  allowed_address client k h = elim (Bool-cases (is_empty k.ip_whitelist)) [
    | inl p ↦ inl (empty_nil k.ip_whitelist p)
    | inr p ↦ inr (
        allows_list client (json.unmarshal k.ip_whitelist) (
          subst (λ b. allows n client (if b then some [] else json.unmarshal k.ip_whitelist) ≡ true)
            p h))
  ]

  not_over : (k : ApiKey) (t : ℕ) → is_expired now k ≡ false → k.expires_at ≡ some t → now ≤ t
  unfolding is_expired
  not_over k t h e = ground (arith, h, e)

  -- A request that the key in its header lets through has a stored key that is active, whose end, if it has
  -- one, has not passed, and a user who is found and active. The key has no list of addresses, or a list
  -- that is empty, has the client's address, or has a network with that address; a list that cannot be
  -- read lets nothing through. The context is that of the key and the user.
  pub handle_api_key_auth_sound :
      (loaded : Bool) (keys : Map ApiKey) (users : List User) (q : Request) (c : Context)
      → handle_api_key_auth json n now loaded keys users q ≡ passes c
      → (k : ApiKey) × (u : User) × (find_key q.api_key keys ≡ some k)
        × (find_user k.user_id users ≡ some u)
        × (k.is_active ≡ true)
        × ((t : ℕ) → k.expires_at ≡ some t → now ≤ t)
        × (u.is_active ≡ true)
        × AllowsAddress q.client_ip k
        × (c ≡ key_context json k u)
  unfolding in_force
  handle_api_key_auth_sound loaded keys users q c h =
      let (k, u, f, found, force, same) = handle_api_key_auth-in_force loaded keys users q c h in
      (
        k,
        u,
        f,
        found,
        ground (arith, force),
        λ t e. not_over k t (ground (arith, force)) e,
        ground (arith, force),
        allowed_address q.client_ip k (ground (arith, force)),
        same,
      )
