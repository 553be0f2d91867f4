-- ===== src/Access/Inherited.antt =====
-- RequireAPIKeyResourcePermission of internal/middleware/apikey.go for a key that inherits the permissions
-- of its user, against HasPermission of internal/models/user.go.
use video_meeting_recorder.Common.{
  ℕ, ◌≡◌, refl, ap, sym, ◌∙◌, subst, Bool, true, false, not, ◌||◌, none, some, List, [], ◌∷◌, ◌++◌,
  map, all, Text, codes, text_eq, text_eq_iff, contains, ◌==◌, if◌then◌else◌, Bool-cases, inl, inr,
  arith,
}
use video_meeting_recorder.Common.Maps.{Map}
use video_meeting_recorder.IpValidator.{Net}
use video_meeting_recorder.Sm4Token.{Permission, Role, User, has_role, has_text}
use video_meeting_recorder.Sm4Token.Refresh.{find_user}
use video_meeting_recorder.ApiKey.{ApiKey, JsonLists}
use video_meeting_recorder.Access.{
  colon, star, grants, any_grants, has_permission, passes, Context, Request, permission_text,
  permission_texts, inherited, key_context, handle_api_key_auth, has_admin, Verdict, permitted,
  require_api_key_resource_permission,
}
use video_meeting_recorder.Access.Keys.{handle_api_key_auth_sound}

-- The name of a resource has no colon.
unfoldable pub is_plain : Permission → Bool
unfolding contains
is_plain p = not (contains colon p.resource)

unfoldable pub plain_user : User → Bool
unfolding all is_plain
plain_user u = all (λ r. all is_plain r.permissions) u.roles

-- Two texts with a colon are equal only if they are equal up to the first and after it.
text_eq-colon :
    (r s a b : Text)
    → contains colon r ≡ false
    → contains colon s ≡ false
    → text_eq (r ++ colon ∷ a) (s ++ colon ∷ b) ≡ true
    → (text_eq r s ≡ true) × (text_eq a b ≡ true)
unfolding text_eq contains
text_eq-colon [] [] a b h k q = (refl, ground arith)
text_eq-colon [] (y ∷ s) a b h k q = absurd (ground arith)
text_eq-colon (x ∷ r) [] a b h k q = absurd (ground arith)
text_eq-colon (x ∷ r) (y ∷ s) a b h k q = ground (arith, text_eq-colon r s a b)

colonless-ne : (t r a : Text) → contains colon t ≡ false → text_eq t (r ++ colon ∷ a) ≡ false
unfolding text_eq contains
colonless-ne [] [] a h = refl
colonless-ne [] (x ∷ r) a h = refl
colonless-ne (y ∷ t) [] a h = ground arith
colonless-ne (y ∷ t) (x ∷ r) a h = ground (arith, colonless-ne t r a)

text_eq-sym : (s t : Text) → text_eq s t ≡ true → text_eq t s ≡ true
text_eq-sym s t h = (text_eq_iff t s).1 (sym ((text_eq_iff s t).0 h))

has_text-append :
    (t : Text) (xs ys : List Text) → has_text t (xs ++ ys) ≡ (has_text t xs || has_text t ys)
unfolding has_text
has_text-append t [] ys = refl
has_text-append t (x ∷ xs) ys = ground (arith, has_text-append t xs ys)

colonless-map :
    (t : Text) (ps : List Permission)
    → contains colon t ≡ false
    → has_text t (map permission_text ps) ≡ false
unfolding has_text
colonless-map t [] h = refl
colonless-map t (p ∷ ps) h =
    ground (arith, colonless-ne t p.resource p.action h, colonless-map t ps h)

colonless-texts :
    (t : Text) (rs : List Role)
    → contains colon t ≡ false
    → has_text t (permission_texts rs) ≡ false
unfolding permission_texts has_text
colonless-texts t [] h = refl
colonless-texts t (r ∷ rs) h =
    has_text-append t (map permission_text r.permissions) (permission_texts rs)
    ∙ ground (arith, colonless-map t r.permissions h, colonless-texts t rs h)

module _ (resource action : Text) (plain : contains colon resource ≡ false) where
  map_grants :
      (ps : List Permission)
      → all is_plain ps ≡ true
      → has_text (resource ++ colon ∷ action) (map permission_text ps) ≡ true
      → any_grants resource action ps ≡ true
  unfolding has_text any_grants all is_plain grants
  map_grants [] h q = absurd (ground arith)
  map_grants (p ∷ ps) h q =
      elim (Bool-cases (text_eq (resource ++ colon ∷ action) (permission_text p))) [
        | inl e ↦
            let (r, a) =
              text_eq-colon resource p.resource action p.action plain (ground (arith, h)) e in
            ground (arith, text_eq-sym resource p.resource r, text_eq-sym action p.action a)
        | inr e ↦ ground (arith, map_grants ps (ground (arith, h)) (ground (arith, q, e)))
      ]

  texts_grant :
      (rs : List Role)
      → all (λ r. all is_plain r.permissions) rs ≡ true
      → has_text (resource ++ colon ∷ action) (permission_texts rs) ≡ true
      → has_permission resource action rs ≡ true
  unfolding has_text permission_texts has_permission all
  texts_grant [] h q = absurd (ground arith)
  texts_grant (r ∷ rs) h q =
      let split =
        sym (
          has_text-append (resource ++ colon ∷ action) (map permission_text r.permissions)
            (permission_texts rs))
        ∙ q in
      elim (Bool-cases
        (has_text (resource ++ colon ∷ action) (map permission_text r.permissions))) [
          | inl e ↦ ground (arith, map_grants r.permissions (ground (arith, h)) e)
          | inr e ↦ ground (arith, texts_grant rs (ground (arith, h)) (ground (arith, split, e)))
        ]

find_user-all :
    (p : User → Bool) (i : ℕ) (users : List User) (u : User)
    → all p users ≡ true
    → find_user i users ≡ some u
    → p u ≡ true
unfolding all find_user
find_user-all p i [] u h q = absurd (ground arith)
find_user-all p i (v ∷ us) u h q = elim (Bool-cases (v.id == i)) [
  | inl e ↦ let same : v ≡ u = ground (arith, q) in subst (λ y. p y ≡ true) same (ground (arith, h))
  | inr e ↦ find_user-all p i us u (ground (arith, h)) (ground (arith, q))
]

texts_no_admin : (rs : List Role) → has_admin (permission_texts rs) ≡ false
unfolding has_admin contains
texts_no_admin rs =
    ground (arith, colonless-texts (codes "admin") rs refl, colonless-texts star rs refl)

permitted-inherited :
    (t : Text) (b : Bool) (rs : List Role)
    → b ≡ true
    → permitted (has_text t) (inherited b rs) ≡ none
    → has_text t (permission_texts rs) ≡ true
unfolding permitted inherited
permitted-inherited t false rs e h = absurd (ground arith)
permitted-inherited t true [] e h = absurd (ground (arith, h))
permitted-inherited t true (r ∷ rs) e h = ground (arith, texts_no_admin (r ∷ rs), h)

taken : (b : Bool) (x y : Verdict) → b ≡ true → (if b then x else y) ≡ none → x ≡ none
taken true x y e h = h
taken false x y e h = absurd (ground arith)

refused_without :
    (t : Text) (b : Bool) (rs : List Role) (y : Verdict)
    → b ≡ true
    → permission_texts rs ≡ []
    → (if b then permitted (has_text t) (inherited b rs) else y) ≡ some 403
unfolding permitted inherited has_admin has_text
refused_without t false rs y e h = absurd (ground arith)
refused_without t true [] y e h = refl
refused_without t true (r ∷ rs) y e h = rw (h, permitted) refl

module _ (json : JsonLists) (n : Net) (now : ℕ) (loaded : Bool) (keys : Map ApiKey)
    (users : List User) where
  -- A request that a key lets through which inherits the permissions of its user, and that the check of a
  -- resource and an action then lets go on, comes from an active user whom HasPermission grants the
  -- action on the resource. The names of resources have no colon.
  pub inherited_within :
      (q : Request) (c : Context) (resource action : Text)
      → contains colon resource ≡ false
      → all plain_user users ≡ true
      → handle_api_key_auth json n now loaded keys users q ≡ passes c
      → c.inherit_perms ≡ true
      → require_api_key_resource_permission resource action c ≡ none
      → (u : User) × (find_user c.user_id users ≡ some u)
        × (u.is_active ≡ true)
        × (has_permission resource action u.roles ≡ true)
  unfolding require_api_key_resource_permission key_context plain_user
  inherited_within q c resource action plain users_plain h i r =
      let (k, u, f, found, live, date, active, address, same) =
        handle_api_key_auth_sound json n now loaded keys users q c h in
      let inherits : k.inherit_perms ≡ true = sym (ap Context.inherit_perms same) ∙ i in
      let required : require_api_key_resource_permission resource action (key_context json k u)
          ≡ none =
        sym (ap (require_api_key_resource_permission resource action) same) ∙ r in
      let roles_plain = find_user-all plain_user k.user_id users u users_plain found in
      let held : has_text (resource ++ colon ∷ action) (permission_texts u.roles) ≡ true =
        permitted-inherited (resource ++ colon ∷ action) k.inherit_perms u.roles inherits
          (taken k.inherit_perms _ _ inherits required) in
      (
        u,
        ap (λ y. find_user y users) (ap Context.user_id same) ∙ found,
        active,
        texts_grant resource action plain u.roles roles_plain held,
      )

has_role-permission :
    (resource action : Text) (rs : List Role)
    → has_role (codes "admin") rs ≡ true
    → has_permission resource action rs ≡ true
unfolding has_role has_permission
has_role-permission resource action [] h = absurd (ground arith)
has_role-permission resource action (r ∷ rs) h =
    ground (arith, has_role-permission resource action rs)

-- A key that inherits the permissions of an administrator whose roles list none is refused every action on
-- every resource, although HasPermission grants them all.
pub admin_refused :
    (json : JsonLists) (k : ApiKey) (u : User) (resource action : Text)
    → k.inherit_perms ≡ true
    → has_role (codes "admin") u.roles ≡ true
    → permission_texts u.roles ≡ []
    → (has_permission resource action u.roles ≡ true)
      × (require_api_key_resource_permission resource action (key_context json k u) ≡ some 403)
unfolding require_api_key_resource_permission key_context
admin_refused json k u resource action i a e = (
  has_role-permission resource action u.roles a,
  refused_without (resource ++ colon ∷ action) k.inherit_perms u.roles _ i e,
)
