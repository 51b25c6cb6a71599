-- ===== src/Sharing/Guard.antt =====
-- core/src/extensions/sharing/guard.rs, `authorize_public_rpc`; `PublicRpc` of
-- crates/shared-types/src/lib.rs and `ResolvedShare` of core/src/extensions/sharing/mod.rs, as far
-- as it reads them. The JSON values, their `get` and their `==` are serde_json's: parameters.
use root_cx.Prelude.{
  ℕ, ◌≡◌, refl, arith, Bool, true, false, Option, none, some, List, [], ◌∷◌, Text, text_eq, All,
  inl, inr, ◌↔◌, Bool-cases, Option-cases, text_eq_refl, text_eq_sound, if◌then◌else◌,
}

pub record PublicRpc : Type 0 where
  pub name : Text
  pub publications : List Text
  pub scope : List Text

pub data Refused : Type 0 where
  other_app : Text → Refused
  no_share_token : Refused
  scope_mismatch : Text → Refused

-- `Result<(), ApiError>`: `other_app` and `scope_mismatch` are 403, `no_share_token` is 401.
pub data Authorized : Type 0 where
  ok : Authorized
  err : Refused → Authorized

module _ (Json : Type 0) (get : Json → Text → Option Json) (same : Json → Json → Bool) where
  pub record ResolvedShare : Type 0 where
    pub share_id : ℕ
    pub app_id : Text
    pub created_by : ℕ
    pub context : Json

  -- The identity of a user plays no part here.
  pub data CallerAuth : Type 0 where
    user : CallerAuth
    share_token : ResolvedShare → CallerAuth
    anonymous : CallerAuth

  abbrev pub share_app_id : CallerAuth → Option Text
  share_app_id (share_token share) = some share.app_id
  share_app_id _ = none

  abbrev pub agree : Option Json → Option Json → Bool
  agree (some expected) (some actual) = same expected actual
  agree _ _ = false

  -- The loop over `decl.scope`.
  unfoldable pub match_scope : List Text → Json → Json → Authorized
  match_scope [] context params = ok
  match_scope (key ∷ keys) context params =
      if agree (get context key) (get params key)
      then match_scope keys context params
      else err (scope_mismatch key)

  abbrev pub own_app : Option Text → Text → Authorized
  own_app none app_id = ok
  own_app (some share_app) app_id =
      if text_eq share_app app_id then ok else err (other_app share_app)

  abbrev pub scoped : List Text → CallerAuth → Text → Json → Authorized
  scoped scope (share_token share) app_id params =
      if text_eq share.app_id app_id
      then match_scope scope share.context params
      else err (other_app share.app_id)
  scoped scope _ app_id params = err no_share_token

  unfoldable pub authorize_scope : List Text → CallerAuth → Text → Json → Authorized
  authorize_scope [] auth app_id params = own_app (share_app_id auth) app_id
  authorize_scope (key ∷ keys) auth app_id params = scoped (key ∷ keys) auth app_id params

  abbrev pub authorize_public_rpc : PublicRpc → CallerAuth → Text → Json → Authorized
  authorize_public_rpc decl auth app_id params = authorize_scope decl.scope auth app_id params

  -- The token's context and the parameters have the key, with the same value.
  pub record Agrees (context params : Json) (key : Text) : Type 0 where
    pub expected : Json
    pub actual : Json
    pub in_context : get context key ≡ some expected
    pub in_params : get params key ≡ some actual
    pub equal : same expected actual ≡ true

  -- When a call of the public surface may go on, told from the declaration alone.
  pub data Allowed (app_id : Text) (params : Json) : List Text → CallerAuth → Type 0 where
    open_user : Allowed app_id params [] user
    open_anonymous : Allowed app_id params [] anonymous
    holder :
        {scope : List Text} (share : ResolvedShare)
        → share.app_id ≡ app_id
        → All (Agrees share.context params) scope
        → Allowed app_id params scope (share_token share)

  agree_sound :
      (context params : Json) (key : Text)
      → agree (get context key) (get params key) ≡ true
      → Agrees context params key
  agree_sound context params key h = elim (Option-cases (get context key)) [
    | inl missing ↦ cc (rw (missing, agree) at h)
    | inr (expected, in_context) ↦ elim (Option-cases (get params key)) [
      | inl missing ↦ cc (rw (in_context, missing, agree) at h)
      | inr (actual, in_params) ↦ record {
        expected = expected;
        actual = actual;
        in_context = in_context;
        in_params = in_params;
        equal = rw (in_context, in_params, agree) at h;
      }
    ]
  ]

  agree_complete :
      (context params : Json) (key : Text)
      → Agrees context params key
      → agree (get context key) (get params key) ≡ true
  agree_complete context params key a = rw (a.in_context, a.in_params, agree) a.equal

  match_scope_sound :
      (keys : List Text) (context params : Json)
      → match_scope keys context params ≡ ok
      → All (Agrees context params) keys
  unfolding match_scope
  match_scope_sound [] context params h = tt
  match_scope_sound (key ∷ keys) context params h =
      elim (Bool-cases (agree (get context key) (get params key))) [
        | inl t ↦
            (agree_sound context params key t, match_scope_sound keys context params (ground arith))
        | inr f ↦ ground arith
      ]

  match_scope_complete :
      (keys : List Text) (context params : Json)
      → All (Agrees context params) keys
      → match_scope keys context params ≡ ok
  unfolding match_scope
  match_scope_complete [] context params h = refl
  match_scope_complete (key ∷ keys) context params h =
      let t = agree_complete context params key h.0 in
      let rest = match_scope_complete keys context params h.1 in ground arith

  scoped_sound :
      (scope : List Text) (auth : CallerAuth) (app_id : Text) (params : Json)
      → scoped scope auth app_id params ≡ ok
      → Allowed app_id params scope auth
  scoped_sound scope (share_token share) app_id params h =
      elim (Bool-cases (text_eq share.app_id app_id)) [
        | inl t ↦
            holder share (text_eq_sound share.app_id app_id t)
              (match_scope_sound scope share.context params (rw t at h))
        | inr f ↦ cc (rw f at h)
      ]
  scoped_sound scope _ app_id params h = cc

  scoped_complete :
      (scope : List Text) (share : ResolvedShare) (app_id : Text) (params : Json)
      → share.app_id ≡ app_id
      → All (Agrees share.context params) scope
      → scoped scope (share_token share) app_id params ≡ ok
  scoped_complete scope share app_id params e h =
      let own : text_eq share.app_id app_id ≡ true = rw e (text_eq_refl app_id) in
      rw own (match_scope_complete scope share.context params h)

  authorize_sound :
      (scope : List Text) (auth : CallerAuth) (app_id : Text) (params : Json)
      → authorize_scope scope auth app_id params ≡ ok
      → Allowed app_id params scope auth
  unfolding authorize_scope
  authorize_sound [] user app_id params h = open_user
  authorize_sound [] anonymous app_id params h = open_anonymous
  authorize_sound [] (share_token share) app_id params h =
      elim (Bool-cases (text_eq share.app_id app_id)) [
        | inl t ↦ holder share (text_eq_sound share.app_id app_id t) tt
        | inr f ↦ cc (rw f at h)
      ]
  authorize_sound (key ∷ keys) auth app_id params h = scoped_sound (key ∷ keys) auth app_id params h

  authorize_complete :
      (scope : List Text) (auth : CallerAuth) (app_id : Text) (params : Json)
      → Allowed app_id params scope auth
      → authorize_scope scope auth app_id params ≡ ok
  unfolding authorize_scope
  authorize_complete [] user app_id params open_user = refl
  authorize_complete [] anonymous app_id params open_anonymous = refl
  authorize_complete [] (share_token share) app_id params (holder _ e h) =
      let own : text_eq share.app_id app_id ≡ true = rw e (text_eq_refl app_id) in rw own refl
  authorize_complete (key ∷ keys) (share_token share) app_id params (holder _ e h) =
      scoped_complete (key ∷ keys) share app_id params e h
  authorize_complete (key ∷ keys) user app_id params h = elim h [ ]
  authorize_complete (key ∷ keys) anonymous app_id params h = elim h [ ]

  -- A public call is let through exactly when the declaration has no scope and the caller is a user or
  -- anonymous, or the caller has a share token of this app whose context has, for every key of the
  -- scope, the value that the parameters have.
  pub authorize_public_rpc_iff :
      (decl : PublicRpc) (auth : CallerAuth) (app_id : Text) (params : Json)
      → (authorize_public_rpc decl auth app_id params ≡ ok) ↔ Allowed app_id params decl.scope auth
  authorize_public_rpc_iff decl auth app_id params = (
    authorize_sound decl.scope auth app_id params,
    authorize_complete decl.scope auth app_id params,
  )
