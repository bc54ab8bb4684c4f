-- ===== src/Admin/Auth.antt =====
-- admin/server.go: what `auth` lets through.
use ztna_lab_appliance.Common.{
  true, false, [], ◌∷◌, ◌++◌, none, some, Text, text, text_eq_iff, text_eq_refl, strip_prefix?,
  has_prefix, trim_prefix, ◌≡◌, ◌≢◌, ◌↔◌, ◌⊎◌, inl, inr, refl, arith, Bool-cases, Option-cases,
}
use ztna_lab_appliance.Admin.{
  Plane, Request, Outside, Error, error, authorized, handle_index, handle_health,
}
use ztna_lab_appliance.Admin.Handlers.{Route, route_of, is_open, handler, serve}

strip_prefix?_sound : (p s rest : Text) → strip_prefix? p s ≡ some rest → s ≡ p ++ rest
unfolding strip_prefix?
strip_prefix?_sound [] s rest h = ground arith
strip_prefix?_sound (c ∷ p) [] rest h = ground arith
strip_prefix?_sound (c ∷ p) (d ∷ s) rest h = ground (arith, strip_prefix?_sound p s rest)

strip_prefix?-append : (p rest : Text) → strip_prefix? p (p ++ rest) ≡ some rest
unfolding strip_prefix?
strip_prefix?-append [] rest = refl
strip_prefix?-append (c ∷ p) rest = ground (arith, strip_prefix?-append p rest)

-- A header passes exactly if the API is open, for an empty token, or the header is "Bearer ", one
-- space included, and the token.
pub authorized_iff :
    (token h : Text) → (authorized token h ≡ true) ↔ ((token ≡ []) ⊎ (h ≡ text "Bearer " ++ token))
unfolding authorized has_prefix trim_prefix
authorized_iff token h =
    (passes token (Option-cases (strip_prefix? (text "Bearer ") h)), holds token)
  where
    passes :
        (token : Text)
        → (strip_prefix? (text "Bearer ") h ≡ none)
          ⊎ ((rest : Text) × (strip_prefix? (text "Bearer ") h ≡ some rest))
        → authorized token h ≡ true
        → (token ≡ []) ⊎ (h ≡ text "Bearer " ++ token)
    passes [] split pass = inl refl
    passes (c ∷ token) (inl missing) pass = ground arith
    passes (c ∷ token) (inr (rest, e)) pass = inr (
        strip_prefix?_sound (text "Bearer ") h (c ∷ token)
          (ground (arith, text_eq_iff rest (c ∷ token))))

    holds :
        (token : Text) → (token ≡ []) ⊎ (h ≡ text "Bearer " ++ token) → authorized token h ≡ true
    holds [] why = refl
    holds (c ∷ token) (inl e) = ground arith
    holds (c ∷ token) (inr e) =
        ground
          (arith, e, strip_prefix?-append (text "Bearer ") (c ∷ token), text_eq_refl (c ∷ token))

route-cases :
    (route : Route) → (is_open route ≡ false) ⊎ (route ≡ Route.health) ⊎ (route ≡ Route.index)
route-cases Route.index = inr (inr refl)
route-cases Route.health = inr (inl refl)
route-cases Route.status = inl refl
route-cases Route.dns_start = inl refl
route-cases Route.dns_stop = inl refl
route-cases Route.records = inl refl
route-cases Route.one_record = inl refl
route-cases Route.http_start = inl refl
route-cases Route.http_stop = inl refl
route-cases Route.ssh_start = inl refl
route-cases Route.ssh_stop = inl refl
route-cases Route.ssh_sessions = inl refl
route-cases Route.ssh_debug = inl refl
route-cases Route.log_tail = inl refl
route-cases Route.log_modules = inl refl
route-cases Route.latency = inl refl

denied : (token h : Text) → token ≢ [] → h ≢ text "Bearer " ++ token → authorized token h ≡ false
denied token h closed other = elim (Bool-cases (authorized token h)) [
  | inl pass ↦ elim ((authorized_iff token h).0 pass) [
    | inl e ↦ absurd (closed e)
    | inr e ↦ absurd (other e)
  ]
  | inr refused ↦ refused
]

-- With a token that is not empty, a request with any other header than "Bearer " and the token
-- changes nothing, whatever its path: it gets status 401 on every pattern that is registered with
-- `auth`, and on the other two, health and "/", what these serve to everybody.
pub serve-unauthorized :
    (token : Text) (o : Outside) (r : Request) (p : Plane)
    → token ≢ []
    → r.authorization ≢ text "Bearer " ++ token
    → ((is_open (route_of r.path) ≡ false)
        × (serve token o r p ≡ some (error 401 Error.unauthorized, p)))
      ⊎ ((route_of r.path ≡ Route.health) × (serve token o r p ≡ some (handle_health, p)))
      ⊎ ((route_of r.path ≡ Route.index) × (serve token o r p ≡ some (handle_index r, p)))
unfolding serve handler
serve-unauthorized token o r p closed other =
    let refused = denied token r.authorization closed other in
    elim (route-cases (route_of r.path)) [
      | inl gated ↦ inl (gated, rw (gated, refused) refl)
      | inr (inl e) ↦ inr (inl (e, rw e refl))
      | inr (inr e) ↦ inr (inr (e, rw e refl))
    ]
