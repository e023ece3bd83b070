-- ===== src/Server/Routes/Guarded.antt =====
-- Who reaches the handlers behind the middlewares of internal/server/server.go.
use tecora_be.Prelude.{ℕ, ◌≡◌, refl, ap, ◌∙◌, ◌⊎◌, inl, inr, some, arith, String}
use tecora_be.Http.{Response, reply_error}
use tecora_be.Db.{Tables, Db}
use tecora_be.Gin.{Claims, Context, Outcome, abort, next}
use tecora_be.Middleware.Auth.{clerk_auth, clerk_admin_allowlist, current_claims}
use tecora_be.Middleware.Auth.Guards.{
  IsVerified, with_claims, IsListed, clerk_auth_iff, clerk_admin_allowlist_iff, current_claims-set,
}
use tecora_be.Users.Model.{User}
use tecora_be.Users.Context.{require_org_access}
use tecora_be.Users.Context.Access.{
  IsAdmitted, admitted, require_org_access-IsAdmitted, require_org_access-tables,
  require_org_access-server,
}
use tecora_be.Organizations.Handler.Requests as OrganizationRequests
use tecora_be.Users.Handler.Requests as UserRequests
use tecora_be.Acceptances.Service.{World}
use tecora_be.Server.Routes.{
  App, Route, MemberRoute, Payload, before, as_admin, run_organizations, run_users, run_member,
  serve,
}

-- The request is refused: an error goes out, the tables and the bucket are as before.
pub record IsRefused (w : World) (a : Response Payload × World) : Type 0 where
  pub status : ℕ
  pub message : String
  pub answer : a.0 ≡ reply_error status message
  pub tables : a.1.db.tables ≡ w.db.tables
  pub bucket : a.1.bucket ≡ w.bucket

-- A middleware either refuses the request or hands a context to the rest of the chain.
pub before-IsRefused :
    (o : Outcome × Db) (w : World) (handler : Context → World → Response Payload × World)
    → o.1.tables ≡ w.db.tables
    → IsRefused w (before o w handler)
      ⊎ ((c : Context) × (o.0 ≡ next c) × (before o w handler ≡ handler c (record w { db = o.1 })))
before-IsRefused (abort n message, db) w handler same =
    inl (record { status = n; message = message; answer = refl; tables = same; bucket = refl })
before-IsRefused (next c, db) w handler same = inr (c, refl, refl)

-- The claims of the token that the request bears are verified, and their subject is an administrator.
pub record IsAdmin (app : App) (c : Context) (cl : Claims) : Type 0 where
  pub verified : IsVerified app.verifier c cl
  pub listed : IsListed app.admin_clerk_user_ids cl.subject

as_admin-IsAdmin :
    (app : App) (c : Context) (w : World) (handler : World → Response Payload × World)
    → IsRefused w (as_admin app c w handler)
      ⊎ ((cl : Claims) × IsAdmin app c cl × (as_admin app c w handler ≡ handler w))
as_admin-IsAdmin app c w handler =
    let inner = λ (c' : Context) (w' : World).
      before (clerk_admin_allowlist app.admin_clerk_user_ids c', w'.db) w' (λ _ w''. handler w'') in
    elim (before-IsRefused (clerk_auth app.verifier c, w.db) w inner refl) [
      | inl refused ↦ inl refused
      | inr (c', through, run) ↦
          let (cl, verified, after) = (clerk_auth_iff app.verifier c c').0 through in
          elim (before-IsRefused (clerk_admin_allowlist app.admin_clerk_user_ids c', w.db) w
            (λ _ w''. handler w'') refl) [
              | inl refused ↦ inl (rw run refused)
              | inr (c'', passed, ran) ↦
                  let (same, (cl', held, listed)) =
                    (clerk_admin_allowlist_iff app.admin_clerk_user_ids c' c'').0 passed in
                  let claimed : current_claims c' ≡ some cl = rw after (current_claims-set c cl) in
                  let equal : cl' ≡ cl = ground (arith) in
                  inr (cl, record { verified = verified; listed = rw (← equal) listed }, run ∙ ran)
            ]
    ]

-- A request to an admin route is refused with nothing changed, or it bears a verified token of an
-- administrator, and then its answer is that of the handler.
pub serve-IsAdmin :
    (app : App) (c : Context) (w : World) (r : OrganizationRequests.Request)
    (q : UserRequests.Request)
    → (IsRefused w (serve app c (Route.organizations r) w)
        ⊎ ((cl : Claims) × IsAdmin app c cl
            × (serve app c (Route.organizations r) w ≡ run_organizations app.fold r w)))
      × (IsRefused w (serve app c (Route.users q) w)
          ⊎ ((cl : Claims) × IsAdmin app c cl
              × (serve app c (Route.users q) w ≡ run_users app.fold q w)))
unfolding serve
serve-IsAdmin app c w r q = (
  as_admin-IsAdmin app c w (run_organizations app.fold r),
  as_admin-IsAdmin app c w (run_users app.fold q),
)

-- The claims of the token that the request bears are verified, and they admit this user.
pub record IsMemberRequest (app : App) (c : Context) (t : Tables) (cl : Claims) (user : User)
    : Type 0 where
  pub verified : IsVerified app.verifier c cl
  pub admitted : IsAdmitted app.fold (with_claims cl c) t cl user

-- A request to a route for members is refused with nothing changed, or it bears a verified token
-- whose subject is a live user of an organization that is not deleted; the handler then runs with that
-- user and that organization, on the tables and the bucket as they were.
pub serve-IsMemberRequest :
    (app : App) (c : Context) (w : World) (r : MemberRoute)
    → IsRefused w (serve app c (Route.member r) w)
      ⊎ ((cl : Claims) × (user : User) × (w' : World) × IsMemberRequest app c w.db.tables cl user
          × (w'.db.tables ≡ w.db.tables)
          × (w'.db.server ≡ w.db.server)
          × (w'.bucket ≡ w.bucket)
          × (serve app c (Route.member r) w
              ≡ run_member app.service r (admitted user (with_claims cl c)) w'))
unfolding serve
serve-IsMemberRequest app c w r =
    let handler = run_member app.service r in
    let inner =
      λ (c' : Context) (w' : World). before (require_org_access app.fold c' w'.db) w' handler in
    elim (before-IsRefused (clerk_auth app.verifier c, w.db) w inner refl) [
      | inl refused ↦ inl refused
      | inr (c', through, run) ↦
          let (cl, verified, after) = (clerk_auth_iff app.verifier c c').0 through in
          let reads = require_org_access-tables app.fold c' w.db in
          elim (before-IsRefused (require_org_access app.fold c' w.db) w handler reads) [
            | inl refused ↦ inl (rw run refused)
            | inr (c'', passed, ran) ↦
                let (cl', user, facts, then) =
                  require_org_access-IsAdmitted app.fold c' c'' w.db passed in
                let claimed : current_claims c' ≡ some cl = rw after (current_claims-set c cl) in
                let held = facts.claimed in
                let equal : cl' ≡ cl = ground (arith) in
                inr (
                  cl,
                  user,
                  record w { db = (require_org_access app.fold c' w.db).1 },
                  record { verified = verified; admitted = rw (← after, ← equal) facts },
                  reads,
                  require_org_access-server app.fold c' w.db,
                  refl,
                  run
                      ∙ ran
                      ∙ ap
                          (λ x.
                            handler x (record w { db = (require_org_access app.fold c' w.db).1 }))
                          (then ∙ ap (admitted user) after),
                )
          ]
    ]
