-- ===== src/Server/Routes/Soundness.antt =====
-- What a run of requests leaves in the database.
use tecora_be.Prelude.{List, [], ◌∷◌}
use tecora_be.Db.{Db}
use tecora_be.Http.{Response}
use tecora_be.Gin.{Context, Outcome, abort, next}
use tecora_be.Middleware.Auth.{clerk_auth, clerk_admin_allowlist}
use tecora_be.Users.Context.{require_org_access}
use tecora_be.Users.Context.Access.{require_org_access-tables}
use tecora_be.Acceptances.Service.{Service, World}
use tecora_be.Acceptances.Service.Submit.{Any, submit_keeps}
use tecora_be.WorkOrders.Repository.Invariant as WorkOrders
use tecora_be.WorkOrders.Repository.Frame as WorkOrderFrame
use tecora_be.Server.Invariant.{IsSound, work_orders_sound, same_sound}
use tecora_be.Server.Routes.{App, Route, Payload, before, serve, serve_all}
use tecora_be.Server.Routes.Rules.{
  HoldsHere, organization_rule, user_rule, acceptance_rule, organizations_keep, users_keep,
}
use tecora_be.Server.Routes.Members.{IsKept, member_keeps}

-- The two calls of the routes for members keep the tables sound.
sound_calls : (s : Service) (c : Context) (w : World) → HoldsHere w → IsKept IsSound s c w
sound_calls s c w h = record {
  before = h;
  orders = λ org input here.
      work_orders_sound w.db.tables _ h
        (WorkOrderFrame.create-WorkOrdersOnly w.db (record input { organization_id = org.id }))
        (WorkOrders.create-IsValid (record input { organization_id = org.id }) w.db h.work_orders);
  submits = λ org x here. submit_keeps s Any HoldsHere (acceptance_rule s) org.id x w tt h;
}

before_keeps :
    (o : Outcome × Db) (w : World) (handler : Context → World → Response Payload × World)
    → IsSound o.1.tables
    → ((c : Context) (w' : World) → HoldsHere w' → HoldsHere (handler c w').1)
    → HoldsHere (before o w handler).1
before_keeps (abort n message, db) w handler h keep = h
before_keeps (next c, db) w handler h keep = keep c (record w { db = db }) h

pub serve-IsSound :
    (app : App) (c : Context) (r : Route) (w : World) → HoldsHere w → HoldsHere (serve app c r w).1
unfolding serve
serve-IsSound app c Route.private_me w h =
    before_keeps (clerk_auth app.verifier c, w.db) w _ h (λ _ _ k. k)
serve-IsSound app c (Route.organizations r) w h =
    before_keeps (clerk_auth app.verifier c, w.db) w _ h
      (λ c' w' k.
        before_keeps (clerk_admin_allowlist app.admin_clerk_user_ids c', w'.db) w' _ k
          (λ _ w'' k'. organizations_keep IsSound organization_rule app.fold r w'' k'))
serve-IsSound app c (Route.users r) w h =
    before_keeps (clerk_auth app.verifier c, w.db) w _ h
      (λ c' w' k.
        before_keeps (clerk_admin_allowlist app.admin_clerk_user_ids c', w'.db) w' _ k
          (λ _ w'' k'. users_keep IsSound user_rule app.fold r w'' k'))
serve-IsSound app c (Route.member r) w h =
    before_keeps (clerk_auth app.verifier c, w.db) w _ h
      (λ c' w' k.
        before_keeps (require_org_access app.fold c' w'.db) w' _
          (same_sound w'.db.tables _ (require_org_access-tables app.fold c' w'.db) k)
          (λ c'' w'' k'.
            member_keeps IsSound app.service c'' w'' (sound_calls app.service c'' w'' k') r))

-- Whatever requests reach the routes, and whatever becomes of their statements and calls, the tables
-- stay sound: unique keys, slugs, Clerk ids and work orders, valid slugs and names, columns that fit
-- the status of each document, and no row of an organization that does not exist.
pub serve_all-IsSound :
    (app : App) (rs : List (Context × Route)) (w : World)
    → IsSound w.db.tables
    → IsSound (serve_all app rs w).db.tables
unfolding serve_all
serve_all-IsSound app [] w h = h
serve_all-IsSound app ((c, r) ∷ rs) w h =
    serve_all-IsSound app rs (serve app c r w).1 (serve-IsSound app c r w h)
