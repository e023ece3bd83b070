-- ===== src/Server/Routes.antt =====
-- The routes that `Run` of internal/server/server.go registers, each with the middlewares of its group.
-- gin has matched the path; a route carries its parameters and its body.
pub mod Guarded
pub mod Rules
pub mod Members
pub mod Soundness
pub mod Login
pub mod Isolation
pub mod Shown
use tecora_be.Prelude.{ℕ, Bool, true, false, List, [], ◌∷◌, Option, none, some, String}
use tecora_be.Text.{Text}
use tecora_be.Http.{Body, json, error, no_body, Response, reply, reply_error, reply_status}
use tecora_be.Db.{AcceptanceRow, WorkOrderRow, Db}
use tecora_be.Gin.{Claims, Context, Outcome, abort, next}
use tecora_be.Middleware.Auth.{TokenVerifier, clerk_auth, clerk_admin_allowlist, current_claims}
use tecora_be.Organizations.Model.{Organization}
use tecora_be.Organizations.Handler as OrganizationHandler
use tecora_be.Organizations.Handler.Requests as OrganizationRequests
use tecora_be.Users.Model.{User}
use tecora_be.Users.Context.{require_org_access}
use tecora_be.Users.Handler as UserHandler
use tecora_be.Users.Handler.{Profile}
use tecora_be.Users.Handler.Requests as UserRequests
use tecora_be.Acceptances.Model.{Submission, AcceptedResponse, StatusResponse}
use tecora_be.Acceptances.Service.{Service, World}
use tecora_be.Acceptances.Handler as AcceptanceHandler
use tecora_be.Acceptances.Handler.{Origin, Inline}
use tecora_be.WorkOrders.Model.{CreateRequest}
use tecora_be.WorkOrders.Handler as WorkOrderHandler

-- The parts of `Run` that the routes share.
pub record App : Type 0 where
  pub verifier : Option TokenVerifier
  pub admin_clerk_user_ids : List Text
  pub service : Service
  pub fold : ℕ → ℕ

-- The group `/org`, and the routes of `securedAPI`.
pub data MemberRoute : Type 0 where
  me : MemberRoute
  create_work_order : Option CreateRequest → MemberRoute
  list_work_orders : MemberRoute
  get_work_order : Text → MemberRoute
  submit : Text → Option Submission → MemberRoute
  get_status : Origin → Text → MemberRoute
  get_pdf : Text → MemberRoute

pub data Route : Type 0 where
  private_me : Route
  organizations : OrganizationRequests.Request → Route
  users : UserRequests.Request → Route
  member : MemberRoute → Route

-- The bodies of the answers.
pub data Payload : Type 0 where
  claims : Option Claims → Payload
  organization : Organization → Payload
  organization_list : List Organization → Payload
  user : User → Payload
  user_list : List User → Payload
  profile : Profile → Payload
  work_order : WorkOrderRow → Payload
  work_order_list : List WorkOrderRow → Payload
  accepted : AcceptedResponse → Payload
  status : StatusResponse → Payload
  document : Inline → Payload
  nothing : Payload

abbrev Answer : Type 0
Answer = Response Payload × World

abbrev pub wrap_body : {A : Type 0} → (A → Payload) → Body A → Body Payload
wrap_body f (json a) = json (f a)
wrap_body f (error message) = error message
wrap_body f no_body = no_body

abbrev pub wrap : {A : Type 0} → (A → Payload) → Response A → Response Payload
wrap f r = record { status = r.status; body = wrap_body f r.body }

-- A handler that uses the database alone, one that uses the bucket too, and one that uses neither.
abbrev pub on_db : {A : Type 0} → (A → Payload) → World → Response A × Db → Answer
on_db f w (r, db) = (wrap f r, record w { db = db })

abbrev pub on_world : {A : Type 0} → (A → Payload) → Response A × World → Answer
on_world f (r, w) = (wrap f r, w)

-- A middleware before the rest of its chain.
abbrev pub before : Outcome × Db → World → (Context → World → Answer) → Answer
before (abort code message, db) w handler = (reply_error code message, record w { db = db })
before (next c, db) w handler = handler c (record w { db = db })

unfoldable pub run_organizations : (ℕ → ℕ) → OrganizationRequests.Request → World → Answer
run_organizations fold OrganizationRequests.list w =
    on_db organization_list w (OrganizationHandler.list w.db)
run_organizations fold (OrganizationRequests.get slug) w =
    on_db organization w (OrganizationHandler.get fold slug w.db)
run_organizations fold (OrganizationRequests.create body) w =
    on_db organization w (OrganizationHandler.create fold body w.db)
run_organizations fold (OrganizationRequests.update slug body) w =
    on_db organization w (OrganizationHandler.update fold slug body w.db)
run_organizations fold (OrganizationRequests.delete slug) w =
    on_db (λ _. nothing) w (OrganizationHandler.delete fold slug w.db)

unfoldable pub run_users : (ℕ → ℕ) → UserRequests.Request → World → Answer
run_users fold UserRequests.list w = on_db user_list w (UserHandler.list w.db)
run_users fold (UserRequests.get param) w = on_db user w (UserHandler.get param w.db)
run_users fold (UserRequests.create body) w = on_db user w (UserHandler.create fold body w.db)
run_users fold (UserRequests.update param body) w =
    on_db user w (UserHandler.update fold param body w.db)
run_users fold (UserRequests.delete param) w =
    on_db (λ _. nothing) w (UserHandler.delete param w.db)

unfoldable pub run_member : Service → MemberRoute → Context → World → Answer
run_member s me c w = (wrap profile (UserHandler.me c), w)
run_member s (create_work_order body) c w = on_db work_order w (WorkOrderHandler.create c body w.db)
run_member s list_work_orders c w = on_db work_order_list w (WorkOrderHandler.list c w.db)
run_member s (get_work_order param) c w = on_db work_order w (WorkOrderHandler.get c param w.db)
run_member s (submit param body) c w = on_world accepted (AcceptanceHandler.submit s c param body w)
run_member s (get_status origin param) c w =
    on_world status (AcceptanceHandler.get_status origin c param w)
run_member s (get_pdf param) c w = on_world document (AcceptanceHandler.get_pdf c param w)

-- `admin.Use(ClerkAuth, ClerkAdminAllowlist)`
abbrev pub as_admin : App → Context → World → (World → Answer) → Answer
as_admin app c w handler =
    before (clerk_auth app.verifier c, w.db) w
      (λ c' w'.
        before (clerk_admin_allowlist app.admin_clerk_user_ids c', w'.db) w' (λ _ w''. handler w''))

-- `Use(ClerkAuth, RequireOrgAccess)`
abbrev pub as_member : App → Context → World → (Context → World → Answer) → Answer
as_member app c w handler =
    before (clerk_auth app.verifier c, w.db) w
      (λ c' w'. before (require_org_access app.fold c' w'.db) w' handler)

unfoldable pub serve : App → Context → Route → World → Answer
unfolding run_organizations run_users run_member clerk_auth clerk_admin_allowlist require_org_access
    current_claims
serve app c private_me w =
    before (clerk_auth app.verifier c, w.db) w
      (λ c' w'. (reply 200 (claims (current_claims c')), w'))
serve app c (organizations r) w = as_admin app c w (run_organizations app.fold r)
serve app c (users r) w = as_admin app c w (run_users app.fold r)
serve app c (member r) w = as_member app c w (run_member app.service r)

-- A run of requests, each with its context; the world that they leave.
unfoldable pub serve_all : App → List (Context × Route) → World → World
unfolding serve
serve_all app [] w = w
serve_all app ((c, r) ∷ rs) w = serve_all app rs (serve app c r w).1
