-- ===== src/Server/Tests.antt =====
-- Runs of the server, and the theorems about its routes at concrete inputs.
use tecora_be.Prelude.{false, arith, none, sym, ap, ◌∙◌, ◌≡◌, refl, ◌⊎◌, List, [], ◌∷◌, some}
use tecora_be.Http.{reply}
use tecora_be.Db.Table.{select_first, select_all, order_by}
use tecora_be.Users.Context.{current_organization}
use tecora_be.WorkOrders.Handler as WorkOrderHandler
use tecora_be.WorkOrders.Repository.{list_active_by_organization_id}
use tecora_be.Db.{WorkOrderRow}
use tecora_be.Text.{Text, codes, text_eq, trim_space}
use tecora_be.Text.Trim.{trim_space_idempotent}
use tecora_be.Gin.{Claims, Context}
use tecora_be.Middleware.Auth.Guards.{IsVerified, with_claims}
use tecora_be.Organizations.Slug.{validate_slug, validate_name}
use tecora_be.Organizations.Handler.Requests as OrganizationRequests
use tecora_be.Users.Model.{User}
use tecora_be.Users.Context.Access.{admitted}
use tecora_be.Users.Handler.Requests as UserRequests
use tecora_be.Acceptances.Service.{World}
use tecora_be.Server.Invariant.{IsSound}
use tecora_be.Server.Routes.{
  App, Route, MemberRoute, Payload, run_organizations, run_users, run_member, serve, serve_all,
}
use tecora_be.Server.Routes.Guarded.{
  IsRefused, IsAdmin, serve-IsAdmin, IsMemberRequest, serve-IsMemberRequest,
}
use tecora_be.Clerk.Jwks.{Readings}
use tecora_be.Clerk.Keys.{run}
use tecora_be.Clerk.Verifier.{token_verifier}
use tecora_be.Server.Routes.Soundness.{serve_all-IsSound}
use tecora_be.Acceptances.Service.Tenant.{IsCanonical}
use tecora_be.Server.Routes.Shown.{route_of, list_work_orders, Shows, serve-Shows}
use tecora_be.Server.Routes.Isolation.{key_of, IsContained, serve-IsContained}
use tecora_be.Server.Entry.{Target, handle}
use tecora_be.Server.Entry.Public.{IsHarmless, handle-IsHarmless}
use tecora_be.Samples.{
  tables, db, server, plain_fold, verifier, context, service, world, form, clerk_config,
  clerk_codec, readings,
}

abbrev app : App
app = record {
  verifier = some verifier;
  admin_clerk_user_ids = codes "user_ann" ∷ [];
  service = service;
  fold = plain_fold;
}

abbrev requests : List (Context × Route)
requests =
    (
      context,
      Route.organizations (
          OrganizationRequests.create
            (some (record { slug = codes "New"; name = codes "New one" }))),
    )
    ∷ (context, Route.users (UserRequests.delete (codes "user_bob")))
    ∷ (context, Route.member (MemberRoute.submit (codes "WO-1") (some form)))
    ∷ (context, Route.organizations (OrganizationRequests.delete (codes "demo-alpha")))
    ∷ (context, Route.member MemberRoute.list_work_orders)
    ∷ []

sound : IsSound world.db.tables
unfolding text_eq validate_slug validate_name
sound = record {
  organizations = record {
    ids = (refl, (refl, tt));
    slugs = (refl, (refl, tt));
    named = ((refl, refl), ((refl, refl), tt));
  };
  users = record { ids = (refl, tt); clerk_ids = (refl, tt); members = (refl, tt) };
  acceptances = record { ids = tt; orders = tt; coherent = tt };
  work_orders = record { ids = tt; orders = tt; owned = tt };
}

serve_all-IsSound_example : IsSound (serve_all app requests world).db.tables
serve_all-IsSound_example = serve_all-IsSound app requests world sound

serve-IsAdmin_example :
    (IsRefused world (serve app context (Route.organizations OrganizationRequests.list) world)
      ⊎ ((cl : Claims) × IsAdmin app context cl
          × (serve app context (Route.organizations OrganizationRequests.list) world
              ≡ run_organizations plain_fold OrganizationRequests.list world)))
    × (IsRefused world (serve app context (Route.users UserRequests.list) world)
        ⊎ ((cl : Claims) × IsAdmin app context cl
            × (serve app context (Route.users UserRequests.list) world
                ≡ run_users plain_fold UserRequests.list world)))
serve-IsAdmin_example = serve-IsAdmin app context world OrganizationRequests.list UserRequests.list

serve-IsMemberRequest_example :
    IsRefused world (serve app context (Route.member MemberRoute.me) world)
    ⊎ ((cl : Claims) × (user : User) × (w' : World) × IsMemberRequest app context world.db.tables cl
          user
        × (w'.db.tables ≡ world.db.tables)
        × (w'.db.server ≡ world.db.server)
        × (w'.bucket ≡ world.bucket)
        × (serve app context (Route.member MemberRoute.me) world
            ≡ run_member service MemberRoute.me (admitted user (with_claims cl context)) w'))
serve-IsMemberRequest_example = serve-IsMemberRequest app context world MemberRoute.me

-- An earlier call of the verifier.
abbrev earlier_calls : List (Readings × Text)
earlier_calls = (readings, codes "h.p.s") ∷ []

abbrev app_behind_clerk : App
app_behind_clerk = record app {
  verifier = some (
      token_verifier clerk_codec clerk_config readings
        (run clerk_codec clerk_config earlier_calls));
}

-- A server that reads every text as a UUID, without the blanks around it.
abbrev strict_world : World
strict_world = record world {
  db = record db { server = record server { parse_uuid = λ s. some (trim_space s) } };
}

strict : IsCanonical strict_world.db.server
strict s k read =
    let same : trim_space s ≡ k = ground (arith) in
    ap some
      (trim_space_idempotent k ∙ (ap trim_space (sym same) ∙ (trim_space_idempotent s ∙ same)))

serve-IsContained_example :
    IsContained app context strict_world
      (serve app context
        (Route.member (MemberRoute.submit (codes "WO-1") (some form)))
        strict_world).1
serve-IsContained_example =
    serve-IsContained app context (Route.member (MemberRoute.submit (codes "WO-1") (some form)))
      strict_world strict

-- A work order of the caller's organization, and one of another.
abbrev boiler : WorkOrderRow
boiler = record {
  id = codes "w1";
  organization_id = codes "o1";
  work_order_id = codes "WO-7";
  customer_name = codes "Ann";
  customer_email = none;
  customer_phone = none;
  customer_address = codes "Main St 1";
  job_date = record { year = 2024; month = 5; day = 6 };
  status = none;
  created_at = 4;
  updated_at = 4;
  deleted_at = none;
}

abbrev other_boiler : WorkOrderRow
other_boiler = record boiler { id = codes "w2"; organization_id = codes "o2" }

abbrev busy_world : World
busy_world = record world {
  db = record db { tables = record tables { work_orders = boiler ∷ other_boiler ∷ [] } };
}

abbrev shown : Payload
shown = Payload.work_order_list (boiler ∷ [])

lists :
    (serve app context (Route.member (route_of list_work_orders)) busy_world).0 ≡ reply 200 shown
unfolding serve text_eq trim_space select_first WorkOrderHandler.list current_organization
    list_active_by_organization_id order_by select_all
lists = refl

serve-Shows_example :
    (cl : Claims) × (user : User) × (key : Text) × IsMemberRequest app context busy_world.db.tables
      cl user
    × (key_of busy_world user ≡ some key)
    × Shows busy_world key list_work_orders shown
serve-Shows_example = serve-Shows app context list_work_orders busy_world shown lists

handle-IsHarmless_example :
    IsHarmless world
      (handle [] app context (Target.route Route.private_me) world).1
      (handle [] app context (Target.route Route.private_me) world).2
    ⊎ ((context.request.is_options ≡ false) × ((cl : Claims) × IsVerified app.verifier context cl))
handle-IsHarmless_example = handle-IsHarmless [] app context (Target.route Route.private_me) world
