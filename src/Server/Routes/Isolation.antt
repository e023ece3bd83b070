-- ===== src/Server/Routes/Isolation.antt =====
-- What a request to the routes of internal/server/server.go can change, and who can change it.
use tecora_be.Prelude.{◌≡◌, refl, ap, ◌∙◌, inl, inr, Option, arith}
use tecora_be.Text.{Text, trim_space}
use tecora_be.Http.{reply}
use tecora_be.Db.{Tables, Server}
use tecora_be.Db.Frame.{OrganizationsOnly, UsersOnly}
use tecora_be.Db.Tenant.{OwnRows, OwnRows-eq}
use tecora_be.Gin.{Claims, Context}
use tecora_be.Middleware.Auth.{clerk_auth, current_claims}
use tecora_be.Middleware.Auth.Guards.{with_claims}
use tecora_be.Organizations.Handler.Requests as OrganizationRequests
use tecora_be.Organizations.Repository.Frame as OrganizationFrame
use tecora_be.Users.Handler.Requests as UserRequests
use tecora_be.Users.Repository.Frame as UserFrame
use tecora_be.Users.Model.{User}
use tecora_be.Users.Context.Access.{admitted, admitted_lookups}
use tecora_be.Acceptances.Service.{Service, World}
use tecora_be.Acceptances.Service.Tenant.{IsCanonical, submit-OwnRows}
use tecora_be.WorkOrders.Repository.Tenant.{create-OwnRows}
use tecora_be.Server.Routes.{App, Route, Payload, serve}
use tecora_be.Server.Routes.Guarded.{
  IsRefused, before-IsRefused, IsAdmin, serve-IsAdmin, IsMemberRequest, serve-IsMemberRequest,
}
use tecora_be.Server.Routes.Rules.{
  run_organizations-db, run_users-db, organizations_keep, users_keep,
}
use tecora_be.Server.Routes.Members.{IsKept, member_keeps}

-- Administrators change organizations and users only.
pub record AdminRows (t t' : Tables) : Type 0 where
  pub customers : t'.customers ≡ t.customers
  pub acceptances : t'.acceptances ≡ t.acceptances
  pub work_orders : t'.work_orders ≡ t.work_orders

AdminRows-refl : (t : Tables) → AdminRows t t
AdminRows-refl t = record { customers = refl; acceptances = refl; work_orders = refl }

after_organizations :
    (t t' t'' : Tables) → AdminRows t t' → OrganizationsOnly t' t'' → AdminRows t t''
after_organizations t t' t'' h f = record {
  customers = f.customers ∙ h.customers;
  acceptances = f.acceptances ∙ h.acceptances;
  work_orders = f.work_orders ∙ h.work_orders;
}

after_users : (t t' t'' : Tables) → AdminRows t t' → UsersOnly t' t'' → AdminRows t t''
after_users t t' t'' h f = record {
  customers = f.customers ∙ h.customers;
  acceptances = f.acceptances ∙ h.acceptances;
  work_orders = f.work_orders ∙ h.work_orders;
}

module _ (t : Tables) where
  organization_rule : OrganizationRequests.IsInductive (AdminRows t)
  organization_rule = record {
    creates = λ db slug name hs hn h.
        after_organizations t _ _ h (OrganizationFrame.create-OrganizationsOnly db slug name);
    updates = λ db slug input good h.
        after_organizations t _ _ h (OrganizationFrame.update-OrganizationsOnly db slug input);
    deletes = λ db slug h.
        after_organizations t _ _ h (OrganizationFrame.delete-OrganizationsOnly db slug);
  }

  user_rule : UserRequests.IsInductive (AdminRows t)
  user_rule = record {
    creates = λ db input h. after_users t _ _ h (UserFrame.create-UsersOnly db input);
    updates = λ db k input h. after_users t _ _ h (UserFrame.update-UsersOnly db k input);
    deletes = λ db k h. after_users t _ _ h (UserFrame.delete-UsersOnly db k);
  }

-- What the server reads the organization of a user as.
abbrev pub key_of : World → User → Option Text
key_of w user = w.db.server.parse_uuid (trim_space user.organization.id)

pub data IsContained (app : App) (c : Context) (w w' : World) : Type 0 where
  untouched : w'.db.tables ≡ w.db.tables → w'.bucket ≡ w.bucket → IsContained app c w w'
  by_admin :
      (cl : Claims)
      → IsAdmin app c cl
      → AdminRows w.db.tables w'.db.tables
      → w'.bucket ≡ w.bucket
      → IsContained app c w w'
  by_member :
      (cl : Claims) (user : User)
      → IsMemberRequest app c w.db.tables cl user
      → OwnRows (key_of w user) w.db.tables w'.db.tables
      → IsContained app c w w'

refused-IsContained :
    (app : App) (c : Context) (w : World) (a : _) → IsRefused w a → IsContained app c w a.1
refused-IsContained app c w a r = untouched r.tables r.bucket

member_calls :
    (s : Service) (user : User) (c : Context) (w : World)
    → IsCanonical w.db.server
    → IsKept (OwnRows (key_of w user) w.db.tables) s (admitted user c) w
member_calls s user c w canonical =
    let own = (admitted_lookups user c).1 in
    record {
      before = OwnRows-eq (key_of w user) w.db.tables w.db.tables refl;
      orders = λ org input here.
          let same : org ≡ user.organization = ground (arith) in
          rw (← same) (create-OwnRows w.db (record input { organization_id = org.id }));
      submits = λ org x here.
          let same : org ≡ user.organization = ground (arith) in
          rw (← same) (submit-OwnRows s org.id x w canonical);
    }

private_me-IsContained :
    (app : App) (c : Context) (w : World) → IsContained app c w (serve app c Route.private_me w).1
unfolding serve
private_me-IsContained app c w =
    elim (before-IsRefused (clerk_auth app.verifier c, w.db) w
      (λ c' w'. (reply 200 (Payload.claims (current_claims c')), w')) refl) [
        | inl refused ↦ refused-IsContained app c w _ refused
        | inr (c', through, ran) ↦ rw ran (untouched refl refl)
      ]

-- A request to any route leaves all tables and the bucket as they are; or it bears a verified token of
-- an administrator, and then customers, acceptances, work orders and the bucket stay; or it bears a
-- verified token of a member, and then organizations, users, customers and every acceptance and work
-- order of another organization than the member's stay. This asks of PostgreSQL that it reads a UUID
-- which it has printed as the same one.
pub serve-IsContained :
    (app : App) (c : Context) (r : Route) (w : World)
    → IsCanonical w.db.server
    → IsContained app c w (serve app c r w).1
serve-IsContained app c Route.private_me w canonical = private_me-IsContained app c w
serve-IsContained app c (Route.organizations r) w canonical =
    elim ((serve-IsAdmin app c w r UserRequests.list).0) [
      | inl refused ↦ refused-IsContained app c w _ refused
      | inr (cl, admin, ran) ↦ rw ran (
          by_admin cl admin
            (organizations_keep (AdminRows w.db.tables) (organization_rule w.db.tables) app.fold r w
              (AdminRows-refl w.db.tables))
            ((run_organizations-db app.fold r w).1))
    ]
serve-IsContained app c (Route.users r) w canonical =
    elim ((serve-IsAdmin app c w OrganizationRequests.list r).1) [
      | inl refused ↦ refused-IsContained app c w _ refused
      | inr (cl, admin, ran) ↦ rw ran (
          by_admin cl admin
            (users_keep (AdminRows w.db.tables) (user_rule w.db.tables) app.fold r w
              (AdminRows-refl w.db.tables))
            ((run_users-db app.fold r w).1))
    ]
serve-IsContained app c (Route.member r) w canonical = elim (serve-IsMemberRequest app c w r) [
  | inl refused ↦ refused-IsContained app c w _ refused
  | inr (cl, user, w', facts, tables, server, bucket, ran) ↦
      let here : IsCanonical w'.db.server = rw server canonical in
      let key : key_of w' user ≡ key_of w user =
        ap (λ (s : Server). s.parse_uuid (trim_space user.organization.id)) server in
      let kept =
        member_keeps (OwnRows (key_of w' user) w'.db.tables) app.service
          (admitted user (with_claims cl c)) w'
          (member_calls app.service user (with_claims cl c) w' here) r in
      rw ran (by_member cl user facts (rw (← key, ← tables) kept))
]
