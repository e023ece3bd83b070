-- ===== src/Server/Routes/Rules.antt =====
-- What the calls of the repositories keep, as the rules for the routes of administrators and for `Submit`.
use tecora_be.Prelude.{ℕ, ◌≡◌, refl}
use tecora_be.Db.{Tables}
use tecora_be.Organizations.Handler.Requests as OrganizationRequests
use tecora_be.Organizations.Repository.Invariant as Organizations
use tecora_be.Organizations.Repository.Frame as OrganizationFrame
use tecora_be.Users.Handler.Requests as UserRequests
use tecora_be.Users.Repository.Invariant as Users
use tecora_be.Users.Repository.Frame as UserFrame
use tecora_be.Acceptances.Repository.Invariant as Acceptances
use tecora_be.Acceptances.Repository.Frame as AcceptanceFrame
use tecora_be.Acceptances.Service.{Service, World, key_of}
use tecora_be.Acceptances.Service.Submit.{IsInductive, Any}
use tecora_be.Server.Invariant.{
  IsSound, organizations_sound, users_sound, acceptances_sound, same_sound,
}
use tecora_be.Server.Routes.{run_organizations, run_users}

pub organization_rule : OrganizationRequests.IsInductive IsSound
organization_rule = record {
  creates = λ db slug name hs hn h.
      organizations_sound db.tables _ h (OrganizationFrame.create-OrganizationsOnly db slug name)
        (Organizations.create-IsValid db h.organizations slug name hs hn);
  updates = λ db slug input good h.
      organizations_sound db.tables _ h (OrganizationFrame.update-OrganizationsOnly db slug input)
        (Organizations.update-IsValid db h.organizations slug input good);
  deletes = λ db slug h.
      organizations_sound db.tables _ h (OrganizationFrame.delete-OrganizationsOnly db slug)
        (Organizations.delete-IsValid db h.organizations slug);
}

pub user_rule : UserRequests.IsInductive IsSound
user_rule = record {
  creates = λ db input h.
      users_sound db.tables _ h (UserFrame.create-UsersOnly db input)
        (Users.create-IsValid db h.users input);
  updates = λ db k input h.
      users_sound db.tables _ h (UserFrame.update-UsersOnly db k input)
        (Users.update-IsValid db h.users k input);
  deletes = λ db k h.
      users_sound db.tables _ h (UserFrame.delete-UsersOnly db k)
        (Users.delete-IsValid db h.users k);
}

abbrev pub HoldsHere : World → Type 0
HoldsHere w = IsSound w.db.tables

pub acceptance_rule : (s : Service) → IsInductive s Any HoldsHere
acceptance_rule s = record {
  reads = λ w db _ e h. same_sound w.db.tables db.tables e h;
  creates = λ w input _ h.
      acceptances_sound w.db.tables _ h (AcceptanceFrame.create-AcceptancesOnly w.db input)
        (Acceptances.create-IsValid w.db h.acceptances input);
  created = λ w input r own h e. tt;
  fails = λ w org id message _ h.
      acceptances_sound w.db.tables _ h
        (AcceptanceFrame.mark_pdf_failed-AcceptancesOnly w.db org id message)
        (Acceptances.mark_pdf_failed-IsValid w.db h.acceptances org id message);
  uploads = λ w r pdf _ h. h;
  generates = λ w r pdf _ _ h _.
      let key = key_of s r in
      acceptances_sound w.db.tables _ h
        (AcceptanceFrame.mark_pdf_generated-AcceptancesOnly w.db r.organization_id r.id key
          pdf.content_type)
        (Acceptances.mark_pdf_generated-IsValid w.db h.acceptances r.organization_id r.id key
          pdf.content_type);
}

-- The handlers of administrators use the database alone.
pub run_organizations-db :
    (fold : ℕ → ℕ) (r : OrganizationRequests.Request) (w : World)
    → ((run_organizations fold r w).1.db ≡ OrganizationRequests.serve fold r w.db)
      × ((run_organizations fold r w).1.bucket ≡ w.bucket)
unfolding run_organizations OrganizationRequests.serve
run_organizations-db fold OrganizationRequests.list w = (refl, refl)
run_organizations-db fold (OrganizationRequests.get slug) w = (refl, refl)
run_organizations-db fold (OrganizationRequests.create body) w = (refl, refl)
run_organizations-db fold (OrganizationRequests.update slug body) w = (refl, refl)
run_organizations-db fold (OrganizationRequests.delete slug) w = (refl, refl)

pub run_users-db :
    (fold : ℕ → ℕ) (r : UserRequests.Request) (w : World)
    → ((run_users fold r w).1.db ≡ UserRequests.serve fold r w.db)
      × ((run_users fold r w).1.bucket ≡ w.bucket)
unfolding run_users UserRequests.serve
run_users-db fold UserRequests.list w = (refl, refl)
run_users-db fold (UserRequests.get param) w = (refl, refl)
run_users-db fold (UserRequests.create body) w = (refl, refl)
run_users-db fold (UserRequests.update param body) w = (refl, refl)
run_users-db fold (UserRequests.delete param) w = (refl, refl)

module _ {κ} (P : Tables → Type κ) where
  pub organizations_keep :
      OrganizationRequests.IsInductive P
      → (fold : ℕ → ℕ) (r : OrganizationRequests.Request) (w : World) → P w.db.tables
      → P (run_organizations fold r w).1.db.tables
  organizations_keep rule fold r w h =
      rw ((run_organizations-db fold r w).0) (OrganizationRequests.serve_keeps P rule fold r w.db h)

  pub users_keep :
      UserRequests.IsInductive P
      → (fold : ℕ → ℕ) (r : UserRequests.Request) (w : World) → P w.db.tables
      → P (run_users fold r w).1.db.tables
  users_keep rule fold r w h =
      rw ((run_users-db fold r w).0) (UserRequests.serve_keeps P rule fold r w.db h)
