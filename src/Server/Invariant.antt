-- ===== src/Server/Invariant.antt =====
-- What the tables satisfy together, and that every call of a repository that writes keeps it.
use tecora_be.Prelude.{◌≡◌}
use tecora_be.Db.{Tables}
use tecora_be.Db.Frame.{
  Keeps, OrganizationsOnly, UsersOnly, AcceptancesOnly, WorkOrdersOnly, All-map,
}
use tecora_be.Organizations.Repository.Invariant as Organizations
use tecora_be.Users.Repository.Invariant as Users
use tecora_be.Acceptances.Repository.Invariant as Acceptances
use tecora_be.WorkOrders.Repository.Invariant as WorkOrders

-- Each table is valid, and every reference from one to another is to a row that exists.
pub record IsSound (t : Tables) : Type 0 where
  pub organizations : Organizations.Holds t
  pub users : Users.IsValid t
  pub acceptances : Acceptances.IsValid t
  pub work_orders : WorkOrders.IsValid t

-- A valid table stays valid beside other tables, while the organizations are kept.
move_users :
    (t t' : Tables)
    → t'.users ≡ t.users
    → Keeps t.organizations t'.organizations
    → Users.IsValid t
    → Users.IsValid t'
move_users t t' e keep v = record {
  ids = rw e v.ids;
  clerk_ids = rw e v.clerk_ids;
  members = rw e (
      All-map (Users.IsMember t) (Users.IsMember t') t.users (λ u m. keep u.organization_id m)
        v.members);
}

move_acceptances :
    (t t' : Tables)
    → t'.acceptances ≡ t.acceptances
    → Keeps t.organizations t'.organizations
    → Acceptances.IsValid t
    → Acceptances.IsValid t'
move_acceptances t t' e keep v = record {
  ids = rw e v.ids;
  orders = rw e v.orders;
  coherent = rw e (
      All-map (Acceptances.IsCoherent t) (Acceptances.IsCoherent t') t.acceptances
        (λ r c. (c.0, keep r.organization_id c.1)) v.coherent);
}

move_work_orders :
    (t t' : Tables)
    → t'.work_orders ≡ t.work_orders
    → Keeps t.organizations t'.organizations
    → WorkOrders.IsValid t
    → WorkOrders.IsValid t'
move_work_orders t t' e keep v = record {
  ids = rw e v.ids;
  orders = rw e v.orders;
  owned = rw e (
      All-map (WorkOrders.IsOwned t) (WorkOrders.IsOwned t') t.work_orders
        (λ w o. keep w.organization_id o) v.owned);
}

same-Keeps :
    (t t' : Tables) → t'.organizations ≡ t.organizations → Keeps t.organizations t'.organizations
same-Keeps t t' e id h = rw e h

-- A call that writes to one table and leaves it valid leaves the tables sound.
module _ (t t' : Tables) (s : IsSound t) where
  pub organizations_sound : OrganizationsOnly t t' → Organizations.Holds t' → IsSound t'
  organizations_sound f v = record {
    organizations = v;
    users = move_users t t' f.users f.organizations s.users;
    acceptances = move_acceptances t t' f.acceptances f.organizations s.acceptances;
    work_orders = move_work_orders t t' f.work_orders f.organizations s.work_orders;
  }

  pub users_sound : UsersOnly t t' → Users.IsValid t' → IsSound t'
  users_sound f v = record {
    organizations = rw f.organizations s.organizations;
    users = v;
    acceptances =
        move_acceptances t t' f.acceptances (same-Keeps t t' f.organizations) s.acceptances;
    work_orders =
        move_work_orders t t' f.work_orders (same-Keeps t t' f.organizations) s.work_orders;
  }

  pub acceptances_sound : AcceptancesOnly t t' → Acceptances.IsValid t' → IsSound t'
  acceptances_sound f v = record {
    organizations = rw f.organizations s.organizations;
    users = move_users t t' f.users (same-Keeps t t' f.organizations) s.users;
    acceptances = v;
    work_orders =
        move_work_orders t t' f.work_orders (same-Keeps t t' f.organizations) s.work_orders;
  }

  pub work_orders_sound : WorkOrdersOnly t t' → WorkOrders.IsValid t' → IsSound t'
  work_orders_sound f v = record {
    organizations = rw f.organizations s.organizations;
    users = move_users t t' f.users (same-Keeps t t' f.organizations) s.users;
    acceptances =
        move_acceptances t t' f.acceptances (same-Keeps t t' f.organizations) s.acceptances;
    work_orders = v;
  }

pub same_sound : (t t' : Tables) → t' ≡ t → IsSound t → IsSound t'
same_sound t t' e s = rw e s
